-- ===== src/Feed/Calibration/Taking.antt =====
-- calibration_store.py: the commands that a pipeline queues, the replies that `execute` returns in their
-- order, and `next(replies)`, which takes them one by one.
use tqtk_price_streaming.Prelude.{Option, List, [], ◌∷◌, map, Result, ok, err}
use tqtk_price_streaming.Prelude.Text.{Str}
use tqtk_price_streaming.Prelude.Dict.{Dict}
use tqtk_price_streaming.Feed.Calibration.{Raw, Replies, CalibrationError, Checked}

pub data Command : Type 0 where
  ask_set ask_hash ask_text : Str → Command

pub data Reply : Type 0 where
  set : List Raw → Reply
  hash : Dict Raw Raw → Reply
  value : Option Raw → Reply

-- What Redis replies to each command of a pipeline, in their order.
unfoldable pub answer : Replies → Command → Reply
answer replies (ask_set key) = set (replies.smembers key)
answer replies (ask_hash key) = hash (replies.hgetall key)
answer replies (ask_text key) = value (replies.get key)

unfoldable pub execute : Replies → List Command → List Reply
unfolding answer
execute replies commands = map (answer replies) commands

-- What ends the reading: `next` at the end of the replies, a reply of another kind, or an error.
pub data Fault : Type 0 where
  exhausted mismatched : Fault
  invalid : CalibrationError → Fault

-- A reading of the replies to come, which leaves those that it does not take.
abbrev pub Taking : Type 0 → Type 0
Taking A = List Reply → Result Fault (A × List Reply)

infixl 5 ◌>>=◌ ◌>>◌
unfoldable pub ◌>>=◌ : {A B : Type 0} → Taking A → (A → Taking B) → Taking B
◌>>=◌ take next replies = elim (take replies) [ ok (a, rest) ↦ next a rest | err e ↦ err e ]

unfoldable pub ◌>>◌ : {B : Type 0} → Taking (Unit {0}) → Taking B → Taking B
take >> next = take >>= λ _. next

unfoldable pub pure : {A : Type 0} → A → Taking A
pure a replies = ok (a, replies)

-- A check of what was taken.
unfoldable pub checked : {A : Type 0} → Checked A → Taking A
checked (ok a) replies = ok (a, replies)
checked (err e) replies = err (invalid e)

unfoldable pub next_set : Taking (List Raw)
next_set [] = err exhausted
next_set (set raw ∷ replies) = ok (raw, replies)
next_set (_ ∷ replies) = err mismatched

unfoldable pub next_hash : Taking (Dict Raw Raw)
next_hash [] = err exhausted
next_hash (hash raw ∷ replies) = ok (raw, replies)
next_hash (_ ∷ replies) = err mismatched

unfoldable pub next_value : Taking (Option Raw)
next_value [] = err exhausted
next_value (value raw ∷ replies) = ok (raw, replies)
next_value (_ ∷ replies) = err mismatched
