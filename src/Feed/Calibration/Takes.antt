-- ===== src/Feed/Calibration/Takes.antt =====
-- calibration_store.py: what a reading takes of the replies to come.
use mathlib.Core.List.{append-nil, append_assoc}
use tqtk_price_streaming.Prelude.{
  ◌≡◌, refl, ap, subst, ◌∙◌, List, [], ◌∷◌, ◌++◌, Result, ok, err, ◌>>=◌,
}
use tqtk_price_streaming.Prelude.Text.{str_eq}
use tqtk_price_streaming.Prelude.Dict.{Dict}
use tqtk_price_streaming.Feed.Calibration.{Raw, Checked}
use tqtk_price_streaming.Feed.Calibration.Taking as Taking
use tqtk_price_streaming.Feed.Calibration.Taking.{
  set, next_set, Command, ask_hash, Reply, hash, value, answer, execute, Fault, invalid, Taking,
  pure, checked, next_set, next_hash, next_value,
}

-- What a check gives, with the replies that are left.
abbrev pub leaves : {A : Type 0} → Checked A → List Reply → Result Fault (A × List Reply)
leaves (ok a) rest = ok (a, rest)
leaves (err e) rest = err (invalid e)

-- The reading takes these replies, and gives what the check gives.
abbrev pub Takes : {A : Type 0} → Taking A → List Reply → Checked A → Type 0
Takes take used m = (rest : List Reply) → take (used ++ rest) ≡ leaves m rest

pub bind-Takes :
    {A B : Type 0} (take : Taking A) (used used' : List Reply) (m : Checked A) (next : A → Taking B)
    (k : A → Checked B)
    → Takes take used m
    → ((a : A) → m ≡ ok a → Takes (next a) used' (k a))
    → Takes (Taking.◌>>=◌ take next) (used ++ used') (m >>= k)
unfolding Taking.◌>>=◌
bind-Takes {A = A} {B = B} take used used' m next k h then rest =
    ap
      (λ r. elim r as (λ _. Result Fault (B × List Reply)) [
        | ok (a, left) ↦ next a left
        | err e ↦ err e
      ])
      (ap take (append_assoc used used' rest) ∙ h (used' ++ rest))
    ∙ after m then
  where
    after :
        (c : Checked A)
        → ((a : A) → c ≡ ok a → Takes (next a) used' (k a))
        → (elim (leaves c (used' ++ rest)) as (λ _. Result Fault (B × List Reply)) [
          | ok (a, left) ↦ next a left
          | err e ↦ err e
        ])
          ≡ leaves (c >>= k) rest
    after (err e) then = refl
    after (ok a) then = then a refl rest

pub checked-Takes : {A : Type 0} (m : Checked A) → Takes (checked m) [] m
unfolding checked
checked-Takes (ok a) rest = refl
checked-Takes (err e) rest = refl

pub pure-Takes : {A : Type 0} (a : A) → Takes (pure a) [] (ok a)
unfolding pure
pure-Takes a rest = refl

-- A hash, and the reading of what follows it.
pub next_hash-Takes :
    {A : Type 0} (raw : Dict Raw Raw) (used : List Reply) (next : Dict Raw Raw → Taking A)
    (m : Checked A)
    → Takes (next raw) used m
    → Takes (Taking.◌>>=◌ next_hash next) (hash raw ∷ used) m
unfolding Taking.◌>>=◌ next_hash
next_hash-Takes raw used next m h = h

pub next_set-Takes :
    {A : Type 0} (raw : List Raw) (used : List Reply) (next : List Raw → Taking A) (m : Checked A)
    → Takes (next raw) used m
    → Takes (Taking.◌>>=◌ next_set next) (set raw ∷ used) m
unfolding Taking.◌>>=◌ next_set
next_set-Takes raw used next m h = h

pub check-Takes :
    {A B : Type 0} (m : Checked A) (next : A → Taking B) (k : A → Checked B)
    → ((a : A) → m ≡ ok a → Takes (next a) [] (k a))
    → Takes (Taking.◌>>=◌ (checked m) next) [] (m >>= k)
check-Takes m next k = bind-Takes (checked m) [] [] m next k (checked-Takes m)

-- The last reading, and what is made of it.
pub last-Takes :
    {A B : Type 0} (take : Taking A) (used : List Reply) (m : Checked A) (make : A → B)
    → Takes take used m
    → Takes (Taking.◌>>=◌ take (λ a. pure (make a))) used (m >>= λ a. ok (make a))
last-Takes take used m make h =
    subst (λ u. Takes (Taking.◌>>=◌ take (λ a. pure (make a))) u (m >>= λ a. ok (make a)))
      (append-nil used)
      (bind-Takes take used [] m (λ a. pure (make a)) (λ a. ok (make a)) h
        (λ a _. pure-Takes (make a)))
