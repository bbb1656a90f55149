-- ===== src/Session.antt =====
-- libs/tqtk-common/src/tqtk_common/session.py: `FeedSession`, a session's identity and its counter
-- for each (provider, symbol). The identity is `uuid4().hex`, an argument of `start`.
pub mod Gapless
use tqtk_price_streaming.Prelude.{ℕ, ◌+◌, Option, none, some, List, [], ◌∷◌, pair_eq}
use tqtk_price_streaming.Prelude.Text.{Str, str_eq}
use tqtk_price_streaming.Prelude.Dict.{Dict, get, put}

-- One stream: the provider and the symbol.
abbrev pub Stream : Type 0
Stream = Str × Str

pub record FeedSession : Type 0 where
  pub session_id : Str
  pub next : Dict Stream ℕ

-- FeedSession()
unfoldable pub start : Str → FeedSession
start uuid = record { session_id = uuid; next = [] }

-- `self._next.get(key, 0)`
unfoldable pub counter : Option ℕ → ℕ
counter none = 0
counter (some n) = n

unfoldable pub next_seq : Str → Str → FeedSession → FeedSession × ℕ
unfolding counter
next_seq provider symbol s =
    let key : Stream = (provider, symbol) in
    let seq = counter (get key s.next) in (record s { next = put key (seq + 1) s.next }, seq)

-- A sequence of calls, by any interleaving of the tasks that share the session.
unfoldable pub assign : List Stream → FeedSession → List (Stream × ℕ) × FeedSession
assign [] s = ([], s)
assign (k ∷ calls) s =
    let (s', seq) = next_seq k.0 k.1 s in
    let (rest, last) = assign calls s' in ((k, seq) ∷ rest, last)
