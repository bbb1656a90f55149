-- ===== src/Session/Gapless.antt =====
-- session.py: the numbers that each stream is given, under interleaved calls.
use tqtk_price_streaming.Prelude.{
  ℕ, suc, ◌+◌, ◌≡◌, refl, List, [], ◌∷◌, range_from, inl, inr, Bool-cases, ◌==◌, ==_iff, ==_refl,
  pair_eq, arith, if◌then◌else◌,
}
use tqtk_price_streaming.Prelude.Text.{str_eq}
use tqtk_price_streaming.Prelude.Dict.{get, get-put}
use tqtk_price_streaming.Session.{Stream, FeedSession, counter, next_seq, assign}

-- The number that the next call for a stream returns.
unfoldable pub current : Stream → FeedSession → ℕ
current k s = counter (get k s.next)

-- How many of the calls one stream made, and the numbers that it was given.
unfoldable pub count_of : Stream → List Stream → ℕ
count_of k [] = 0
count_of k (j ∷ calls) = if j == k then suc (count_of k calls) else count_of k calls

unfoldable pub seqs_of : Stream → List (Stream × ℕ) → List ℕ
seqs_of k [] = []
seqs_of k ((j, seq) ∷ given) = if j == k then seq ∷ seqs_of k given else seqs_of k given

pub next_seq-current : (k : Stream) (s : FeedSession) → (next_seq k.0 k.1 s).1 ≡ current k s
unfolding next_seq current
next_seq-current k s = refl

pub current-next_seq :
    (k : Stream) (j : Stream) (s : FeedSession)
    → current j (next_seq k.0 k.1 s).0 ≡ (if k == j then current k s + 1 else current j s)
unfolding current next_seq
current-next_seq k j s = ground (arith, get-put k j (counter (get k s.next) + 1) s.next)

pub current-next_seq_self :
    (k : Stream) (s : FeedSession) → current k (next_seq k.0 k.1 s).0 ≡ current k s + 1
current-next_seq_self k s = rw (current-next_seq k k s, ==_refl k)

pub next_seq-session_id :
    (k : Stream) (s : FeedSession) → (next_seq k.0 k.1 s).0.session_id ≡ s.session_id
unfolding next_seq
next_seq-session_id k s = refl

-- Whatever the order of the calls, one stream's calls are given consecutive numbers, from its
-- counter on.
pub assign-range_from :
    (calls : List Stream) (s : FeedSession) (k : Stream)
    → seqs_of k (assign calls s).0 ≡ range_from (current k s) (count_of k calls)
unfolding assign seqs_of count_of
assign-range_from [] s k = refl
assign-range_from (j ∷ calls) s k = elim (Bool-cases (j == k)) [
  | inl here ↦ rw here (
      cc (
        (==_iff j k).0 here,
        next_seq-current j s,
        rw here at (current-next_seq j k s),
        assign-range_from calls (next_seq j.0 j.1 s).0 k,
      ))
  | inr other ↦
      rw other (
        cc (rw other at (current-next_seq j k s), assign-range_from calls (next_seq j.0 j.1 s).0 k))
]

-- A stream's counter grows by the calls that it made, and the identity stays.
pub assign-current :
    (calls : List Stream) (s : FeedSession) (k : Stream)
    → current k (assign calls s).1 ≡ current k s + count_of k calls
unfolding assign count_of
assign-current [] s k = omega arith
assign-current (j ∷ calls) s k = elim (Bool-cases (j == k)) [
  | inl here ↦
      let same : current j s ≡ current k s = cc ((==_iff j k).0 here) in
      rw here (
        omega (
          arith,
          rw here at (current-next_seq j k s),
          same,
          assign-current calls (next_seq j.0 j.1 s).0 k,
        ))
  | inr other ↦ rw other (
      omega (
        arith,
        rw other at (current-next_seq j k s),
        assign-current calls (next_seq j.0 j.1 s).0 k,
      ))
]

pub assign-session_id :
    (calls : List Stream) (s : FeedSession) → (assign calls s).1.session_id ≡ s.session_id
unfolding assign next_seq
assign-session_id [] s = refl
assign-session_id (j ∷ calls) s = assign-session_id calls (next_seq j.0 j.1 s).0
