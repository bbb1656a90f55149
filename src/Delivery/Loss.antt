-- ===== src/Delivery/Loss.antt =====
-- delivery.py: what the verdicts on one stream add up to.
use tqtk_price_streaming.Prelude.{
  ℕ, ◌+◌, ◌≡◌, true, some, List, [], ◌∷◌, All, ◌==◌, ==_iff, pair_eq, arith, ap, ◌∙◌, inl, inr,
  Bool-cases, if◌then◌else◌,
}
use tqtk_price_streaming.Prelude.Text.{Str, str_eq}
use tqtk_price_streaming.Session.{Stream}
use tqtk_price_streaming.Records.Tick.{Tick}
use tqtk_price_streaming.Delivery.{
  DeliveryTracker, Observation, is_duplicate, stream_of, against, observe, observe_all,
}
use tqtk_price_streaming.Delivery.Marks.{mark_of, advance, mark_of-observe, observe-against}

module _ {F : Type 0} where
  -- What the verdicts on one stream's records add up to: the records missing, and those handled.
  unfoldable pub missing_on : Stream → List (Tick F) → List Observation → ℕ
  missing_on k (t ∷ ts) (o ∷ os) =
      let rest = missing_on k ts os in if stream_of t == k then o.missing + rest else rest
  missing_on k _ _ = 0

  unfoldable pub handled_on : Stream → List (Tick F) → List Observation → ℕ
  handled_on k (t ∷ ts) (o ∷ os) =
      let rest = handled_on k ts os in
      if stream_of t == k then (if is_duplicate o then rest else rest + 1) else rest
  handled_on k _ _ = 0

  -- The records of one stream come from one session.
  abbrev pub InSession : Stream → Str → List (Tick F) → Type 0
  InSession k session_id = All (λ t. stream_of t ≡ k → t.session_id ≡ session_id)

  -- One record of the session moves the mark by what its verdict says.
  advance-verdict :
      (session_id : Str) (h : ℕ) (t : Tick F) (tracker : DeliveryTracker)
      → t.session_id ≡ session_id
      → advance (some (session_id, h)) t ≡ (
        session_id,
        h
            + (against (some (session_id, h)) t tracker).1.missing
            + (if is_duplicate (against (some (session_id, h)) t tracker).1 then 0 else 1),
      )
  unfolding advance against is_duplicate
  advance-verdict session_id h t tracker e = ground (arith, ==_iff session_id t.session_id)

  module _ (k : Stream) (session_id : Str) where
    observe-verdict :
        (t : Tick F) (tracker : DeliveryTracker) (h : ℕ)
        → (stream_of t == k) ≡ true
        → t.session_id ≡ session_id
        → mark_of k tracker ≡ some (session_id, h)
        → mark_of k (observe t tracker).0
          ≡ some (
            session_id,
            h
                + (observe t tracker).1.missing
                + (if is_duplicate (observe t tracker).1 then 0 else 1),
          )
    observe-verdict t tracker h here same e =
        let own : mark_of (stream_of t) tracker ≡ some (session_id, h) =
          cc (e, (==_iff (stream_of t) k).0 here) in
        rw (observe-against t tracker own) (
          cc (
            rw here at (mark_of-observe t tracker k),
            observe-against t tracker own,
            own,
            advance-verdict session_id h t tracker same,
          ))

    -- While the records of one stream come from one session, which its mark is of at the start,
    -- the mark ends higher by exactly the records reported missing on that stream and those
    -- handled on it, whatever the records of other streams are.
    pub passed_seqs :
        (ts : List (Tick F)) (tracker : DeliveryTracker) (h : ℕ)
        → InSession k session_id ts
        → mark_of k tracker ≡ some (session_id, h)
        → mark_of k (observe_all ts tracker).0
          ≡ some (
            session_id,
            h
                + missing_on k ts (observe_all ts tracker).1
                + handled_on k ts (observe_all ts tracker).1,
          )
    unfolding observe_all missing_on handled_on
    passed_seqs [] tracker h same e = ground (arith, e)
    passed_seqs (t ∷ ts) tracker h same e = elim (Bool-cases (stream_of t == k)) [
      | inl here ↦
          let step =
            observe-verdict t tracker h here (same.0 ((==_iff (stream_of t) k).0 here)) e in
          rw here (
            passed_seqs ts (observe t tracker).0 _ same.1 step
            ∙ ap (λ (n : ℕ). some (session_id, n)) (ground arith))
      | inr other ↦ rw other (
          passed_seqs ts (observe t tracker).0 h same.1
            (rw other at (mark_of-observe t tracker k) ∙ e))
    ]
