-- ===== src/Delivery/Redelivery.antt =====
-- delivery.py: records that are read more than once.
use tqtk_price_streaming.Prelude.{
  ℕ, ◌≤◌, ◌≡◌, refl, ap, ◌∙◌, Option, none, some, List, [], ◌∷◌, ◌++◌, leb, ◌==◌, ==_iff, ==_refl,
  pair_eq, arith, inl, inr, Bool-cases, if◌then◌else◌,
}
use tqtk_price_streaming.Prelude.Text.{Str, str_eq}
use tqtk_price_streaming.Session.{Stream}
use tqtk_price_streaming.Records.Tick.{Tick}
use tqtk_price_streaming.Delivery.{
  Mark, DeliveryTracker, duplicate, stream_of, against, observe, observe_all,
}
use tqtk_price_streaming.Delivery.Marks.{mark_of, advance, mark_of-observe, observe-against}
use tqtk_price_streaming.Delivery.Loss.{InSession}

-- The mark of the stream is of the session, and has reached `seq`.
abbrev pub Reached : Stream → Str → ℕ → DeliveryTracker → Type 0
Reached k session_id seq tracker = (h : ℕ) × (mark_of k tracker ≡ some (session_id, h)) × (seq ≤ h)

module _ {F : Type 0} where
  advance_own :
      (m : Option Mark) (t : Tick F) → (h : ℕ) × (advance m t ≡ (t.session_id, h)) × (t.seq ≤ h)
  unfolding advance
  advance_own none t = (t.seq, refl, omega arith)
  advance_own (some (session_id, high_water)) t = (
    if session_id == t.session_id
        then (if leb t.seq high_water then high_water else t.seq)
        else t.seq,
    ground (arith, ==_iff session_id t.session_id),
    ground arith,
  )

  advance_kept :
      (session_id : Str) (h : ℕ) (t : Tick F)
      → t.session_id ≡ session_id
      → (h' : ℕ) × (advance (some (session_id, h)) t ≡ (session_id, h')) × (h ≤ h')
  unfolding advance
  advance_kept session_id h t e = (
    if leb t.seq h then h else t.seq,
    ground (arith, ==_iff session_id t.session_id),
    ground arith,
  )

  observe-Reached :
      (t : Tick F) (tracker : DeliveryTracker)
      → Reached (stream_of t) t.session_id t.seq (observe t tracker).0
  observe-Reached t tracker =
      let (h, e, below) = advance_own (mark_of (stream_of t) tracker) t in
      (
        h,
        rw (==_refl (stream_of t)) at (mark_of-observe t tracker (stream_of t)) ∙ ap some e,
        below,
      )

  module _ (k : Stream) (session_id : Str) (seq : ℕ) where
    observe-keeps_Reached :
        (t : Tick F) (tracker : DeliveryTracker)
        → (stream_of t ≡ k → t.session_id ≡ session_id)
        → Reached k session_id seq tracker
        → Reached k session_id seq (observe t tracker).0
    observe-keeps_Reached t tracker same (h, e, below) = elim (Bool-cases (stream_of t == k)) [
      | inl here ↦
          let own = (==_iff (stream_of t) k).0 here in
          let (h', e', up) = advance_kept session_id h t (same own) in
          (h', cc (rw here at (mark_of-observe t tracker k), own, e, e'), omega arith)
      | inr other ↦ (h, rw other at (mark_of-observe t tracker k) ∙ e, below)
    ]

    observe_all-keeps_Reached :
        (ts : List (Tick F)) (tracker : DeliveryTracker)
        → InSession k session_id ts
        → Reached k session_id seq tracker
        → Reached k session_id seq (observe_all ts tracker).0
    unfolding observe_all
    observe_all-keeps_Reached [] tracker same r = r
    observe_all-keeps_Reached (t ∷ ts) tracker same r =
        observe_all-keeps_Reached ts (observe t tracker).0 same.1
          (observe-keeps_Reached t tracker same.0 r)

  observe_all-append :
      (xs ys : List (Tick F)) (tracker : DeliveryTracker)
      → (observe_all (xs ++ ys) tracker).0 ≡ (observe_all ys (observe_all xs tracker).0).0
  unfolding observe_all
  observe_all-append [] ys tracker = refl
  observe_all-append (x ∷ xs) ys tracker = observe_all-append xs ys (observe x tracker).0

  Reached-observe :
      (t : Tick F) (tracker : DeliveryTracker)
      → Reached (stream_of t) t.session_id t.seq tracker
      → observe t tracker ≡ (tracker, record { delivery = duplicate; missing = 0 })
  unfolding against
  Reached-observe t tracker (h, e, below) =
      observe-against t tracker e ∙ ground (arith, ==_iff t.session_id t.session_id)

  -- A record that was read, and after which the records of its stream were of its session, is a
  -- duplicate when it is read again, and reading it again leaves the tracker as it is.
  pub redelivered :
      (before after : List (Tick F)) (t : Tick F) (tracker : DeliveryTracker)
      → InSession (stream_of t) t.session_id after
      → observe t (observe_all (before ++ (t ∷ after)) tracker).0 ≡ (
        (observe_all (before ++ (t ∷ after)) tracker).0,
        record { delivery = duplicate; missing = 0 },
      )
  unfolding observe_all
  redelivered before after t tracker same =
      let mid = (observe_all before tracker).0 in
      Reached-observe t (observe_all (before ++ (t ∷ after)) tracker).0 (
        rw (observe_all-append before (t ∷ after) tracker) (
          observe_all-keeps_Reached (stream_of t) t.session_id t.seq after (observe t mid).0 same
            (observe-Reached t mid)))
