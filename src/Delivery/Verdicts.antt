-- ===== src/Delivery/Verdicts.antt =====
-- delivery.py: when `observe` counts a record as loss, and when as a redelivery.
use tqtk_price_streaming.Prelude.{
  ℕ, ◌≤◌, ◌<◌, ◌+◌, ◌≡◌, ◌↔◌, true, Option, none, some, ==_iff, arith,
}
use tqtk_price_streaming.Prelude.Text.{str_eq}
use tqtk_price_streaming.Records.Tick.{Tick}
use tqtk_price_streaming.Delivery.{
  Mark, DeliveryTracker, is_loss, is_duplicate, stream_of, against, observe,
}
use tqtk_price_streaming.Delivery.Marks.{mark_of}

module _ {F : Type 0} where
  -- The mark is of the record's session, and `n` records between it and this one are missing.
  abbrev pub Jumps : Option Mark → Tick F → ℕ → Type 0
  Jumps m t n = (h : ℕ) × (m ≡ some (t.session_id, h)) × (h + n + 1 ≡ t.seq) × (0 < n)

  abbrev pub Repeats : Option Mark → Tick F → Type 0
  Repeats m t = (h : ℕ) × (m ≡ some (t.session_id, h)) × (t.seq ≤ h)

  loss_against :
      (m : Option Mark) (t : Tick F) (tracker : DeliveryTracker)
      → (is_loss (against m t tracker).1 ≡ true) ↔ Jumps m t (against m t tracker).1.missing
  unfolding against is_loss
  loss_against none t tracker = (λ h. absurd (ground arith), λ j. absurd (ground (arith, j.1)))
  loss_against (some (session_id, high_water)) t tracker = (
    λ h. (
      high_water,
      ground (arith, ==_iff session_id t.session_id),
      ground (arith, ==_iff session_id t.session_id),
      ground (arith, ==_iff session_id t.session_id),
    ),
    λ j. ground (arith, j.1, j.2, j.3, ==_iff session_id t.session_id),
  )

  duplicate_against :
      (m : Option Mark) (t : Tick F) (tracker : DeliveryTracker)
      → (is_duplicate (against m t tracker).1 ≡ true) ↔ Repeats m t
  unfolding against is_duplicate
  duplicate_against none t tracker = (λ h. absurd (ground arith), λ j. absurd (ground (arith, j.1)))
  duplicate_against (some (session_id, high_water)) t tracker = (
    λ h. (
      high_water,
      ground (arith, ==_iff session_id t.session_id),
      ground (arith, ==_iff session_id t.session_id),
    ),
    λ j. ground (arith, j.1, j.2, ==_iff session_id t.session_id),
  )

  -- The verdict on a record is a loss exactly when the mark of its stream is of its session and
  -- lies below it with a positive number of records between, and that number is what the
  -- verdict reports missing.
  loss_iff :
      (t : Tick F) (tracker : DeliveryTracker)
      → (is_loss (observe t tracker).1 ≡ true)
        ↔ Jumps (mark_of (stream_of t) tracker) t (observe t tracker).1.missing
  unfolding observe mark_of
  loss_iff t tracker = loss_against (mark_of (stream_of t) tracker) t tracker

  -- The verdict on a record is a duplicate exactly when the mark of its stream is of its
  -- session and not below its `seq`.
  duplicate_iff :
      (t : Tick F) (tracker : DeliveryTracker)
      → (is_duplicate (observe t tracker).1 ≡ true) ↔ Repeats (mark_of (stream_of t) tracker) t
  unfolding observe mark_of
  duplicate_iff t tracker = duplicate_against (mark_of (stream_of t) tracker) t tracker

  -- The verdict on a record is a loss exactly when the mark of its stream is of its session and
  -- lies below it with a positive number of records between, which is what the verdict reports
  -- missing; and it is a duplicate exactly when the mark is of its session and not below its
  -- `seq`.
  verdict_iff :
      (t : Tick F) (tracker : DeliveryTracker)
      → ((is_loss (observe t tracker).1 ≡ true)
          ↔ Jumps (mark_of (stream_of t) tracker) t (observe t tracker).1.missing)
        × ((is_duplicate (observe t tracker).1 ≡ true) ↔ Repeats (mark_of (stream_of t) tracker) t)
  verdict_iff t tracker = (loss_iff t tracker, duplicate_iff t tracker)
