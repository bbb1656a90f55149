-- ===== src/Delivery/EndToEnd.antt =====
-- The producer's counter (session.py) and the consumer's tracker (delivery.py) together.
use native.Mathlib.Numerals.{add-one}
use tqtk_price_streaming.Prelude.{
  ℕ, zero, suc, ◌≡◌, ◌≢◌, refl, sym, subst, false, Option, none, some, List, [], ◌∷◌, All, ◌==◌,
  ==_iff, pair_eq, arith, inl, inr, Bool-cases,
}
use tqtk_price_streaming.Prelude.Text.{Str, str_eq}
use tqtk_price_streaming.Session.{Stream, FeedSession, next_seq, assign}
use tqtk_price_streaming.Session.Gapless.{current, current-next_seq, next_seq-current}
use tqtk_price_streaming.Records.Tick.{Tick}
use tqtk_price_streaming.Delivery.{
  Mark, DeliveryTracker, Observation, is_loss, is_duplicate, stream_of, against, observe,
  observe_all,
}
use tqtk_price_streaming.Delivery.Marks.{mark_of, advance, mark_of-observe, observe-against}

-- The mark when a session has handed out `n` numbers: nothing of it yet, or the last of them.
abbrev pub SyncedAt : Str → ℕ → Option Mark → Type 0
SyncedAt session_id zero none = Unit
SyncedAt session_id zero (some m) = m.0 ≢ session_id
SyncedAt session_id (suc n) m = m ≡ some (session_id, n)

-- The tracker has read just what the session has published.
abbrev pub Synced : FeedSession → DeliveryTracker → Type 0
Synced s tracker = (k : Stream) → SyncedAt s.session_id (current k s) (mark_of k tracker)

abbrev pub IsQuiet : Observation → Type 0
IsQuiet o = (is_loss o ≡ false) × (is_duplicate o ≡ false) × (o.missing ≡ 0)

module _ {F : Type 0} where
  -- The records carry the session's identity and the numbers that it assigned, one for each call.
  abbrev pub Carries : Str → List (Tick F) → List (Stream × ℕ) → Type 0
  Carries session_id [] [] = Unit
  Carries session_id (t ∷ ts) ((k, seq) ∷ given) =
      (stream_of t ≡ k) × (t.seq ≡ seq) × (t.session_id ≡ session_id) × Carries session_id ts given
  Carries session_id _ _ = ⊥

  against-IsQuiet :
      (session_id : Str) (n : ℕ) (m : Option Mark) (t : Tick F) (tracker : DeliveryTracker)
      → t.session_id ≡ session_id
      → t.seq ≡ n
      → SyncedAt session_id n m
      → IsQuiet (against m t tracker).1
  unfolding against is_loss is_duplicate
  against-IsQuiet session_id zero none t tracker e f h = ground arith
  against-IsQuiet session_id zero (some (j, w)) t tracker e f h =
      ground (arith, ==_iff j t.session_id)
  against-IsQuiet session_id (suc n) m t tracker e f h =
      rw h (ground (arith, ==_iff session_id t.session_id))

  advance-SyncedAt :
      (session_id : Str) (n : ℕ) (m : Option Mark) (t : Tick F)
      → t.session_id ≡ session_id
      → t.seq ≡ n
      → SyncedAt session_id n m
      → SyncedAt session_id (suc n) (some (advance m t))
  unfolding advance
  advance-SyncedAt session_id zero none t e f h = ground arith
  advance-SyncedAt session_id zero (some (j, w)) t e f h = ground (arith, ==_iff j t.session_id)
  advance-SyncedAt session_id (suc n) m t e f h =
      rw h (ground (arith, ==_iff session_id t.session_id))

  observe-Synced :
      (s : FeedSession) (tracker : DeliveryTracker) (t : Tick F)
      → t.session_id ≡ s.session_id
      → t.seq ≡ current (stream_of t) s
      → Synced s tracker
      → Synced (next_seq t.provider t.symbol s).0 (observe t tracker).0
  unfolding next_seq
  observe-Synced s tracker t e f h j = elim (Bool-cases (stream_of t == j)) [
    | inl here ↦
        let counted = rw here at (current-next_seq (stream_of t) j s) in
        let marked = rw here at (mark_of-observe t tracker j) in
        rw (counted, marked, add-one)
          (advance-SyncedAt s.session_id (current (stream_of t) s) (mark_of (stream_of t) tracker) t
            e f (h (stream_of t)))
    | inr other ↦
        let counted = rw other at (current-next_seq (stream_of t) j s) in
        let marked = rw other at (mark_of-observe t tracker j) in rw (counted, marked) (h j)
  ]

  observe-IsQuiet :
      (s : FeedSession) (tracker : DeliveryTracker) (t : Tick F)
      → t.session_id ≡ s.session_id
      → t.seq ≡ current (stream_of t) s
      → Synced s tracker
      → IsQuiet (observe t tracker).1
  observe-IsQuiet s tracker t e f h = rw (observe-against t tracker refl) (
      against-IsQuiet s.session_id (current (stream_of t) s) (mark_of (stream_of t) tracker) t
        tracker e f (h (stream_of t)))

  -- If records carry the session's identity and the numbers that `next_seq` assigned, one for
  -- each call in the order of the calls, and the tracker's mark of every stream agrees with the
  -- session's counter at the start, then reading the records in that order gives no gap, no
  -- duplicate and no missing record.
  pub no_alarm :
      (calls : List Stream) (s : FeedSession) (ts : List (Tick F)) (tracker : DeliveryTracker)
      → Carries s.session_id ts (assign calls s).0
      → Synced s tracker
      → All IsQuiet (observe_all ts tracker).1
  unfolding assign observe_all next_seq
  no_alarm [] s [] tracker c h = tt
  no_alarm [] s (t ∷ ts) tracker c h = absurd c
  no_alarm (k ∷ calls) s [] tracker c h = absurd c
  no_alarm (k ∷ calls) s (t ∷ ts) tracker c h =
      let numbered : t.seq ≡ current (stream_of t) s = cc (c.0, c.1, next_seq-current k s) in
      let rest =
        subst (λ j. Carries s.session_id ts (assign calls (next_seq j.0 j.1 s).0).0) (sym c.0)
          c.3 in
      (
        observe-IsQuiet s tracker t c.2 numbered h,
        no_alarm calls (next_seq t.provider t.symbol s).0 ts (observe t tracker).0 rest
            (observe-Synced s tracker t c.2 numbered h),
      )
