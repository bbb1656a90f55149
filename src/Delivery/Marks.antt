-- ===== src/Delivery/Marks.antt =====
-- delivery.py: what `observe` does to the mark of each stream.
use tqtk_price_streaming.Prelude.{
  ◌≡◌, refl, ap, Option, none, some, leb, ◌==◌, ==_iff, pair_eq, arith, if◌then◌else◌,
}
use tqtk_price_streaming.Prelude.Text.{str_eq}
use tqtk_price_streaming.Prelude.Dict.{get, get-put}
use tqtk_price_streaming.Session.{Stream}
use tqtk_price_streaming.Records.Tick.{Tick}
use tqtk_price_streaming.Delivery.{Mark, DeliveryTracker, stream_of, remember, against, observe}

-- The mark of one stream.
unfoldable pub mark_of : Stream → DeliveryTracker → Option Mark
mark_of k tracker = get k tracker.seen

module _ {F : Type 0} where
  -- A new session starts the mark anew; in one session it never falls.
  unfoldable pub advance : Option Mark → Tick F → Mark
  advance none t = (t.session_id, t.seq)
  advance (some (session_id, high_water)) t =
      if session_id == t.session_id
      then (session_id, if leb t.seq high_water then high_water else t.seq)
      else (t.session_id, t.seq)

  mark_of-remember :
      (t : Tick F) (tracker : DeliveryTracker) (k : Stream)
      → mark_of k (remember t tracker)
        ≡ (if stream_of t == k then some (t.session_id, t.seq) else mark_of k tracker)
  unfolding mark_of remember
  mark_of-remember t tracker k = get-put (stream_of t) k (t.session_id, t.seq) tracker.seen

  mark_of-against :
      (m : Option Mark) (t : Tick F) (tracker : DeliveryTracker) (k : Stream)
      → mark_of (stream_of t) tracker ≡ m
      → mark_of k (against m t tracker).0
        ≡ (if stream_of t == k then some (advance m t) else mark_of k tracker)
  unfolding against advance
  mark_of-against none t tracker k h = mark_of-remember t tracker k
  mark_of-against (some (session_id, high_water)) t tracker k h =
      ground (
        arith,
        mark_of-remember t tracker k,
        ==_iff (stream_of t) k,
        ==_iff session_id t.session_id,
      )

  -- Observing a record moves the mark of its own stream to `advance`, the maximum within a
  -- session and the record's number in a new one, and leaves the mark of every other stream.
  pub mark_of-observe :
      (t : Tick F) (tracker : DeliveryTracker) (k : Stream)
      → mark_of k (observe t tracker).0 ≡ (
          if stream_of t == k
          then some (advance (mark_of (stream_of t) tracker) t)
          else mark_of k tracker)
  unfolding observe mark_of
  mark_of-observe t tracker k = mark_of-against (get (stream_of t) tracker.seen) t tracker k refl

  pub observe-against :
      (t : Tick F) (tracker : DeliveryTracker) {m : Option Mark}
      → mark_of (stream_of t) tracker ≡ m
      → observe t tracker ≡ against m t tracker
  unfolding observe mark_of
  observe-against t tracker e = ap (λ m. against m t tracker) e
