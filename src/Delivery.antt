-- ===== src/Delivery.antt =====
-- libs/tqtk-common/src/tqtk_common/delivery.py: `DeliveryTracker`, a consumer's high-water mark for
-- each (provider, symbol), and its verdict on each record.
pub mod Marks
pub mod Verdicts
pub mod Loss
pub mod Redelivery
pub mod EndToEnd
use tqtk_price_streaming.Prelude.{
  ℕ, ◌+◌, ◌-◌, Bool, true, false, not, Option, none, some, List, [], ◌∷◌, ltb, leb, ◌==◌, pair_eq,
  if◌then◌else◌,
}
use tqtk_price_streaming.Prelude.Text.{Str, str_eq}
use tqtk_price_streaming.Prelude.Dict.{Dict, get, put}
use tqtk_price_streaming.Session.{Stream}
use tqtk_price_streaming.Records.Tick.{Tick}

pub data Delivery : Type 0 where
  first in_order gap duplicate session_change : Delivery

pub record Observation : Type 0 where
  pub delivery : Delivery
  pub missing : ℕ

unfoldable pub is_duplicate : Observation → Bool
is_duplicate o = elim o.delivery [ duplicate ↦ true | _ ↦ false ]

unfoldable pub is_loss : Observation → Bool
is_loss o = elim o.delivery [ gap ↦ true | _ ↦ false ]

-- A session and the highest `seq` seen in it.
abbrev pub Mark : Type 0
Mark = Str × ℕ

pub record DeliveryTracker : Type 0 where
  pub seen : Dict Stream Mark

-- DeliveryTracker()
abbrev pub fresh : DeliveryTracker
fresh = record { seen = [] }

module _ {F : Type 0} where
  abbrev pub stream_of : Tick F → Stream
  stream_of t = (t.provider, t.symbol)

  -- `self._seen[key] = (tick.session_id, tick.seq)`
  unfoldable pub remember : Tick F → DeliveryTracker → DeliveryTracker
  remember t tracker = record { seen = put (stream_of t) (t.session_id, t.seq) tracker.seen }

  -- The body of `observe` after `previous` is read.
  unfoldable pub against : Option Mark → Tick F → DeliveryTracker → DeliveryTracker × Observation
  unfolding remember
  against none t tracker = (remember t tracker, record { delivery = first; missing = 0 })
  against (some (session_id, high_water)) t tracker =
      if not (session_id == t.session_id)
      then (remember t tracker, record { delivery = session_change; missing = 0 })
      else if leb t.seq high_water
      then (tracker, record { delivery = duplicate; missing = 0 })
      else let missing = t.seq - high_water - 1 in
        if ltb 0 missing
        then (remember t tracker, record { delivery = gap; missing = missing })
        else (remember t tracker, record { delivery = in_order; missing = 0 })

  unfoldable pub observe : Tick F → DeliveryTracker → DeliveryTracker × Observation
  unfolding against
  observe t tracker = against (get (stream_of t) tracker.seen) t tracker

  -- One consumer reads records in the order of the stream entries.
  unfoldable pub observe_all : List (Tick F) → DeliveryTracker → DeliveryTracker × List Observation
  observe_all [] tracker = (tracker, [])
  observe_all (t ∷ ts) tracker =
      let (after, o) = observe t tracker in let (last, os) = observe_all ts after in (last, o ∷ os)
