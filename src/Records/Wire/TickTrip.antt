-- ===== src/Records/Wire/TickTrip.antt =====
-- records.py: a tick through `to_dict`, `to_wire` and `from_wire`.
use tqtk_price_streaming.Prelude.{◌≡◌, none, some, ok, arith, Option, list_beq}
use tqtk_price_streaming.Prelude.Int.{pos}
use tqtk_price_streaming.Records.Floats.{Floats}
use tqtk_price_streaming.Records.Fields.{is_price, is_size}
use tqtk_price_streaming.Records.Tick.{Tick}
use tqtk_price_streaming.Records.Tick.Valid.{IsValid, IsOptionalSize, raw_of, tick_construct-raw_of}
use tqtk_price_streaming.Records.Wire.{Coercion, tick_to_dict, to_wire, coerce_tick, tick_from_wire}

module _ (fl : Floats) (co : Coercion fl) where
  -- What printing and reading an optional size comes to.
  SizeTrips : Option fl.Float → Type 0
  SizeTrips none = Unit
  SizeTrips (some x) = co.parse_float (co.str_float x) ≡ some x

  size_trips : (o : Option fl.Float) → IsOptionalSize fl o → SizeTrips o
  unfolding SizeTrips is_size
  size_trips none v = tt
  size_trips (some x) v = co.parse_float-str_float x (ground arith)

  coerce-to_wire :
      (t : Tick fl.Float)
      → IsValid fl t
      → coerce_tick fl co (to_wire fl co (tick_to_dict t)) ≡ ok (raw_of t)
  unfolding coerce_tick to_wire tick_to_dict list_beq is_price SizeTrips
  coerce-to_wire t v = ground (
    arith,
    co.parse_int-str_int (pos t.provider_ts),
    co.parse_int-str_int (pos t.recv_ts),
    co.parse_int-str_int (pos t.seq),
    co.parse_float-str_float t.bid,
    co.parse_float-str_float t.ask,
    size_trips t.bid_size v.bid_size,
    size_trips t.ask_size v.ask_size,
  )

  -- A valid tick's wire map is read back as that tick, if reading a number's text gives the
  -- number back.
  pub tick_from_wire-to_wire :
      (t : Tick fl.Float)
      → IsValid fl t
      → tick_from_wire fl co (to_wire fl co (tick_to_dict t)) ≡ ok t
  unfolding tick_from_wire
  tick_from_wire-to_wire t v = rw (coerce-to_wire t v) (tick_construct-raw_of fl t v)
