-- ===== src/Records/Wire/BarTrip.antt =====
-- records.py: a bar through `to_dict`, `to_wire` and `from_wire`.
use tqtk_price_streaming.Prelude.{◌≡◌, ok, arith, list_beq}
use tqtk_price_streaming.Prelude.Int.{pos}
use tqtk_price_streaming.Records.Floats.{Floats}
use tqtk_price_streaming.Records.Fields.{is_price}
use tqtk_price_streaming.Records.Timeframe.{side_of-side_value, timeframe_of-value}
use tqtk_price_streaming.Records.Bar.{Bar}
use tqtk_price_streaming.Records.Bar.Valid.{IsValid, raw_of, bar_construct-raw_of}
use tqtk_price_streaming.Records.Wire.{Coercion, bar_to_dict, to_wire, coerce_bar, bar_from_wire}

module _ (fl : Floats) (co : Coercion fl) where
  coerce-to_wire :
      (b : Bar fl.Float)
      → IsValid fl b
      → coerce_bar fl co (to_wire fl co (bar_to_dict b)) ≡ ok (raw_of b)
  unfolding coerce_bar to_wire bar_to_dict list_beq is_price
  coerce-to_wire b v = ground (
    arith,
    side_of-side_value b.side,
    timeframe_of-value b.timeframe,
    co.parse_int-str_int (pos b.bar_start_ts),
    co.parse_int-str_int (pos b.tick_count),
    co.parse_int-str_int (pos b.last_update_ts),
    co.parse_float-str_float b.open_price,
    co.parse_float-str_float b.high,
    co.parse_float-str_float b.low,
    co.parse_float-str_float b.close,
    co.parse_bool-true,
    co.parse_bool-false,
  )

  -- A valid bar's wire map is read back as that bar, if reading a number's or a Boolean's text
  -- gives it back.
  pub bar_from_wire-to_wire :
      (b : Bar fl.Float) → IsValid fl b → bar_from_wire fl co (to_wire fl co (bar_to_dict b)) ≡ ok b
  unfolding bar_from_wire
  bar_from_wire-to_wire b v = rw (coerce-to_wire b v) (bar_construct-raw_of fl b v)
