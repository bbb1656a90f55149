-- ===== src/Tests/Records.antt =====
-- records.py: a tick and a bar, over floats that are natural numbers.
use tqtk_price_streaming.Records.Floats.{min, max}
use tqtk_price_streaming.Prelude.{◌↔◌, ℕ, ◌%◌, ◌≡◌, refl, true, none, some, ok, err}
use tqtk_price_streaming.Prelude.Text.{lit}
use tqtk_price_streaming.Fixtures.{floats, coercion}
use tqtk_price_streaming.Records.Fields.{
  name_field, optional_name, epoch_micros, seq_field, is_price, price, is_size, optional_size,
  validation_error,
}
use tqtk_price_streaming.Records.Timeframe.{Side, m5, d1, micros}
use tqtk_price_streaming.Records.Tick
use tqtk_price_streaming.Records.Tick.{Tick, RawTick, check_quote}
use tqtk_price_streaming.Records.Tick.Valid as TickValid
use tqtk_price_streaming.Records.Tick.Valid.{tick_construct-IsValid, tick_construct_iff}
use tqtk_price_streaming.Records.Bar
use tqtk_price_streaming.Records.Bar.{Bar, check_window}
use tqtk_price_streaming.Records.Bar.Valid as BarValid
use tqtk_price_streaming.Records.Bar.Valid.{bar_construct-IsValid, bar_construct_iff}
use tqtk_price_streaming.Records.Wire.{
  tick_to_dict, bar_to_dict, to_wire, tick_from_wire, bar_from_wire,
}
use tqtk_price_streaming.Records.Wire.TickTrip.{tick_from_wire-to_wire}
use tqtk_price_streaming.Records.Wire.BarTrip.{bar_from_wire-to_wire}

abbrev tick : Tick ℕ
tick = record {
  provider = lit "synthetic";
  symbol = lit "EURUSD";
  provider_symbol = some (lit "EUR/USD");
  provider_ts = 10;
  recv_ts = 12;
  bid = 109;
  ask = 110;
  bid_size = some 5;
  ask_size = none;
  session_id = lit "a1";
  seq = 7;
}

abbrev bar : Bar ℕ
bar = record {
  provider = lit "synthetic";
  symbol = lit "EURUSD";
  side = Side.bid;
  timeframe = m5;
  bar_start_ts = 600000000;
  open_price = 109;
  high = 112;
  low = 108;
  close = 110;
  tick_count = 0;
  is_closed = true;
  last_update_ts = 600000000;
}

accepted : Tick.construct floats (TickValid.raw_of tick) ≡ ok tick
unfolding Tick.construct name_field optional_name epoch_micros seq_field price optional_size
    is_price is_size
accepted = refl

crossed :
    Tick.construct floats (record (TickValid.raw_of tick) { bid = 111 }) ≡ err validation_error
unfolding Tick.construct name_field optional_name epoch_micros seq_field price optional_size
    is_price is_size
crossed = refl

tick-IsValid : TickValid.IsValid floats tick
tick-IsValid = tick_construct-IsValid floats (TickValid.raw_of tick) accepted

tick_from_wire-to_wire_example :
    tick_from_wire floats coercion (to_wire floats coercion (tick_to_dict tick)) ≡ ok tick
tick_from_wire-to_wire_example = tick_from_wire-to_wire floats coercion tick tick-IsValid

bar_accepted : Bar.construct floats (BarValid.raw_of bar) ≡ ok bar
unfolding Bar.construct name_field epoch_micros price is_price check_window micros max min
bar_accepted = refl

bar-IsValid : BarValid.IsValid floats bar
bar-IsValid = bar_construct-IsValid floats (BarValid.raw_of bar) bar_accepted

bar_from_wire-to_wire_example :
    bar_from_wire floats coercion (to_wire floats coercion (bar_to_dict bar)) ≡ ok bar
bar_from_wire-to_wire_example = bar_from_wire-to_wire floats coercion bar bar-IsValid

on_day : 172800000000 % micros d1 ≡ 0
unfolding micros
on_day = refl

tick_construct_iff_example :
    (Tick.construct floats (TickValid.raw_of tick) ≡ ok tick)
    ↔ ((TickValid.raw_of tick ≡ TickValid.raw_of tick) × TickValid.IsValid floats tick)
tick_construct_iff_example = tick_construct_iff floats (TickValid.raw_of tick) tick

bar_construct_iff_example :
    (Bar.construct floats (BarValid.raw_of bar) ≡ ok bar)
    ↔ ((BarValid.raw_of bar ≡ BarValid.raw_of bar) × BarValid.IsValid floats bar)
bar_construct_iff_example = bar_construct_iff floats (BarValid.raw_of bar) bar
