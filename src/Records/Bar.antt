-- ===== src/Records/Bar.antt =====
-- `Bar`: one side's OHLCV state for one window.
pub mod Valid
use tqtk_price_streaming.Prelude.{
  ℕ, ◌%◌, ◌≡◌, refl, Bool, true, false, not, Result, ok, err, ◌>>=◌, ◌>>◌, guard, ltb, nat_beq,
  arith,
}
use tqtk_price_streaming.Prelude.Text.{Str}
use tqtk_price_streaming.Prelude.Int.{ℤ}
use tqtk_price_streaming.Records.Floats.{Floats, max, min}
use tqtk_price_streaming.Records.Timeframe.{Side, Timeframe, micros}
use tqtk_price_streaming.Records.Fields.{
  Validated, validation_error, name_field, epoch_micros, price,
}

-- The keyword arguments of `Bar(...)`.
pub record RawBar (F : Type 0) : Type 0 where
  pub provider : Str
  pub symbol : Str
  pub side : Side
  pub timeframe : Timeframe
  pub bar_start_ts : ℤ
  pub open_price : F
  pub high : F
  pub low : F
  pub close : F
  pub tick_count : ℤ
  pub is_closed : Bool
  pub last_update_ts : ℤ

pub record Bar (F : Type 0) : Type 0 where
  pub provider : Str
  pub symbol : Str
  pub side : Side
  pub timeframe : Timeframe
  pub bar_start_ts : ℕ
  pub open_price : F
  pub high : F
  pub low : F
  pub close : F
  pub tick_count : ℕ
  pub is_closed : Bool
  pub last_update_ts : ℕ

module _ (fl : Floats) where
  unfoldable pub check_window : Bar fl.Float → Validated (Bar fl.Float)
  check_window b = do
    guard (not (fl.lt b.high b.low)) validation_error
    guard (not (fl.lt b.high (max fl b.open_price b.close))) validation_error
    guard (not (fl.lt (min fl b.open_price b.close) b.low)) validation_error
    guard (nat_beq (b.bar_start_ts % micros b.timeframe) 0) validation_error
    guard (not (ltb b.last_update_ts b.bar_start_ts)) validation_error
    ok b

  unfoldable pub construct : RawBar fl.Float → Validated (Bar fl.Float)
  construct raw = do
    provider ← name_field raw.provider
    symbol ← name_field raw.symbol
    bar_start_ts ← epoch_micros raw.bar_start_ts
    open_price ← price fl raw.open_price
    high ← price fl raw.high
    low ← price fl raw.low
    close ← price fl raw.close
    tick_count ← epoch_micros raw.tick_count
    last_update_ts ← epoch_micros raw.last_update_ts
    check_window (record {
      provider = provider;
      symbol = symbol;
      side = raw.side;
      timeframe = raw.timeframe;
      bar_start_ts = bar_start_ts;
      open_price = open_price;
      high = high;
      low = low;
      close = close;
      tick_count = tick_count;
      is_closed = raw.is_closed;
      last_update_ts = last_update_ts;
    })

  -- What persistence upserts on.
  unfoldable pub identity : Bar fl.Float → Str × Str × Side × Timeframe × ℕ
  identity b = (b.provider, b.symbol, b.side, b.timeframe, b.bar_start_ts)

  -- What a consumer pairs the two sides on.
  unfoldable pub window_key : Bar fl.Float → Str × Str × Timeframe × ℕ
  window_key b = (b.provider, b.symbol, b.timeframe, b.bar_start_ts)

  unfoldable pub is_idle : Bar fl.Float → Bool
  is_idle b = nat_beq b.tick_count 0
