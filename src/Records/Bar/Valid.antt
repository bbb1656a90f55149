-- ===== src/Records/Bar/Valid.antt =====
-- records.py: the well-formed bars.
use tqtk_price_streaming.Prelude.{◌↔◌, subst, sym, ◌≤◌, ◌%◌, ◌≡◌, ◌≢◌, true, false, [], ok, arith}
use tqtk_price_streaming.Prelude.Int.{pos}
use tqtk_price_streaming.Records.Floats.{Floats, lt-max, lt-min}
use tqtk_price_streaming.Records.Timeframe.{micros}
use tqtk_price_streaming.Records.Fields.{name_field, epoch_micros, is_price, price}
use tqtk_price_streaming.Records.Bar.{RawBar, Bar, construct, check_window}

module _ (fl : Floats) where
  -- The range of the window holds both its ends, and the window starts on a boundary of its width.
  pub record IsValid (b : Bar fl.Float) : Type 0 where
    pub provider : b.provider ≢ []
    pub symbol : b.symbol ≢ []
    pub open_price : is_price fl b.open_price ≡ true
    pub high : is_price fl b.high ≡ true
    pub low : is_price fl b.low ≡ true
    pub close : is_price fl b.close ≡ true
    pub low-le-high : fl.lt b.high b.low ≡ false
    pub open-le-high : fl.lt b.high b.open_price ≡ false
    pub close-le-high : fl.lt b.high b.close ≡ false
    pub low-le-open : fl.lt b.open_price b.low ≡ false
    pub low-le-close : fl.lt b.close b.low ≡ false
    pub aligned : b.bar_start_ts % micros b.timeframe ≡ 0
    pub not_before_start : b.bar_start_ts ≤ b.last_update_ts

abbrev pub raw_of : {F : Type 0} → Bar F → RawBar F
raw_of b = record {
  provider = b.provider;
  symbol = b.symbol;
  side = b.side;
  timeframe = b.timeframe;
  bar_start_ts = pos b.bar_start_ts;
  open_price = b.open_price;
  high = b.high;
  low = b.low;
  close = b.close;
  tick_count = pos b.tick_count;
  is_closed = b.is_closed;
  last_update_ts = pos b.last_update_ts;
}

module _ (fl : Floats) where
  -- A bar that the constructor returns is valid: its range holds the open and the close, it
  -- starts on a boundary of its timeframe, and it was not updated before its start.
  pub bar_construct-IsValid :
      (raw : RawBar fl.Float) {b : Bar fl.Float} → construct fl raw ≡ ok b → IsValid fl b
  unfolding construct name_field epoch_micros price check_window is_price
  bar_construct-IsValid raw e = ground (
    arith,
    lt-max fl raw.high raw.open_price raw.close,
    lt-min fl raw.open_price raw.close raw.low,
  )

  -- The constructor accepts the fields of a valid bar, and returns that bar.
  pub bar_construct-raw_of : (b : Bar fl.Float) → IsValid fl b → construct fl (raw_of b) ≡ ok b
  unfolding construct name_field epoch_micros price check_window is_price
  bar_construct-raw_of b v =
      ground (arith, lt-max fl b.high b.open_price b.close, lt-min fl b.open_price b.close b.low)

  -- Validation changes no field.
  bar_construct-fields :
      (raw : RawBar fl.Float) {b : Bar fl.Float} → construct fl raw ≡ ok b → raw ≡ raw_of b
  unfolding construct name_field epoch_micros price check_window
  bar_construct-fields raw h = ground arith

  -- The constructor returns a bar exactly when the fields given are the bar's and the bar is
  -- valid: its range holds the open and the close, it starts on a boundary of its timeframe,
  -- and each field meets its own constraints.
  pub bar_construct_iff :
      (raw : RawBar fl.Float) (b : Bar fl.Float)
      → (construct fl raw ≡ ok b) ↔ ((raw ≡ raw_of b) × IsValid fl b)
  bar_construct_iff raw b = (
    λ h. (bar_construct-fields raw h, bar_construct-IsValid raw h),
    λ (same, v). subst (λ r. construct fl r ≡ ok b) (sym same) (bar_construct-raw_of b v),
  )
