-- ===== src/Records/Tick/Valid.antt =====
-- records.py: the well-formed ticks.
use tqtk_price_streaming.Prelude.{
  ◌↔◌, subst, sym, ◌≤◌, ◌≡◌, ◌≢◌, true, false, [], Option, none, some, ok, arith,
}
use tqtk_price_streaming.Prelude.Int.{pos}
use tqtk_price_streaming.Records.Floats.{Floats}
use tqtk_price_streaming.Records.Fields.{
  uint64_max, name_field, optional_name, epoch_micros, seq_field, is_price, price, is_size,
  optional_size,
}
use tqtk_price_streaming.Records.Tick.{RawTick, Tick, construct}

module _ (fl : Floats) where
  abbrev pub IsOptionalSize : Option fl.Float → Type 0
  IsOptionalSize none = Unit
  IsOptionalSize (some x) = is_size fl x ≡ true

  pub record IsValid (t : Tick fl.Float) : Type 0 where
    pub provider : t.provider ≢ []
    pub symbol : t.symbol ≢ []
    pub provider_symbol : t.provider_symbol ≢ some []
    pub bid : is_price fl t.bid ≡ true
    pub ask : is_price fl t.ask ≡ true
    pub bid_size : IsOptionalSize t.bid_size
    pub ask_size : IsOptionalSize t.ask_size
    pub session_id : t.session_id ≢ []
    pub seq : t.seq ≤ uint64_max
    pub uncrossed : fl.lt t.ask t.bid ≡ false

-- The arguments that a record's own fields are.
abbrev pub raw_of : {F : Type 0} → Tick F → RawTick F
raw_of t = record {
  provider = t.provider;
  symbol = t.symbol;
  provider_symbol = t.provider_symbol;
  provider_ts = pos t.provider_ts;
  recv_ts = pos t.recv_ts;
  bid = t.bid;
  ask = t.ask;
  bid_size = t.bid_size;
  ask_size = t.ask_size;
  session_id = t.session_id;
  seq = pos t.seq;
}

module _ (fl : Floats) where
  -- A tick that the constructor returns is valid: non-empty names, positive finite prices that
  -- are not crossed, sizes that are not negative, and a `seq` of 64 bits.
  pub tick_construct-IsValid :
      (raw : RawTick fl.Float) {t : Tick fl.Float} → construct fl raw ≡ ok t → IsValid fl t
  unfolding construct name_field optional_name epoch_micros seq_field price optional_size
  tick_construct-IsValid raw h = ground arith

  -- The constructor accepts the fields of a valid tick, and returns that tick.
  pub tick_construct-raw_of : (t : Tick fl.Float) → IsValid fl t → construct fl (raw_of t) ≡ ok t
  unfolding construct name_field optional_name epoch_micros seq_field price optional_size
  tick_construct-raw_of t v = ground arith

  -- Validation changes no field.
  pub construct-fields :
      (raw : RawTick fl.Float) {t : Tick fl.Float} → construct fl raw ≡ ok t → raw ≡ raw_of t
  unfolding construct name_field optional_name epoch_micros seq_field price optional_size
  construct-fields raw h = ground arith

  -- The constructor returns a tick exactly when the fields given are the tick's and the tick is
  -- valid: non-empty names, positive finite prices that are not crossed, sizes that are not
  -- negative, and a `seq` of 64 bits.
  pub tick_construct_iff :
      (raw : RawTick fl.Float) (t : Tick fl.Float)
      → (construct fl raw ≡ ok t) ↔ ((raw ≡ raw_of t) × IsValid fl t)
  tick_construct_iff raw t = (
    λ h. (construct-fields raw h, tick_construct-IsValid raw h),
    λ (same, v). subst (λ r. construct fl r ≡ ok t) (sym same) (tick_construct-raw_of t v),
  )
