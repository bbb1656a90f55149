-- ===== src/Records/Tick.antt =====
-- `Tick`: one raw quote from one provider for one symbol.
pub mod Valid
use tqtk_price_streaming.Prelude.{
  ℕ, ◌≤◌, ◌≡◌, ◌≢◌, refl, Bool, true, false, List, [], ◌∷◌, Option, none, some, Result, ok, err,
  ◌>>=◌, arith, if◌then◌else◌,
}
use tqtk_price_streaming.Prelude.Text.{Str}
use tqtk_price_streaming.Prelude.Int.{ℤ, pos, negsuc}
use tqtk_price_streaming.Records.Floats.{Floats}
use tqtk_price_streaming.Records.Timeframe.{Side}
use tqtk_price_streaming.Records.Fields.{
  Validated, validation_error, uint64_max, name_field, optional_name, epoch_micros, seq_field,
  is_price, price, is_size, optional_size,
}

-- The keyword arguments of `Tick(...)`, with the optional ones filled in.
pub record RawTick (F : Type 0) : Type 0 where
  pub provider : Str
  pub symbol : Str
  pub provider_symbol : Option Str
  pub provider_ts : ℤ
  pub recv_ts : ℤ
  pub bid : F
  pub ask : F
  pub bid_size : Option F
  pub ask_size : Option F
  pub session_id : Str
  pub seq : ℤ

pub record Tick (F : Type 0) : Type 0 where
  pub provider : Str
  pub symbol : Str
  pub provider_symbol : Option Str
  pub provider_ts : ℕ
  pub recv_ts : ℕ
  pub bid : F
  pub ask : F
  pub bid_size : Option F
  pub ask_size : Option F
  pub session_id : Str
  pub seq : ℕ

module _ (fl : Floats) where
  unfoldable pub check_quote : Tick fl.Float → Validated (Tick fl.Float)
  check_quote t = if fl.lt t.ask t.bid then err validation_error else ok t

  unfoldable pub construct : RawTick fl.Float → Validated (Tick fl.Float)
  unfolding check_quote
  construct raw = do
    provider ← name_field raw.provider
    symbol ← name_field raw.symbol
    provider_symbol ← optional_name raw.provider_symbol
    provider_ts ← epoch_micros raw.provider_ts
    recv_ts ← epoch_micros raw.recv_ts
    bid ← price fl raw.bid
    ask ← price fl raw.ask
    bid_size ← optional_size fl raw.bid_size
    ask_size ← optional_size fl raw.ask_size
    session_id ← name_field raw.session_id
    seq ← seq_field raw.seq
    check_quote (record {
      provider = provider;
      symbol = symbol;
      provider_symbol = provider_symbol;
      provider_ts = provider_ts;
      recv_ts = recv_ts;
      bid = bid;
      ask = ask;
      bid_size = bid_size;
      ask_size = ask_size;
      session_id = session_id;
      seq = seq;
    })

  unfoldable pub spread : Tick fl.Float → fl.Float
  spread t = fl.sub t.ask t.bid

  -- The price that a bar of a side folds in.
  unfoldable pub price_of : Side → Tick fl.Float → fl.Float
  price_of Side.bid t = t.bid
  price_of Side.ask t = t.ask
