-- ===== src/Records/Wire.antt =====
-- `Record.to_dict`, `to_wire`, `from_wire`: the flat string map of a Redis stream entry.
-- `str` of a number and pydantic's lax-mode coercion from text are parameters; what is relied on is
-- that they invert one another, which Python documents for `repr` of a float.
pub mod TickTrip
pub mod BarTrip
use tqtk_price_streaming.Prelude.{
  ℕ, ◌≡◌, String, Bool, true, false, List, [], ◌∷◌, ◌++◌, map, Option, none, some, ok, err, ◌>>=◌,
}
use tqtk_price_streaming.Prelude.Text.{Str, lit, str_eq}
use tqtk_price_streaming.Prelude.Dict.{Dict, get}
use tqtk_price_streaming.Prelude.Int.{ℤ, pos}
use tqtk_price_streaming.Records.Floats.{Floats}
use tqtk_price_streaming.Records.Fields.{Validated, validation_error}
use tqtk_price_streaming.Records.Timeframe.{side_value, value, side_of, timeframe_of}
use tqtk_price_streaming.Records.Tick
use tqtk_price_streaming.Records.Tick.{Tick, RawTick}
use tqtk_price_streaming.Records.Bar
use tqtk_price_streaming.Records.Bar.{Bar, RawBar}

pub record Coercion (fl : Floats) : Type 0 where
  pub str_int : ℤ → Str
  pub str_float : fl.Float → Str
  pub parse_int : Str → Option ℤ
  pub parse_float : Str → Option fl.Float
  pub parse_bool : Str → Option Bool
  pub parse_int-str_int : (n : ℤ) → parse_int (str_int n) ≡ some n
  pub parse_float-str_float :
      (x : fl.Float) → fl.is_finite x ≡ true → parse_float (str_float x) ≡ some x
  pub parse_bool-true : parse_bool (lit "true") ≡ some true
  pub parse_bool-false : parse_bool (lit "false") ≡ some false

-- A value of the typed logical record.
pub data WireValue (F : Type 0) : Type 0 where
  text : Str → WireValue F
  int : ℕ → WireValue F
  float : F → WireValue F
  bool : Bool → WireValue F

-- `exclude_none`: an absent optional field has no entry.
unfoldable pub optional_entry :
    {F A : Type 0} → String → (A → WireValue F) → Option A → Dict Str (WireValue F)
optional_entry key wrap none = []
optional_entry key wrap (some a) = (lit key, wrap a) ∷ []

-- The record in the schema's own field order.
unfoldable pub tick_to_dict : {F : Type 0} → Tick F → Dict Str (WireValue F)
unfolding optional_entry
tick_to_dict t =
    (lit "provider", text t.provider)
    ∷ (lit "symbol", text t.symbol)
    ∷ (optional_entry "provider_symbol" text t.provider_symbol
        ++ ((lit "provider_ts", int t.provider_ts)
            ∷ (lit "recv_ts", int t.recv_ts)
            ∷ (lit "bid", float t.bid)
            ∷ (lit "ask", float t.ask)
            ∷ (optional_entry "bid_size" float t.bid_size
                ++ (optional_entry "ask_size" float t.ask_size
                    ++ ((lit "session_id", text t.session_id) ∷ (lit "seq", int t.seq) ∷ [])))))

unfoldable pub bar_to_dict : {F : Type 0} → Bar F → Dict Str (WireValue F)
bar_to_dict b =
    (lit "provider", text b.provider)
    ∷ (lit "symbol", text b.symbol)
    ∷ (lit "side", text (side_value b.side))
    ∷ (lit "timeframe", text (value b.timeframe))
    ∷ (lit "bar_start_ts", int b.bar_start_ts)
    ∷ (lit "open", float b.open_price)
    ∷ (lit "high", float b.high)
    ∷ (lit "low", float b.low)
    ∷ (lit "close", float b.close)
    ∷ (lit "tick_count", int b.tick_count)
    ∷ (lit "is_closed", bool b.is_closed)
    ∷ (lit "last_update_ts", int b.last_update_ts)
    ∷ []

-- A field that must be there, or may be absent.
unfoldable pub required : Option Str → Validated Str
required none = err validation_error
required (some s) = ok s

-- What a failed coercion does to the construction.
unfoldable pub coerced : {A : Type 0} → Option A → Validated A
coerced none = err validation_error
coerced (some a) = ok a

unfoldable pub coerced_optional :
    {A : Type 0} → (Str → Option A) → Option Str → Validated (Option A)
unfolding coerced
coerced_optional parse none = ok none
coerced_optional parse (some s) = do a ← coerced (parse s); ok (some a)

module _ (fl : Floats) (co : Coercion fl) where
  unfoldable pub to_wire_value : WireValue fl.Float → Str
  to_wire_value (text s) = s
  to_wire_value (int n) = co.str_int (pos n)
  to_wire_value (float x) = co.str_float x
  to_wire_value (bool true) = lit "true"
  to_wire_value (bool false) = lit "false"

  unfoldable pub to_wire : Dict Str (WireValue fl.Float) → Dict Str Str
  unfolding to_wire_value
  to_wire = map (λ e. (e.0, to_wire_value e.1))

  unfoldable pub int_field : String → Dict Str Str → Validated ℤ
  unfolding required coerced get
  int_field key raw = do s ← required (get (lit key) raw); coerced (co.parse_int s)

  unfoldable pub float_field : String → Dict Str Str → Validated fl.Float
  unfolding required coerced get
  float_field key raw = do s ← required (get (lit key) raw); coerced (co.parse_float s)

  unfoldable pub coerce_tick : Dict Str Str → Validated (RawTick fl.Float)
  unfolding required coerced_optional int_field float_field get
  coerce_tick raw = do
    provider ← required (get (lit "provider") raw)
    symbol ← required (get (lit "symbol") raw)
    provider_ts ← int_field "provider_ts" raw
    recv_ts ← int_field "recv_ts" raw
    bid ← float_field "bid" raw
    ask ← float_field "ask" raw
    bid_size ← coerced_optional co.parse_float (get (lit "bid_size") raw)
    ask_size ← coerced_optional co.parse_float (get (lit "ask_size") raw)
    session_id ← required (get (lit "session_id") raw)
    seq ← int_field "seq" raw
    ok (record {
      provider = provider;
      symbol = symbol;
      provider_symbol = get (lit "provider_symbol") raw;
      provider_ts = provider_ts;
      recv_ts = recv_ts;
      bid = bid;
      ask = ask;
      bid_size = bid_size;
      ask_size = ask_size;
      session_id = session_id;
      seq = seq;
    })

  unfoldable pub coerce_bar : Dict Str Str → Validated (RawBar fl.Float)
  unfolding required coerced int_field float_field get
  coerce_bar raw = do
    provider ← required (get (lit "provider") raw)
    symbol ← required (get (lit "symbol") raw)
    side_text ← required (get (lit "side") raw)
    side ← coerced (side_of side_text)
    timeframe_text ← required (get (lit "timeframe") raw)
    timeframe ← coerced (timeframe_of timeframe_text)
    bar_start_ts ← int_field "bar_start_ts" raw
    open_price ← float_field "open" raw
    high ← float_field "high" raw
    low ← float_field "low" raw
    close ← float_field "close" raw
    tick_count ← int_field "tick_count" raw
    closed_text ← required (get (lit "is_closed") raw)
    is_closed ← coerced (co.parse_bool closed_text)
    last_update_ts ← int_field "last_update_ts" raw
    ok (record {
      provider = provider;
      symbol = symbol;
      side = side;
      timeframe = timeframe;
      bar_start_ts = bar_start_ts;
      open_price = open_price;
      high = high;
      low = low;
      close = close;
      tick_count = tick_count;
      is_closed = is_closed;
      last_update_ts = last_update_ts;
    })

  -- `Tick.from_wire(raw)` and `Bar.from_wire(raw)`
  unfoldable pub tick_from_wire : Dict Str Str → Validated (Tick fl.Float)
  tick_from_wire raw = do fields ← coerce_tick raw; Tick.construct fl fields

  unfoldable pub bar_from_wire : Dict Str Str → Validated (Bar fl.Float)
  bar_from_wire raw = do fields ← coerce_bar raw; Bar.construct fl fields
