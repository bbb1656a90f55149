-- ===== src/Feed/Calibration/Parse.antt =====
-- calibration_store.py: `_is_power_of_ten`, `_to_code_units`, `_parse_instrument` and `_parse_head`.
use tqtk_price_streaming.Prelude.{
  ℕ, Bool, false, ◌&&◌, Option, ◌∷◌, ◌++◌, length, ◌==◌, nat_beq, ok, ◌>>=◌, ◌>>◌, guard,
  if◌then◌else◌,
}
use tqtk_price_streaming.Prelude.Text.{Str, lit, str_eq}
use tqtk_price_streaming.Prelude.Int.{ℤ, pos, negsuc}
use tqtk_price_streaming.Prelude.Dict.{Dict}
use tqtk_price_streaming.Records.Floats.{Floats}
use tqtk_price_streaming.Feed.Decimal
use tqtk_price_streaming.Feed.Decimal.{Decimal, magnitude, zero_decimal}
use tqtk_price_streaming.Feed.Distributions.{Family, family_of, family_parameters}
use tqtk_price_streaming.Feed.Generator.{Conversion}
use tqtk_price_streaming.Feed.Calibration.{
  Raw, Parsing, Checked, bad_pip_size, bad_initial_price, no_family, no_count, unknown_family,
  bad_count, wrong_count, required, text_of, decode_hash, decimal_of, field_of,
}

-- `digits == (1,)`: leading zeros are not digits of a coefficient.
unfoldable pub is_power_of_ten : Decimal → Bool
is_power_of_ten value = Decimal.lt zero_decimal value && nat_beq (magnitude value.coefficient) 1

unfoldable pub to_code_units : (fl : Floats) → Conversion fl → Decimal → Str → Decimal → fl.Float
to_code_units fl conv value unit pip_size =
    if unit == lit "pip"
    then conv.float_of (Decimal.mul value pip_size)
    else if unit == lit "ms"
    then conv.float_of (Decimal.scaleb value (negsuc 2))
    else conv.float_of value

-- pip_size and initial_price
pub record Instrument : Type 0 where
  pub pip_size : Decimal
  pub initial_price : Decimal

-- A quantity's family, with its entry of FAMILY_PARAMETERS, and the count of its parameters.
pub record Head : Type 0 where
  pub family : Str
  pub known : Family
  pub count : ℕ

unfoldable pub is_count : ℤ → ℕ → Bool
is_count (pos n) expected = nat_beq n expected
is_count (negsuc n) expected = false

abbrev pub instrument_key : Str → Str
instrument_key venue = lit "instrument:" ++ venue

-- `calib:{venue}:{quantity}`
abbrev pub prefix_of : Str → Str → Str
prefix_of venue quantity = lit "calib:" ++ (venue ++ (b':' ∷ quantity))

module _ (ps : Parsing) where
  unfoldable pub parse_instrument : Str → Dict Raw Raw → Checked Instrument
  parse_instrument venue raw = do
    let key = instrument_key venue
    instrument ← decode_hash ps raw key
    pip_text ← field_of instrument venue key (lit "pip_size")
    _ ← field_of instrument venue key (lit "quote_currency")
    price_text ← field_of instrument venue key (lit "initial_price")
    pip_size ← decimal_of ps pip_text key (lit "pip_size")
    guard (is_power_of_ten pip_size) (bad_pip_size venue)
    initial_price ← decimal_of ps price_text key (lit "initial_price")
    guard (Decimal.lt zero_decimal initial_price) (bad_initial_price venue)
    ok (record { pip_size = pip_size; initial_price = initial_price })

  unfoldable pub parse_head : Str → Str → Option Raw → Option Raw → Checked Head
  parse_head venue quantity raw_family raw_count = do
    let prefix = prefix_of venue quantity
    given ← required raw_family (no_family venue quantity)
    family ← text_of ps given (prefix ++ lit ":family")
    known ← required (family_of family) (unknown_family venue quantity family)
    counted ← required raw_count (no_count venue quantity)
    digits ← text_of ps counted (prefix ++ lit ":param_count")
    count ← required (ps.int digits) (bad_count venue quantity)
    guard (is_count count (length (family_parameters known))) (wrong_count venue quantity)
    ok (record { family = family; known = known; count = length (family_parameters known) })
