-- ===== src/Feed/Calibration/Params.antt =====
-- calibration_store.py: `_read_params`. A quantity's parameters are read at the positions of its
-- family's entry of FAMILY_PARAMETERS, and the one past the last must be absent.
use tqtk_price_streaming.Prelude.{
  ℕ, ◌+◌, Bool, true, false, not, ◌||◌, List, [], ◌∷◌, ◌++◌, ◌==◌, ok, ◌>>=◌, ◌>>◌, guard,
}
use tqtk_price_streaming.Prelude.Text.{Str, lit, str_eq}
use tqtk_price_streaming.Prelude.Dict.{Dict}
use tqtk_price_streaming.Prelude.Sorting.{contains}
use tqtk_price_streaming.Records.Floats.{Floats}
use tqtk_price_streaming.Feed.Decimal.{Decimal}
use tqtk_price_streaming.Feed.Distributions.{family_parameters, is_unbounded, Distribution}
use tqtk_price_streaming.Feed.Generator.{Conversion}
use tqtk_price_streaming.Feed.Calibration.{
  Raw, Parsing, Replies, Checked, no_param, misnamed, unknown_unit, out_of_range, not_positive,
  extra_param, decode_hash, decimal_of, field_of,
}
use tqtk_price_streaming.Feed.Calibration.Parse.{Head, prefix_of, to_code_units}

-- _UNITS
abbrev pub units : List Str
units = lit "quote" ∷ lit "pip" ∷ lit "ms" ∷ lit "dimensionless" ∷ []

unfoldable pub is_empty : Dict Str Str → Bool
is_empty [] = true
is_empty (_ ∷ _) = false

module _ (fl : Floats) (conv : Conversion fl) (ps : Parsing) where
  -- `calib:{venue}:{quantity}:param:{n}`
  abbrev pub param_key : Str → ℕ → Str
  param_key prefix n = prefix ++ (lit ":param:" ++ ps.str_int n)

  -- The body of the loop over one family's parameters.
  unfoldable pub read_param : Str → Str → Str → Decimal → Dict Raw Raw → Checked fl.Float
  read_param venue key expected_name pip_size raw = do
    param ← decode_hash ps raw key
    guard (not (is_empty param)) (no_param venue key)
    name ← field_of param venue key (lit "name")
    digits ← field_of param venue key (lit "value")
    unit ← field_of param venue key (lit "unit")
    guard (name == expected_name) (misnamed venue key name)
    guard (contains unit units) (unknown_unit venue key unit)
    stored ← decimal_of ps digits key (lit "value")
    let value = to_code_units fl conv stored unit pip_size
    guard (fl.is_finite value) (out_of_range venue key)
    guard (is_unbounded expected_name || not (fl.le value fl.zero)) (not_positive venue key)
    ok value

  -- `enumerate(names)`, from a position on.
  unfoldable pub read_values :
      Replies → Str → Str → Decimal → ℕ → List Str → Checked (List fl.Float)
  read_values replies venue prefix pip_size n [] = ok []
  read_values replies venue prefix pip_size n (name ∷ names) = do
    let key = param_key prefix n
    value ← read_param venue key name pip_size (replies.hgetall key)
    values ← read_values replies venue prefix pip_size (n + 1) names
    ok (value ∷ values)

  -- One quantity of one venue, as the distribution that `load` makes of it.
  unfoldable pub read_distribution :
      Replies → Str → Str → Decimal → Head → Checked (Distribution fl.Float)
  read_distribution replies venue quantity pip_size head = do
    let prefix = prefix_of venue quantity
    values ← read_values replies venue prefix pip_size 0 (family_parameters head.known)
    let key = param_key prefix head.count
    past ← decode_hash ps (replies.hgetall key) key
    guard (is_empty past) (extra_param venue key)
    ok (record { family = head.family; params = values })
