-- ===== src/Feed/Calibration/Pipeline.antt =====
-- calibration_store.py: the commands of the three round trips, and the reading of their replies.
use tqtk_price_streaming.Prelude.{ℕ, ◌+◌, List, [], ◌∷◌, ◌++◌, map, not, range_from, keep, guard}
use tqtk_price_streaming.Prelude.Text.{Str, lit, str_eq, str_leb}
use tqtk_price_streaming.Prelude.Sorting.{contains, sorted}
use tqtk_price_streaming.Records.Floats.{Floats}
use tqtk_price_streaming.Feed.Decimal.{Decimal}
use tqtk_price_streaming.Feed.Distributions.{family_parameters, Distribution}
use tqtk_price_streaming.Feed.Generator.{Conversion, SymbolCalibration}
use tqtk_price_streaming.Feed.Calibration.{Parsing, extra_param, decode_hash}
use tqtk_price_streaming.Feed.Calibration.Parse.{
  Instrument, Head, instrument_key, prefix_of, parse_instrument, parse_head,
}
use tqtk_price_streaming.Feed.Calibration.Params.{is_empty, param_key, read_param}
use tqtk_price_streaming.Feed.Calibration.Load.{
  symbols_key, quantities_key, symbology_key, quantities, Venue, Heads, check_seeded,
  check_quantities, map_venues, texts_of,
}
use tqtk_price_streaming.Feed.Calibration.Taking.{
  Command, ask_set, ask_hash, ask_text, Taking, ◌>>=◌, ◌>>◌, pure, checked, next_set, next_hash,
  next_value,
}

-- Round trip 1.
abbrev pub discover_commands : List Command
discover_commands = ask_set symbols_key ∷ ask_set quantities_key ∷ ask_hash symbology_key ∷ []

-- Round trip 2.
unfoldable pub head_commands : List Venue → List Command
head_commands [] = []
head_commands (v ∷ venues) =
    ask_hash (instrument_key v.0)
    ∷ ask_text (prefix_of v.0 (lit "return") ++ lit ":family")
    ∷ ask_text (prefix_of v.0 (lit "return") ++ lit ":param_count")
    ∷ ask_text (prefix_of v.0 (lit "spread") ++ lit ":family")
    ∷ ask_text (prefix_of v.0 (lit "spread") ++ lit ":param_count")
    ∷ ask_text (prefix_of v.0 (lit "interval") ++ lit ":family")
    ∷ ask_text (prefix_of v.0 (lit "interval") ++ lit ":param_count")
    ∷ head_commands venues

module _ (ps : Parsing) where
  unfoldable pub take_discovery : Taking (List Venue)
  take_discovery = do
    raw_symbols ← next_set
    raw_quantities ← next_set
    raw_symbology ← next_hash
    symbols ← checked (texts_of ps raw_symbols symbols_key)
    venues ← checked (check_seeded (sorted str_leb symbols))
    given ← checked (texts_of ps raw_quantities quantities_key)
    checked (check_quantities (keep (λ q. not (contains q given)) quantities))
    symbology ← checked (decode_hash ps raw_symbology symbology_key)
    checked (map_venues symbology venues [])

  unfoldable pub take_instrument : Str → Taking Instrument
  take_instrument venue = do raw ← next_hash; checked (parse_instrument ps venue raw)

  unfoldable pub take_head : Str → Str → Taking Head
  take_head venue quantity = do
    raw_family ← next_value
    raw_count ← next_value
    checked (parse_head ps venue quantity raw_family raw_count)

  unfoldable pub take_heads : List Venue → Taking (List (Venue × Heads))
  unfolding take_instrument take_head
  take_heads [] = pure []
  take_heads (v ∷ venues) = do
    instrument ← take_instrument v.0
    for_return ← take_head v.0 (lit "return")
    for_spread ← take_head v.0 (lit "spread")
    for_interval ← take_head v.0 (lit "interval")
    others ← take_heads venues
    pure (
        (
          v,
          record {
            instrument = instrument;
            for_return = for_return;
            for_spread = for_spread;
            for_interval = for_interval;
          },
        )
        ∷ others)

  -- Round trip 3: the parameters of one quantity, and the one past the last.
  unfoldable pub asked_params : Str → ℕ → List Command
  asked_params prefix count =
      map (λ n. ask_hash (prefix ++ (lit ":param:" ++ ps.str_int n))) (range_from 0 (count + 1))

  unfoldable pub param_commands : List (Venue × Heads) → List Command
  unfolding asked_params
  param_commands [] = []
  param_commands ((v, h) ∷ venues) =
      asked_params (prefix_of v.0 (lit "return")) h.for_return.count
      ++ (asked_params (prefix_of v.0 (lit "spread")) h.for_spread.count
          ++ (asked_params (prefix_of v.0 (lit "interval")) h.for_interval.count
              ++ param_commands venues))

module _ (fl : Floats) (conv : Conversion fl) (ps : Parsing) where
  -- `enumerate(names)`, from a position on.
  unfoldable pub take_values : Str → Str → Decimal → ℕ → List Str → Taking (List fl.Float)
  take_values venue prefix pip_size n [] = pure []
  take_values venue prefix pip_size n (name ∷ names) = do
    raw ← next_hash
    first ← checked (read_param fl conv ps venue (param_key fl conv ps prefix n) name pip_size raw)
    others ← take_values venue prefix pip_size (n + 1) names
    pure (first ∷ others)

  unfoldable pub take_distribution : Str → Str → Decimal → Head → Taking (Distribution fl.Float)
  unfolding take_values
  take_distribution venue quantity pip_size head = do
    let prefix = prefix_of venue quantity
    params ← take_values venue prefix pip_size 0 (family_parameters head.known)
    raw ← next_hash
    let key = param_key fl conv ps prefix head.count
    past ← checked (decode_hash ps raw key)
    checked (guard (is_empty past) (extra_param venue key))
    pure (record { family = head.family; params = params })

  unfoldable pub take_calibration : Venue → Heads → Taking (SymbolCalibration fl.Float)
  unfolding take_distribution
  take_calibration v h = do
    let pip_size = h.instrument.pip_size
    returns ← take_distribution v.0 (lit "return") pip_size h.for_return
    spreads ← take_distribution v.0 (lit "spread") pip_size h.for_spread
    intervals ← take_distribution v.0 (lit "interval") pip_size h.for_interval
    pure (record {
      initial_price = h.instrument.initial_price;
      price_increment = pip_size;
      return_distribution = returns;
      spread_distribution = spreads;
      interval_distribution = intervals;
    })

  unfoldable pub take_calibrations :
      List (Venue × Heads) → Taking (List (Str × SymbolCalibration fl.Float))
  unfolding take_calibration
  take_calibrations [] = pure []
  take_calibrations ((v, h) ∷ venues) = do
    calibration ← take_calibration v h
    others ← take_calibrations venues
    pure ((v.1, calibration) ∷ others)
