-- ===== src/Feed/Calibration/Load.antt =====
-- calibration_store.py: `CalibrationStore.load`, `_discover` and `_read_heads`. What the code keeps in
-- dictionaries by venue, and by venue and quantity, is one entry for each venue here, in the order of
-- the venues, which `_discover` has checked to be distinct.
use tqtk_price_streaming.Prelude.{
  Bool, not, Option, none, some, List, [], ◌∷◌, ◌++◌, keep, ok, err, ◌>>=◌, ◌>>◌,
}
use tqtk_price_streaming.Prelude.Text.{Str, lit, str_eq, str_leb}
use tqtk_price_streaming.Prelude.Dict.{Dict, get, put}
use tqtk_price_streaming.Prelude.Sorting.{contains, sorted}
use tqtk_price_streaming.Records.Floats.{Floats}
use tqtk_price_streaming.Feed.Generator.{Conversion, SymbolCalibration}
use tqtk_price_streaming.Feed.Calibration.{
  Raw, Parsing, Replies, Checked, not_seeded, lacks_quantities, no_symbology, symbology_clash,
  text_of, decode_hash, nonempty,
}
use tqtk_price_streaming.Feed.Calibration.Parse.{
  Instrument, Head, instrument_key, prefix_of, parse_instrument, parse_head,
}
use tqtk_price_streaming.Feed.Calibration.Params.{read_distribution}

abbrev pub symbols_key : Str
symbols_key = lit "calib:symbols"

abbrev pub quantities_key : Str
quantities_key = lit "calib:quantities"

abbrev pub symbology_key : Str
symbology_key = lit "symbology"

-- QUANTITIES
abbrev pub quantities : List Str
quantities = lit "return" ∷ lit "spread" ∷ lit "interval" ∷ []

-- A venue symbol and the file symbol that `symbology` maps it to.
abbrev pub Venue : Type 0
Venue = Str × Str

-- What is read of one venue before its parameters.
pub record Heads : Type 0 where
  pub instrument : Instrument
  pub for_return : Head
  pub for_spread : Head
  pub for_interval : Head

unfoldable pub check_seeded : List Str → Checked (List Str)
check_seeded [] = err not_seeded
check_seeded (v ∷ venues) = ok (v ∷ venues)

unfoldable pub check_quantities : List Str → Checked (Unit {0})
check_quantities [] = ok tt
check_quantities (q ∷ missing) = err (lacks_quantities (q ∷ missing))

-- `if file_symbol in seen: raise`, else `seen[file_symbol] = venue`
unfoldable pub remember : Str → Str → Option Str → Dict Str Str → Checked (Dict Str Str)
remember venue file (some other) seen = err (symbology_clash venue other file)
remember venue file none seen = ok (put file venue seen)

-- The loop over the venues; `seen` has the venue of each file symbol so far.
unfoldable pub map_venues : Dict Str Str → List Str → Dict Str Str → Checked (List Venue)
unfolding remember
map_venues symbology [] seen = ok []
map_venues symbology (venue ∷ venues) seen = do
  file ← nonempty (get venue symbology) (no_symbology venue)
  seen' ← remember venue file (get file seen) seen
  rest ← map_venues symbology venues seen'
  ok ((venue, file) ∷ rest)

module _ (ps : Parsing) where
  unfoldable pub texts_of : List Raw → Str → Checked (List Str)
  texts_of [] key = ok []
  texts_of (r ∷ rs) key = do s ← text_of ps r key; rest ← texts_of rs key; ok (s ∷ rest)

  unfoldable pub discover : Replies → Checked (List Venue)
  discover replies = do
    symbols ← texts_of (replies.smembers symbols_key) symbols_key
    venues ← check_seeded (sorted str_leb symbols)
    given ← texts_of (replies.smembers quantities_key) quantities_key
    check_quantities (keep (λ q. not (contains q given)) quantities)
    symbology ← decode_hash ps (replies.hgetall symbology_key) symbology_key
    map_venues symbology venues []

  unfoldable pub read_head : Replies → Str → Str → Checked Head
  read_head replies venue quantity =
      let prefix = prefix_of venue quantity in
      parse_head ps venue quantity (replies.get (prefix ++ lit ":family"))
        (replies.get (prefix ++ lit ":param_count"))

  unfoldable pub read_heads : Replies → List Venue → Checked (List (Venue × Heads))
  read_heads replies [] = ok []
  read_heads replies (v ∷ venues) = do
    instrument ← parse_instrument ps v.0 (replies.hgetall (instrument_key v.0))
    for_return ← read_head replies v.0 (lit "return")
    for_spread ← read_head replies v.0 (lit "spread")
    for_interval ← read_head replies v.0 (lit "interval")
    rest ← read_heads replies venues
    ok (
        (
          v,
          record {
            instrument = instrument;
            for_return = for_return;
            for_spread = for_spread;
            for_interval = for_interval;
          },
        )
        ∷ rest)

module _ (fl : Floats) (conv : Conversion fl) (ps : Parsing) where
  unfoldable pub read_calibration : Replies → Str → Heads → Checked (SymbolCalibration fl.Float)
  read_calibration replies venue h = do
    let pip_size = h.instrument.pip_size
    returns ← read_distribution fl conv ps replies venue (lit "return") pip_size h.for_return
    spreads ← read_distribution fl conv ps replies venue (lit "spread") pip_size h.for_spread
    intervals ← read_distribution fl conv ps replies venue (lit "interval") pip_size h.for_interval
    ok (record {
      initial_price = h.instrument.initial_price;
      price_increment = pip_size;
      return_distribution = returns;
      spread_distribution = spreads;
      interval_distribution = intervals;
    })

  -- The calibrations by file symbol, in the order of the venues.
  unfoldable pub read_calibrations :
      Replies → List (Venue × Heads) → Checked (List (Str × SymbolCalibration fl.Float))
  read_calibrations replies [] = ok []
  read_calibrations replies ((v, h) ∷ venues) = do
    calibration ← read_calibration replies v.0 h
    rest ← read_calibrations replies venues
    ok ((v.1, calibration) ∷ rest)

  -- `calibrations[symbol] = ...`, entry by entry.
  unfoldable pub collected :
      Dict Str (SymbolCalibration fl.Float)
      → List (Str × SymbolCalibration fl.Float)
      → Dict Str (SymbolCalibration fl.Float)
  collected d [] = d
  collected d ((symbol, c) ∷ entries) = collected (put symbol c d) entries

  -- `sorted(calibrations.items())`: the keys are distinct, so no two values are compared.
  abbrev pub by_symbol : Str × SymbolCalibration fl.Float → Str × SymbolCalibration fl.Float → Bool
  by_symbol a b = str_leb a.0 b.0

  -- `load`, over the replies to its three round trips.
  unfoldable pub load :
      Replies → Replies → Replies → Checked (Dict Str (SymbolCalibration fl.Float))
  load discovery heads params = do
    venues ← discover ps discovery
    read ← read_heads ps heads venues
    entries ← read_calibrations params read
    ok (sorted by_symbol (collected [] entries))
