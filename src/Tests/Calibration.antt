-- ===== src/Tests/Calibration.antt =====
-- calibration_store.py: a store with one symbol.
use tqtk_price_streaming.Records.Timeframe.{from_value}
use tqtk_price_streaming.Feed.Distributions.{
  family_name, family_of, family_parameters, is_unbounded, draw_raised, SampleError,
}
use tqtk_price_streaming.Feed.Decimal.{
  add_ℤ, at_exponent, excess, fix, gap, half_even, leb_ℤ, lower, lt, magnitude, mul, mul_ℤ,
  scale_up, scaleb, with_sign_of,
}
use tqtk_price_streaming.Feed.Calibration.Params.{
  is_empty, read_distribution, read_param, read_values,
}
use tqtk_price_streaming.Feed.Calibration.Parse.{
  parse_instrument, is_count, is_power_of_ten, parse_head, to_code_units,
}
use tqtk_price_streaming.Feed.Calibration.{
  text_of, decode_hash, nonempty, decimal_of, decode_entries, field_of, required,
}
use tqtk_price_streaming.Feed.Calibration.Load.{
  texts_of, check_seeded, check_quantities, map_venues, read_heads, collected, read_calibration,
  read_calibrations, read_head, remember, Venue, discover, load,
}
use tqtk_price_streaming.Prelude.{
  list_beq, keep, any, ℕ, ◌≡◌, refl, some, List, [], ◌∷◌, All, ok, err,
}
use tqtk_price_streaming.Prelude.Text.{Str, lit, str_eq, str_leb}
use tqtk_price_streaming.Prelude.Dict.{put, Dict, get, keys}
use tqtk_price_streaming.Prelude.Sorting.{contains, insert, AllDistinct, sorted}
use tqtk_price_streaming.Fixtures.{floats, draws, conversion, parsing, store, held}
use tqtk_price_streaming.Feed.Generator.{
  SymbolCalibration, RandomWalk, sampling, next_quote, next_interval, FeedError,
}
use tqtk_price_streaming.Feed.Calibration.Checks.{IsReady}
use tqtk_price_streaming.Feed.Calibration.Ready.{load-IsReady}
use tqtk_price_streaming.Feed.Calibration.Trips.{load_pipelined}
use tqtk_price_streaming.Feed.Calibration.InOrder.{lifted, load_pipelined-load}
use tqtk_price_streaming.Feed.Calibration.Keys.{files_of, load-keys}
use tqtk_price_streaming.Feed.Calibration.Draws.{load-draws}

program : Unit {0}
unfolding load discover texts_of list_beq text_of check_seeded sorted check_quantities keep contains
    decode_hash get map_venues nonempty put read_heads parse_instrument collected read_calibration
    read_calibrations read_head remember is_empty read_distribution read_param read_values is_count
    is_power_of_ten parse_head to_code_units decimal_of decode_entries field_of required add_ℤ
    at_exponent excess fix gap half_even leb_ℤ lower lt magnitude mul mul_ℤ scale_up scaleb
    with_sign_of family_name family_of family_parameters is_unbounded any insert str_leb from_value
program = tt

abbrev calibrations : Dict Str (SymbolCalibration ℕ)
calibrations = (lit "EUR", held) ∷ []

abbrev venues : List Venue
venues = (lit "EURUSD", lit "EUR") ∷ []

loaded : load floats conversion parsing store store store ≡ ok calibrations
unfolding program
loaded = refl

discovered : discover parsing store ≡ ok venues
unfolding program
discovered = refl

load-IsReady_example : All (λ e. IsReady floats e.1) calibrations
load-IsReady_example = load-IsReady floats conversion parsing store store store loaded

load-keys_example :
    AllDistinct (files_of venues) × (keys calibrations ≡ sorted str_leb (files_of venues))
load-keys_example = load-keys floats conversion parsing store store store discovered loaded

abbrev walk : RandomWalk floats draws conversion
walk = record { calibration = held; state = 0; bid = held.initial_price; pacing_multiplier = 1 }

present : get (lit "EUR") calibrations ≡ some walk.calibration
unfolding program
present = refl

load-draws_example :
    ((e : SampleError)
      → next_quote floats draws conversion walk ≡ err (sampling e)
      → e ≡ draw_raised)
    × ((f : FeedError)
        → next_interval floats draws conversion walk ≡ err f
        → f ≡ sampling draw_raised)
load-draws_example =
    load-draws floats draws conversion parsing store store store (lit "EUR") walk loaded present
      refl

load_pipelined-load_example :
    load_pipelined floats conversion parsing store store store
    ≡ lifted (load floats conversion parsing store store store)
load_pipelined-load_example = load_pipelined-load floats conversion parsing store store store
