-- ===== src/Tests/Concurrent.antt =====
-- generator.py: the tasks of two symbols, interleaved.
use tqtk_price_streaming.Records.Floats as Floats
use tqtk_price_streaming.Session.{assign, counter, next_seq, start}
use tqtk_price_streaming.Records.Timeframe.{from_value}
use tqtk_price_streaming.Records.Tick.{check_quote, construct, Tick}
use tqtk_price_streaming.Records.Fields.{
  epoch_micros, is_price, is_size, name_field, optional_name, optional_size, price, seq_field,
}
use tqtk_price_streaming.Feed.Decimal.{
  quantize, leb_ℤ, add, fix, at_exponent, lower, add_ℤ, excess, gap, half_even, lt, magnitude, max,
  rescaled, scale_up, with_sign_of,
}
use tqtk_price_streaming.Feed.Distributions.{
  sample, family_of, sampler, family_name, sample_constant, sample_normal,
}
use tqtk_price_streaming.Feed.Generator.{
  new_walk, run_symbol, step, wants_more, after_tick, next_tick, next_quote, next_bid, next_spread,
  after_pause, finite_draw, lift_decimal, lift_sampling, lift_validated, monotonic, next_interval,
  pause, quote_fields, SymbolCalibration,
}
use tqtk_price_streaming.Feed.Concurrent.{
  check_symbols, set_of, gather, entry, advance_at, advance, wake, quiet, rest, session_after,
  start_tasks, start_task, from_bytes, Event, wakes, delivered, undelivered, SetupError, no_symbols,
  derive_symbol_seed, run_synthetic_feed,
}
use tqtk_price_streaming.Prelude.{
  keep, pair_beq, ℕ, ◌≡◌, refl, true, false, Option, none, some, List, [], ◌∷◌, All, map, Result,
  ok, err, list_beq,
}
use tqtk_price_streaming.Prelude.Text.{Str, lit, str_eq}
use tqtk_price_streaming.Prelude.Int.{pos}
use tqtk_price_streaming.Prelude.Dict.{put, Dict, get}
use tqtk_price_streaming.Prelude.Sorting.{sorted, insert, AllDistinct, contains}
use tqtk_price_streaming.Fixtures.{floats, draws, conversion, hashing, held}
use tqtk_price_streaming.Session.Gapless.{current}
use tqtk_price_streaming.Delivery.{fresh, observe_all}
use tqtk_price_streaming.Delivery.Marks.{mark_of}
use tqtk_price_streaming.Delivery.EndToEnd.{IsQuiet, Synced}
use tqtk_price_streaming.Feed.Concurrent.Quiet.{feed_no_alarm}

program : Unit {0}
unfolding run_synthetic_feed check_symbols set_of gather entry advance_at advance wake quiet rest
    session_after start_tasks start_task derive_symbol_seed from_bytes new_walk contains sorted
    insert keep pair_beq run_symbol step wants_more after_tick next_tick next_quote sample family_of
    list_beq sampler next_bid quantize leb_ℤ add fix at_exponent lower next_spread add_ℤ excess gap
    half_even lt magnitude max rescaled scale_up with_sign_of family_name sample_constant
    sample_normal after_pause finite_draw lift_decimal lift_sampling lift_validated monotonic
    next_interval pause quote_fields get put epoch_micros is_price is_size name_field optional_name
    optional_size price seq_field check_quote construct from_value assign counter next_seq start
program = tt

abbrev eur : Str
eur = lit "EUR"

abbrev gbp : Str
gbp = lit "GBP"

abbrev calibrations : Dict Str (SymbolCalibration ℕ)
calibrations = (eur, held) ∷ (gbp, held) ∷ []

-- The second task's first tick overtakes the first's, whose own is not delivered in the end.
abbrev events : List (ℕ × Event)
events =
    (0, wakes false 100)
    ∷ (1, wakes false 101)
    ∷ (1, delivered)
    ∷ (0, delivered)
    ∷ (1, wakes false 102)
    ∷ (0, wakes false 103)
    ∷ (1, delivered)
    ∷ (0, undelivered false)
    ∷ (1, wakes true 104)
    ∷ []

abbrev seeds : Option ℕ → ℕ
seeds none = 0
seeds (some n) = n

abbrev run : List Str → Result SetupError (List (Tick ℕ))
run symbols =
    run_synthetic_feed floats draws conversion symbols 1 calibrations (start (lit "a1")) seeds
      hashing (some (pos 7)) none events

abbrev numbers : Result SetupError (List (Tick ℕ)) → List (Str × ℕ)
numbers (ok ticks) = map (λ (k : Tick ℕ). (k.symbol, k.seq)) ticks
numbers (err e) = []

abbrev entries : Result SetupError (List (Tick ℕ)) → List (Tick ℕ)
entries (ok ticks) = ticks
entries (err e) = []

numbered : numbers (run (eur ∷ gbp ∷ [])) ≡ (gbp, 0) ∷ (eur, 0) ∷ (gbp, 1) ∷ []
unfolding program Floats.max
numbered = refl

refused : run [] ≡ err no_symbols
unfolding program
refused = refl

-- The bytes of the digest, which has five here, big-endian.
seed : derive_symbol_seed hashing (some (pos 7)) eur ≡ some 31042393426
unfolding program
seed = refl

ran : run (eur ∷ gbp ∷ []) ≡ ok (entries (run (eur ∷ gbp ∷ [])))
unfolding program
ran = refl

distinct : AllDistinct (eur ∷ gbp ∷ [])
unfolding contains list_beq
distinct = (refl, (refl, tt))

fresh-Synced : Synced (start (lit "a1")) fresh
unfolding current start mark_of get counter
fresh-Synced k = tt

feed_no_alarm_example : All IsQuiet (observe_all (entries (run (eur ∷ gbp ∷ []))) fresh).1
feed_no_alarm_example =
    feed_no_alarm floats draws conversion (eur ∷ gbp ∷ []) 1 calibrations (start (lit "a1")) seeds
      hashing (some (pos 7)) none events fresh distinct fresh-Synced ran
