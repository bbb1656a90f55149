-- ===== src/Tests/Process.antt =====
-- __main__.py: a run over a store with one symbol, from the first ping to the release.
use tqtk_price_streaming.Feed.Process.{
  redis_dependency, retried, marked, notified, connected, has_client,
}
use tqtk_price_streaming.Records.Floats as Floats
use tqtk_price_streaming.Feed.Process.Settle.{settle, tasks_after-settle}
use tqtk_price_streaming.Runtime.Lifecycle as Lifecycle
use tqtk_price_streaming.Records.Tick as Ticks
use tqtk_price_streaming.Runtime.Readiness as Readiness
use tqtk_price_streaming.Runtime.Readiness.{has_duplicates, set_state, mark_connected}
use tqtk_price_streaming.Feed.Process.{
  connect, is_calibration, lift_loaded, load_calibrations, lacking, check_selected, selected_of,
  prepare, tasks_after, has_failed, has_ended, exit_of, ran, feed, publish_all, proceed, after_wait,
  resume, body, finally_close, leave, entered, serve, Attempt, answered, redis_error, Act, Env,
  Exit, returned, raised, running, setup_failed, wait_for_redis, run_service,
}
use tqtk_price_streaming.Session.{assign, counter, next_seq, start}
use tqtk_price_streaming.Records.Tick.{check_quote, Tick}
use tqtk_price_streaming.Records.Fields.{
  epoch_micros, is_price, is_size, name_field, optional_name, optional_size, price, seq_field,
}
use tqtk_price_streaming.Feed.Generator.{
  new_walk, run_symbol, step, wants_more, after_tick, next_tick, next_quote, next_bid, next_spread,
  after_pause, finite_draw, lift_decimal, lift_sampling, lift_validated, monotonic, next_interval,
  pause, quote_fields,
}
use tqtk_price_streaming.Feed.Concurrent.{
  Tasks, run_synthetic_feed, check_symbols, set_of, gather, entry, advance_at, advance, wake, quiet,
  rest, session_after, start_tasks, start_task, derive_symbol_seed, from_bytes, wakes, delivered,
  no_symbols,
}
use tqtk_price_streaming.Records.Timeframe.{from_value}
use tqtk_price_streaming.Feed.Distributions.{
  family_name, family_of, family_parameters, is_unbounded, sample, sampler, sample_constant,
  sample_normal,
}
use tqtk_price_streaming.Feed.Decimal.{
  add_ℤ, at_exponent, excess, fix, gap, half_even, leb_ℤ, lower, lt, magnitude, mul, mul_ℤ,
  scale_up, scaleb, with_sign_of, quantize, add, max, rescaled,
}
use tqtk_price_streaming.Feed.Calibration.Params.{
  is_empty, read_distribution, read_param, read_values,
}
use tqtk_price_streaming.Feed.Calibration.Parse.{
  parse_instrument, is_count, is_power_of_ten, parse_head, to_code_units,
}
use tqtk_price_streaming.Prelude.Dict.{put, get}
use tqtk_price_streaming.Prelude.Sorting.{sorted, contains, insert}
use tqtk_price_streaming.Feed.Calibration.{
  text_of, decode_hash, nonempty, decimal_of, decode_entries, field_of, required,
}
use tqtk_price_streaming.Feed.Calibration.Load.{
  load, discover, texts_of, check_seeded, check_quantities, map_venues, read_heads, collected,
  read_calibration, read_calibrations, read_head, remember,
}
use tqtk_price_streaming.Prelude.{
  ◌↔◌, length, keep, any, pair_beq, all, ℕ, ◌≡◌, ◌≢◌, refl, sym, ◌∙◌, true, false, Option, none,
  some, List, [], ◌∷◌, ◌++◌, All, map, list_beq,
}
use tqtk_price_streaming.Prelude.Text.{str_leb, Str, lit, str_eq}
use tqtk_price_streaming.Fixtures.{held, floats, draws, conversion, parsing, store, hashing}
use tqtk_price_streaming.Session.Gapless.{current}
use tqtk_price_streaming.Delivery.{fresh, observe_all}
use tqtk_price_streaming.Delivery.Marks.{mark_of}
use tqtk_price_streaming.Delivery.EndToEnd.{IsQuiet, Synced}
use tqtk_price_streaming.Runtime.Lifecycle.Trace.{listens}
use tqtk_price_streaming.Feed.Process.Waiting.{IsConnected, wait_for_redis-connected_iff}
use tqtk_price_streaming.Feed.Process.Ready.{initial, reached, run_service-fed_when_ready}
use tqtk_price_streaming.Feed.Process.Replay.{fed_when_ready}
use tqtk_price_streaming.Feed.Process.Release.{
  server_events, closes, closings, run_service-released,
}
use tqtk_price_streaming.Feed.Process.Production.{run_service_no_alarm}
use tqtk_price_streaming.Feed.Process.Entries.{entries_of}
use tqtk_price_streaming.Feed.Process.Setup.{run_service_setup}

program : Unit {0}
unfolding load discover texts_of list_beq text_of check_seeded sorted check_quantities keep contains
    decode_hash get map_venues nonempty put read_heads parse_instrument collected read_calibration
    read_calibrations read_head remember is_empty read_distribution read_param read_values is_count
    is_power_of_ten parse_head to_code_units decimal_of decode_entries field_of required add_ℤ
    at_exponent excess fix gap half_even leb_ℤ lower lt magnitude mul mul_ℤ scale_up scaleb
    with_sign_of family_name family_of family_parameters is_unbounded any insert str_leb from_value
    run_synthetic_feed check_symbols set_of gather entry advance_at advance wake quiet rest
    session_after start_tasks start_task derive_symbol_seed from_bytes new_walk pair_beq run_symbol
    step wants_more after_tick next_tick next_quote sample sampler next_bid quantize add next_spread
    max rescaled sample_constant sample_normal after_pause finite_draw lift_decimal lift_sampling
    lift_validated monotonic next_interval pause quote_fields epoch_micros is_price is_size
    name_field optional_name optional_size price seq_field check_quote assign counter next_seq
    connect wait_for_redis is_calibration lift_loaded load_calibrations lacking check_selected
    selected_of prepare tasks_after has_failed has_ended exit_of ran feed publish_all proceed
    after_wait resume body finally_close leave entered serve run_service Readiness.construct
    Ticks.construct has_duplicates set_state mark_connected start Lifecycle.start Lifecycle.serve
    Lifecycle.stop Lifecycle.stop_held all
program = tt

abbrev failing : Attempt
failing = record { stop = false; ping = redis_error }

abbrev answering : Attempt
answering = record { stop = false; ping = answered }

-- Redis answers the second ping; two ticks are added before the shutdown signal.
abbrev env : Option (List Str) → Env floats draws
env symbols = record {
  host = record { bind = some 8000; thread_starts = true };
  given_client = false;
  url_accepted = true;
  symbols = symbols;
  tick_rate_per_symbol = 1;
  attempts = failing ∷ answering ∷ [];
  stop = false;
  store = some (store, store, store);
  session_id = lit "a1";
  seeds = λ _. 0;
  hashing = hashing;
  events =
      (0, wakes false 100)
      ∷ (0, delivered)
      ∷ (0, wakes false 102)
      ∷ (0, delivered)
      ∷ (0, wakes true 104)
      ∷ [];
}

abbrev run : Option (List Str) → List (Act ℕ) × Exit
run symbols = run_service floats draws conversion parsing (env symbols)

added : map (λ (k : Tick ℕ). k.seq) (entries_of ℕ (run none).0) ≡ 0 ∷ 1 ∷ []
unfolding program entries_of Floats.max
added = refl

ends : (run none).1 ≡ returned
unfolding program Floats.max
ends = refl

refuses : (run (some [])).1 ≡ raised (setup_failed no_symbols)
unfolding program
refuses = refl

not_running : (run none).1 ≢ running
not_running h = let other = sym ends ∙ h in absurd cc

fresh-Synced : Synced (start (lit "a1")) fresh
unfolding current start mark_of get counter
fresh-Synced k = tt

run_service_no_alarm_example : All IsQuiet (observe_all (entries_of ℕ (run none).0) fresh).1
run_service_no_alarm_example =
    run_service_no_alarm floats draws conversion parsing (env none) fresh tt fresh-Synced

run_service-released_example :
    (listens none (server_events (run none).0) ≡ some none)
    × (closes (run none).0 ≡ closings floats draws conversion parsing (env none))
unfolding has_client
run_service-released_example =
    run_service-released floats draws conversion parsing (env none) not_running

run_service-fed_when_ready_example : fed_when_ready (run none).0 initial ≡ true
run_service-fed_when_ready_example =
    run_service-fed_when_ready floats draws conversion parsing (env none)

run_service_setup_example : (env (some [])).symbols ≡ some []
run_service_setup_example =
    run_service_setup floats draws conversion parsing (env (some [])) no_symbols refuses

answers : answering.ping ≡ redis_error → answering.stop ≡ true
answers h = absurd cc

redis_declared : get redis_dependency initial.connected ≡ some false
unfolding get list_beq
redis_declared = refl

wait_for_redis-connected_iff_example :
    (wait_for_redis {F = ℕ} true (failing ∷ failing ∷ answering ∷ failing ∷ []) initial
      ≡ (retried ∷ retried ∷ marked redis_dependency ∷ notified ∷ [], connected reached))
    ↔ IsConnected {F = ℕ} true
        (failing ∷ failing ∷ answering ∷ failing ∷ [])
        initial
        (retried ∷ retried ∷ marked redis_dependency ∷ notified ∷ [])
        reached
wait_for_redis-connected_iff_example =
    wait_for_redis-connected_iff true initial false redis_declared
      (failing ∷ failing ∷ answering ∷ failing ∷ [])
      (retried ∷ retried ∷ marked redis_dependency ∷ notified ∷ []) reached

-- Two tasks, of which one has its tick at the sink when the shutdown comes.
abbrev tasks : Tasks floats draws conversion
tasks =
    start_tasks floats draws conversion (start (lit "a1")) 1 (λ _. 0)
      ((lit "EUR", held) ∷ (lit "GBP", held) ∷ []) (lit "EUR" ∷ lit "GBP" ∷ [])

tasks_after-settle_example :
    exit_of floats draws conversion parsing (
      tasks_after floats draws conversion parsing
        (((1, wakes false 100) ∷ []) ++ settle 200 (length tasks))
        (start (lit "a1"))
        tasks)
    ≢ running
tasks_after-settle_example =
    tasks_after-settle floats draws conversion parsing ((1, wakes false 100) ∷ []) 200
      (start (lit "a1")) tasks
