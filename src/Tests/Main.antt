-- ===== src/Tests/Main.antt =====
-- config.py and `main`: an environment that sets the port, and a run that is stopped while it waits.
use tqtk_price_streaming.Feed.Main.{env_of}
use tqtk_price_streaming.Feed.Process.{has_client}
use tqtk_price_streaming.Feed.Process.{serve}
use tqtk_price_streaming.Runtime.Lifecycle.{start}
use tqtk_price_streaming.Runtime.Readiness.{has_duplicates, construct}
use tqtk_price_streaming.Prelude.{
  any, ℕ, ◌≡◌, ◌≢◌, ◌↔◌, refl, true, false, none, some, [], ◌∷◌, ok, err, list_beq, ◌==◌,
  if◌then◌else◌,
}
use tqtk_price_streaming.Prelude.Text.{is_space, strip, lit, str_eq}
use tqtk_price_streaming.Prelude.Int.{pos}
use tqtk_price_streaming.Fixtures.{floats, draws, conversion, parsing, hashing}
use tqtk_price_streaming.Config.{Environ, blank, out_of_range}
use tqtk_price_streaming.Logs.{Root}
use tqtk_price_streaming.Runtime.Lifecycle.Trace.{listens}
use tqtk_price_streaming.Feed.Concurrent.{SetupError}
use tqtk_price_streaming.Feed.Config.{FeedConfig, Numbers, feed_config}
use tqtk_price_streaming.Feed.Config.Valid.{IsFeed, feed_config_iff}
use tqtk_price_streaming.Feed.Process.{
  wait_for_redis, body, redis_error, returned, raised, running, setup_failed, run_service,
}
use tqtk_price_streaming.Feed.Process.Release.{server_events}
use tqtk_price_streaming.Feed.Main.{World, Run, finished, main}
use tqtk_price_streaming.Feed.Main.Ended.{acts_of, logs_stop, main_ended}

-- A lookup without regard to case, asked for the prefix and a field's name.
abbrev environ : Environ
environ name = if name == lit "TQTK_runtime_port" then some (lit "8100") else none

abbrev wrong : Environ
wrong name =
    if name == lit "TQTK_runtime_port"
    then some (lit "70000")
    else if name == lit "TQTK_service_name"
    then some (lit "  ")
    else none

abbrev numbers : Numbers floats
numbers = record {
  to_int = λ text.
      if text == lit "8100"
      then some (pos 8100)
      else if text == lit "70000"
      then some (pos 70000)
      else none;
  to_float = λ text. none;
  one = 1;
}

abbrev config : FeedConfig ℕ
config = record {
  service = record {
    service_name = lit "feed-adapter-synthetic";
    runtime_host = lit "0.0.0.0";
    runtime_port = 8100;
    log_level = lit "INFO";
  };
  tick_rate_per_symbol = 1;
  redis_url = lit "redis://localhost:6379/0";
  postgres_url = lit "postgresql://tqtk@localhost:5432/tqtk";
  postgres_password_file = none;
}

both_refused :
    feed_config floats numbers wrong
    ≡ err ((lit "service_name", blank) ∷ (lit "runtime_port", out_of_range) ∷ [])
unfolding feed_config list_beq strip is_space
both_refused = refl

configured : feed_config floats numbers environ ≡ ok config
unfolding feed_config list_beq strip is_space
configured = refl

feed_config_iff_example :
    (feed_config floats numbers environ ≡ ok config) ↔ IsFeed floats numbers environ config
feed_config_iff_example = feed_config_iff floats numbers environ config

config-IsFeed : IsFeed floats numbers environ config
config-IsFeed = (feed_config_iff floats numbers environ config).0 configured

abbrev world : World floats draws
world = record {
  from_url = λ _. true;
  machine = λ host port. record { bind = some port; thread_starts = true };
  attempts =
      record { stop = false; ping = redis_error } ∷ record { stop = true; ping = redis_error } ∷ [];
  stop = true;
  store = none;
  session_id = lit "a1";
  seeds = λ _. 0;
  hashing = hashing;
  events = [];
}

abbrev root : Root
root = record { handlers = []; level = lit "WARNING"; closed = [] }

abbrev run : Run ℕ
run = main floats draws conversion parsing numbers environ root world

run_returns : run.ending ≡ finished returned
unfolding main feed_config list_beq strip is_space run_service construct has_duplicates any start
    body wait_for_redis serve
run_returns = refl

returned-not-running : returned ≢ running
returned-not-running h = cc

main_ended_example :
    (listens none (server_events (acts_of run.steps)) ≡ some none)
    × ((logs_stop run.steps ≡ true) ↔ (returned ≡ returned))
    × ((e : SetupError) → returned ≢ raised (setup_failed e))
unfolding has_client env_of
main_ended_example =
    main_ended floats draws conversion parsing numbers environ root world config returned
      config-IsFeed run_returns returned-not-running
