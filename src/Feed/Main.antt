-- ===== src/Feed/Main.antt =====
-- services/feed-adapter-synthetic/src/feed_adapter_synthetic/__main__.py: `main`, from the environment
-- to the end of the service. What the outside makes of the run is an argument, the signals among it:
-- `_install_shutdown_handler` has them set `stop`, which the waits and the tasks see.
pub mod Ended
use tqtk_price_streaming.Prelude.{
  ℕ, Bool, true, false, Option, none, some, List, [], ◌∷◌, ◌++◌, map, Result, ok, err,
}
use tqtk_price_streaming.Prelude.Text.{Str}
use tqtk_price_streaming.Records.Floats.{Floats}
use tqtk_price_streaming.Runtime.Lifecycle as Lifecycle
use tqtk_price_streaming.Config.{Environ, Errors, ServiceConfig}
use tqtk_price_streaming.Logs.{Root, configure_logging}
use tqtk_price_streaming.Feed.Distributions.{Random}
use tqtk_price_streaming.Feed.Generator.{Conversion}
use tqtk_price_streaming.Feed.Concurrent.{Hashing, Event}
use tqtk_price_streaming.Feed.Calibration.{Parsing, Replies}
use tqtk_price_streaming.Feed.Config.{FeedConfig, Numbers, feed_config}
use tqtk_price_streaming.Feed.Process.{
  Act, Attempt, Env, Exit, returned, raised, running, run_service,
}

-- What a run meets, but for its settings; the machine by the address that is bound.
pub record World (fl : Floats) (rng : Random fl) : Type 0 where
  -- Whether `Redis.from_url` takes a URL.
  pub from_url : Str → Bool
  pub machine : Str → ℕ → Lifecycle.Host
  pub attempts : List Attempt
  pub stop : Bool
  pub store : Option (Replies × Replies × Replies)
  pub session_id : Str
  pub seeds : Option ℕ → rng.State
  pub hashing : Hashing
  pub events : List (ℕ × Event)

pub data Step (F : Type 0) : Type 0 where
  starting_logged : Str → Step F
  did : Act F → Step F
  stopped_logged : Str → Step F

pub data Ending : Type 0 where
  -- FeedConfig() raised.
  refused : Errors → Ending
  finished : Exit → Ending

-- What `main` leaves: the root logger, the steps and the ending.
pub record Run (F : Type 0) : Type 0 where
  pub root : Root
  pub steps : List (Step F)
  pub ending : Ending

module _ {F : Type 0} where
  -- The line after `asyncio.run`, which is reached if that returns.
  unfoldable pub closing_line : Str → Exit → List (Step F)
  closing_line name returned = stopped_logged name ∷ []
  closing_line name (raised e) = []
  closing_line name running = []

module _ (fl : Floats) (rng : Random fl) (conv : Conversion fl) (ps : Parsing)
    (numbers : Numbers fl) where
  -- The arguments of `_run_service` in `_entrypoint`: no symbols and no client are given.
  unfoldable pub env_of : FeedConfig fl.Float → World fl rng → Env fl rng
  env_of config world = record {
    host = world.machine config.service.runtime_host config.service.runtime_port;
    given_client = false;
    url_accepted = world.from_url config.redis_url;
    symbols = none;
    tick_rate_per_symbol = config.tick_rate_per_symbol;
    attempts = world.attempts;
    stop = world.stop;
    store = world.store;
    session_id = world.session_id;
    seeds = world.seeds;
    hashing = world.hashing;
    events = world.events;
  }

  -- From `configure_logging` on.
  unfoldable pub start_up : Root → World fl rng → Result Errors (FeedConfig fl.Float) → Run fl.Float
  unfolding configure_logging env_of closing_line
  start_up root world (err es) = record { root = root; steps = []; ending = refused es }
  start_up root world (ok config) =
      let (acts, exit) = run_service fl rng conv ps (env_of config world) in
      record {
        root = configure_logging config.service root;
        steps =
            starting_logged config.service.service_name
            ∷ (map did acts ++ closing_line config.service.service_name exit);
        ending = finished exit;
      }

  unfoldable pub main : Environ → Root → World fl rng → Run fl.Float
  unfolding start_up
  main environ root world = start_up root world (feed_config fl numbers environ)
