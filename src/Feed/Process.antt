-- ===== src/Feed/Process.antt =====
-- services/feed-adapter-synthetic/src/feed_adapter_synthetic/__main__.py: `wait_for_redis` and
-- `_run_service`, as runs that leave a trace of what they do. What the outside makes of a run (the
-- pings, the shutdown signal, the replies of the store, the ends of the tasks' waits) is an argument.
-- Closing the client is taken to succeed. The entries of a run whose task failed are those until the
-- other tasks are cancelled.
pub mod Waiting
pub mod Release
pub mod Replay
pub mod Ready
pub mod Entries
pub mod Production
pub mod Setup
pub mod Settle
use tqtk_price_streaming.Prelude.{
  ℕ, Bool, true, false, not, ◌||◌, Option, none, some, List, [], ◌∷◌, ◌++◌, map, any, all, keep,
  Result, ok, err, ◌>>=◌, if◌then◌else◌,
}
use tqtk_price_streaming.Prelude.Text.{Str, lit, str_eq, str_leb}
use tqtk_price_streaming.Prelude.Dict.{Dict, keys}
use tqtk_price_streaming.Prelude.Sorting.{contains, sorted}
use tqtk_price_streaming.Records.Floats.{Floats}
use tqtk_price_streaming.Records.Tick.{Tick}
use tqtk_price_streaming.Session
use tqtk_price_streaming.Session.{FeedSession}
use tqtk_price_streaming.Runtime.Readiness.{Readiness, ReadinessError, construct, mark_connected}
use tqtk_price_streaming.Runtime.Lifecycle as Lifecycle
use tqtk_price_streaming.Feed.Distributions.{Random}
use tqtk_price_streaming.Feed.Generator.{Conversion, SymbolCalibration, failed}
use tqtk_price_streaming.Feed.Concurrent.{
  Hashing, Event, SetupError, Phase, waiting, publishing, ended, Tasks, advance_at, set_of,
  start_tasks, derive_symbol_seed, run_synthetic_feed,
}
use tqtk_price_streaming.Feed.Calibration.{Parsing, Replies, CalibrationError}
use tqtk_price_streaming.Feed.Calibration.Load.{load}

abbrev pub redis_dependency : Str
redis_dependency = lit "redis"

abbrev pub calibration_dependency : Str
calibration_dependency = lit "calibration"

-- How a call of `ping` ends; `broken` raises what is no `RedisError`.
pub data Ping : Type 0 where
  answered redis_error broken : Ping

-- One round of the wait: whether `stop` is set at its test, and the ping.
pub record Attempt : Type 0 where
  pub stop : Bool
  pub ping : Ping

-- What ends `_run_service` by an exception.
pub data Failure : Type 0 where
  -- `Redis.from_url` raised.
  no_client : Failure
  not_served : Lifecycle.ServerError → Failure
  ping_raised : Failure
  not_declared : ReadinessError → Failure
  store_raised : Failure
  calibration_failed : CalibrationError → Failure
  no_calibration : List Str → Failure
  setup_failed : SetupError → Failure
  task_failed : Failure

pub data Exit : Type 0 where
  returned : Exit
  raised : Failure → Exit
  -- What the outside does is used up, and the run goes on.
  running : Exit

pub data Act (F : Type 0) : Type 0 where
  -- A ping that failed, with its debug line and the sleep.
  retried : Act F
  marked : Str → Act F
  notified : Act F
  served : Lifecycle.Event → Act F
  error_logged : Failure → Act F
  fed : List (Tick F) → Act F
  client_closed : Act F

pub data Waited : Type 0 where
  connected : Readiness → Waited
  stopped : Waited
  broke : Failure → Waited
  pending : Waited

module _ {F : Type 0} where
  unfoldable pub connect : Bool → Readiness → List (Act F) × Waited
  connect notifies readiness = elim (mark_connected redis_dependency readiness) [
    | ok (readiness', _) ↦
        (marked redis_dependency ∷ (if notifies then notified ∷ [] else []), connected readiness')
    | err e ↦ ([], broke (not_declared e))
  ]

  -- `wait_for_redis`; `notifies` is whether `on_connected` is given.
  unfoldable pub wait_for_redis : Bool → List Attempt → Readiness → List (Act F) × Waited
  unfolding connect
  wait_for_redis notifies [] readiness = ([], pending)
  wait_for_redis notifies (a ∷ attempts) readiness =
      let (acts, waited) = wait_for_redis notifies attempts readiness in
      if a.stop then ([], stopped) else (elim a.ping [
        | answered ↦ connect notifies readiness
        | redis_error ↦ (retried ∷ acts, waited)
        | broken ↦ ([], broke ping_raised)
      ])

-- `except CalibrationError`
unfoldable pub is_calibration : Failure → Bool
is_calibration (calibration_failed _) = true
is_calibration (no_calibration _) = true
is_calibration _ = false

-- What the outside makes of a run: the arguments and the configuration, and what it meets.
pub record Env (fl : Floats) (rng : Random fl) : Type 0 where
  pub host : Lifecycle.Host
  pub given_client : Bool
  -- Whether `Redis.from_url(config.redis_url)` returns a client.
  pub url_accepted : Bool
  pub symbols : Option (List Str)
  pub tick_rate_per_symbol : fl.Float
  pub attempts : List Attempt
  pub stop : Bool
  -- The replies to the three round trips, if none of them raises.
  pub store : Option (Replies × Replies × Replies)
  pub session_id : Str
  pub seeds : Option ℕ → rng.State
  pub hashing : Hashing
  pub events : List (ℕ × Event)

module _ (fl : Floats) (rng : Random fl) (conv : Conversion fl) (ps : Parsing) where
  abbrev pub Calibrations : Type 0
  Calibrations = Dict Str (SymbolCalibration fl.Float)

  unfoldable pub lift_loaded : Result CalibrationError Calibrations → Result Failure Calibrations
  lift_loaded (ok calibrations) = ok calibrations
  lift_loaded (err e) = err (calibration_failed e)

  unfoldable pub load_calibrations :
      Option (Replies × Replies × Replies) → Result Failure Calibrations
  unfolding lift_loaded
  load_calibrations none = err store_raised
  load_calibrations (some (discovery, heads, params)) =
      lift_loaded (load fl conv ps discovery heads params)

  -- `sorted(set(selected) - calibrations.keys())`
  unfoldable pub lacking : List Str → Calibrations → List Str
  lacking selected calibrations =
      sorted str_leb (keep (λ s. not (contains s (keys calibrations))) (set_of selected))

  -- `if uncalibrated: raise`
  unfoldable pub check_selected : List Str → Result Failure (Unit {0})
  check_selected [] = ok tt
  check_selected (s ∷ uncalibrated) = err (no_calibration (s ∷ uncalibrated))

  unfoldable pub selected_of : Option (List Str) → Calibrations → List Str
  selected_of none calibrations = keys calibrations
  selected_of (some symbols) calibrations = symbols

  -- The body of the `try` around the store.
  unfoldable pub prepare : Env fl rng → Result Failure (Calibrations × List Str)
  unfolding check_selected selected_of lacking
  prepare env = do
    calibrations ← load_calibrations env.store
    let selected = selected_of env.symbols calibrations
    _ ← check_selected (lacking selected calibrations)
    ok (calibrations, selected)

  -- The tasks after the events.
  unfoldable pub tasks_after :
      List (ℕ × Event) → FeedSession → Tasks fl rng conv → Tasks fl rng conv
  tasks_after [] session tasks = tasks
  tasks_after ((n, event) ∷ events) session tasks =
      let (session', tasks', _) = advance_at fl rng conv none n event session tasks in
      tasks_after events session' tasks'

  unfoldable pub has_failed : Str × Phase fl rng conv → Bool
  has_failed (_, ended (failed _)) = true
  has_failed _ = false

  unfoldable pub has_ended : Str × Phase fl rng conv → Bool
  has_ended (_, ended _) = true
  has_ended _ = false

  -- `gather` raises what a task raises, and returns when all of them have.
  unfoldable pub exit_of : Tasks fl rng conv → Exit
  unfolding has_failed has_ended
  exit_of tasks =
      if any has_failed tasks
      then raised task_failed
      else if all has_ended tasks
      then returned
      else running

  -- What `run_synthetic_feed` adds, and how it ends.
  unfoldable pub ran :
      Env fl rng
      → Calibrations
      → List Str
      → Result SetupError (List (Tick fl.Float))
      → List (Act fl.Float) × Exit
  ran env calibrations selected (err e) = ([], raised (setup_failed e))
  ran env calibrations selected (ok entries) =
      let session = Session.start env.session_id in
      let seeded = λ (symbol : Str). env.seeds (derive_symbol_seed env.hashing none symbol) in
      let tasks =
        start_tasks fl rng conv session env.tick_rate_per_symbol seeded calibrations selected in
      (fed entries ∷ [], exit_of (tasks_after env.events session tasks))

  -- `run_synthetic_feed(selected, ...)`, with a session of its own, no seed and no limit.
  unfoldable pub feed : Env fl rng → Calibrations → List Str → List (Act fl.Float) × Exit
  unfolding ran
  feed env calibrations selected = ran env calibrations selected (
      run_synthetic_feed fl rng conv selected env.tick_rate_per_symbol calibrations
        (Session.start env.session_id) env.seeds env.hashing none none env.events)

  -- From the mark of the calibration on.
  unfoldable pub publish_all :
      {L : Type 0}
      → Env fl rng
      → Calibrations
      → List Str
      → Result ReadinessError L
      → List (Act fl.Float) × Exit
  publish_all env calibrations selected (err e) = ([], raised (not_declared e))
  publish_all env calibrations selected (ok _) =
      let (acts, exit) = feed env calibrations selected in
      (marked calibration_dependency ∷ acts, exit)

  unfoldable pub proceed :
      Env fl rng → Readiness → Result Failure (Calibrations × List Str) → List (Act fl.Float) × Exit
  unfolding is_calibration publish_all
  proceed env readiness (err e) = (if is_calibration e then error_logged e ∷ [] else [], raised e)
  proceed env readiness (ok (calibrations, selected)) =
      publish_all env calibrations selected (mark_connected calibration_dependency readiness)

  -- What follows the wait, if it connected.
  unfoldable pub after_wait : Env fl rng → Readiness → List (Act fl.Float) × Exit
  unfolding proceed
  after_wait env readiness =
      if env.stop then ([], returned) else proceed env readiness (prepare env)

  -- What follows the wait. `stop` stays set once it is, so after a wait that it ended the test of it
  -- returns.
  unfoldable pub resume : Env fl rng → List (Act fl.Float) × Waited → List (Act fl.Float) × Exit
  resume env (acts, connected readiness) =
      let (more, exit) = after_wait env readiness in (acts ++ more, exit)
  resume env (acts, stopped) = (acts, returned)
  resume env (acts, broke e) = (acts, raised e)
  resume env (acts, pending) = (acts, running)

  -- The body of the `try` with the `finally`.
  unfoldable pub body : Env fl rng → Readiness → List (Act fl.Float) × Exit
  unfolding resume
  body env readiness = resume env (wait_for_redis false env.attempts readiness)

  -- `finally`: a client of its own is closed, however the body ended.
  unfoldable pub finally_close : Bool → List (Act fl.Float) → Exit → List (Act fl.Float)
  finally_close given_client acts running = acts
  finally_close given_client acts _ = acts ++ (if given_client then [] else client_closed ∷ [])

  -- `__exit__` of the server, however the body ended.
  unfoldable pub leave : Lifecycle.RuntimeServer → Exit → List (Act fl.Float)
  leave server running = []
  leave server _ = map served (Lifecycle.stop server).events

  -- What the `with` block makes of the start of the server and of its body.
  unfoldable pub entered :
      Env fl rng
      → Lifecycle.Outcome
      → Result Lifecycle.ServerError (Unit {0})
      → List (Act fl.Float) × Exit
      → List (Act fl.Float) × Exit
  unfolding finally_close leave
  entered env o (err e) inside = (map served o.events, raised (not_served e))
  entered env o (ok _) (acts, exit) = (
    map served o.events ++ (finally_close env.given_client acts exit ++ leave o.server exit),
    exit,
  )

  unfoldable pub serve : Env fl rng → Readiness → List (Act fl.Float) × Exit
  unfolding entered
  serve env readiness =
      let o = Lifecycle.start env.host Lifecycle.fresh in
      entered env o o.result (body env readiness)

  -- The client that was given, or one of its own, before the server starts.
  unfoldable pub has_client : Env fl rng → Bool
  has_client env = env.given_client || env.url_accepted

  unfoldable pub begin : Env fl rng → Result ReadinessError Readiness → List (Act fl.Float) × Exit
  unfolding has_client
  begin env (err e) = ([], raised (not_declared e))
  begin env (ok readiness) = if has_client env then serve env readiness else ([], raised no_client)

  -- `_run_service`
  unfoldable pub run_service : Env fl rng → List (Act fl.Float) × Exit
  unfolding begin
  run_service env = begin env (construct (redis_dependency ∷ calibration_dependency ∷ []))
