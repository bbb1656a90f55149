-- ===== src/Feed/Concurrent.antt =====
-- services/feed-adapter-synthetic/src/feed_adapter_synthetic/generator.py: `run_synthetic_feed`, whose
-- tasks share one session and run between their awaits. A task waits for the sink or sleeps; an event
-- is what a wait ends with, and the events come in any order. `hashlib.sha256`, `str` of an integer
-- and `random.Random` are parameters.
pub mod Numbering
pub mod Moves
pub mod Quiet
use tqtk_price_streaming.Prelude.{
  ℕ, zero, suc, ◌+◌, ◌*◌, Bool, true, false, not, Option, none, some, List, [], ◌∷◌, ◌++◌, keep,
  Result, ok, err, ◌>>=◌, if◌then◌else◌,
}
use tqtk_price_streaming.Prelude.Text.{Str, str_eq, str_leb}
use tqtk_price_streaming.Prelude.Int.{ℤ}
use tqtk_price_streaming.Prelude.Dict.{Dict, get, keys}
use tqtk_price_streaming.Prelude.Sorting.{contains, sorted}
use tqtk_price_streaming.Records.Floats.{Floats}
use tqtk_price_streaming.Records.Tick.{Tick}
use tqtk_price_streaming.Session
use tqtk_price_streaming.Session.{FeedSession}
use tqtk_price_streaming.Feed.Distributions.{Random}
use tqtk_price_streaming.Feed.Generator.{
  FeedError, rejected, sink_failed, SymbolCalibration, Conversion, Round, Ending, stopped, finished,
  failed, Task, provider, new_walk, wants_more, next_tick, pause,
}

-- What a symbol's seed is made with.
pub record Hashing : Type 0 where
  pub str_int : ℤ → Str
  pub sha256 : Str → List ℕ

-- `int.from_bytes(digest[:n], "big")`, from the bytes so far.
unfoldable pub from_bytes : ℕ → ℕ → List ℕ → ℕ
from_bytes zero acc bytes = acc
from_bytes (suc n) acc [] = acc
from_bytes (suc n) acc (b ∷ bytes) = from_bytes n (acc * 256 + b) bytes

unfoldable pub derive_symbol_seed : Hashing → Option ℤ → Str → Option ℕ
unfolding from_bytes
derive_symbol_seed h none symbol = none
derive_symbol_seed h (some seed) symbol =
    some (from_bytes 8 0 (h.sha256 (h.str_int seed ++ (b':' ∷ symbol))))

-- How a task's wait ends: its sleep, with the stop signal and the clock's reading at that time, or
-- the sink's call. A call that raises may have added the entry all the same.
pub data Event : Type 0 where
  wakes : Bool → ℕ → Event
  delivered : Event
  undelivered : Bool → Event

-- `ValueError` of an empty or an uncalibrated set of symbols.
pub data SetupError : Type 0 where
  no_symbols : SetupError
  uncalibrated : List Str → SetupError

-- `set(xs)`
unfoldable pub set_of : List Str → List Str
set_of [] = []
set_of (x ∷ xs) = if contains x xs then set_of xs else x ∷ set_of xs

unfoldable pub check_symbols : List Str → List Str → Result SetupError (Unit {0})
check_symbols [] missing = err no_symbols
check_symbols (s ∷ symbols) [] = ok tt
check_symbols (s ∷ symbols) (m ∷ missing) = err (uncalibrated (m ∷ missing))

module _ (fl : Floats) (rng : Random fl) (conv : Conversion fl) where
  -- Where a task stands: before its loop's test, at the sink with a tick, or at its end.
  pub data Phase : Type 0 where
    waiting : Task fl rng conv → Phase
    publishing : Task fl rng conv → Tick fl.Float → Phase
    ended : Ending → Phase

  -- The shared session, where the task stands, and the entry added to its stream, if one was.
  pub record Advance : Type 0 where
    pub session : FeedSession
    pub phase : Phase
    pub added : Option (Tick fl.Float)

  unfoldable pub quiet : FeedSession → Phase → Advance
  quiet session phase = record { session = session; phase = phase; added = none }

  -- The session after the loop's body raised: a rejected tick has taken its number.
  unfoldable pub session_after : Str → FeedError → FeedSession → FeedSession
  session_after symbol rejected session = (Session.next_seq provider symbol session).0
  session_after symbol _ session = session

  -- From the loop's test to the call of the sink; the number is taken from the shared session.
  unfoldable pub wake : Str → Option ℕ → Bool → ℕ → FeedSession → Task fl rng conv → Advance
  unfolding quiet session_after
  wake symbol max_ticks stop clock session t =
      let here : Task fl rng conv = record t { session = session } in
      let r : Round = record { stop = stop; others = []; clock = clock; delivered = true } in
      if stop
      then quiet session (ended stopped)
      else if not (wants_more max_ticks t.published)
      then quiet session (ended finished)
      else (elim (next_tick fl rng conv symbol r here) [
        | ok (t', tick) ↦ quiet t'.session (publishing t' tick)
        | err e ↦ quiet (session_after symbol e session) (ended (failed e))
      ])

  -- After the sink returned: the wait for the next tick, or the end.
  unfoldable pub rest : Option ℕ → Task fl rng conv → Phase
  rest max_ticks t =
      if wants_more max_ticks t.published
      then (elim (pause fl rng conv max_ticks t) [ ok t' ↦ waiting t' | err e ↦ ended (failed e) ])
      else ended finished

  unfoldable pub advance : Str → Option ℕ → Event → FeedSession → Phase → Advance
  unfolding wake quiet rest
  advance symbol max_ticks (wakes stop clock) session (waiting t) =
      wake symbol max_ticks stop clock session t
  advance symbol max_ticks delivered session (publishing t tick) = record {
    session = session;
    phase = rest max_ticks t;
    added = some tick;
  }
  advance symbol max_ticks (undelivered added) session (publishing t tick) = record {
    session = session;
    phase = ended (failed sink_failed);
    added = if added then some tick else none;
  }
  advance symbol max_ticks _ session phase = quiet session phase

  abbrev pub Tasks : Type 0
  Tasks = List (Str × Phase)

  -- The session, the tasks and the entries after one event of the task at a position.
  unfoldable pub advance_at :
      Option ℕ → ℕ → Event → FeedSession → Tasks → FeedSession × Tasks × Option (Tick fl.Float)
  advance_at max_ticks n event session [] = (session, [], none)
  advance_at max_ticks zero event session ((symbol, phase) ∷ tasks) =
      let a = advance symbol max_ticks event session phase in
      (a.session, (symbol, a.phase) ∷ tasks, a.added)
  advance_at max_ticks (suc n) event session (task ∷ tasks) =
      let (session', tasks', added) = advance_at max_ticks n event session tasks in
      (session', task ∷ tasks', added)

  unfoldable pub entry : Option (Tick fl.Float) → List (Tick fl.Float) → List (Tick fl.Float)
  entry none ticks = ticks
  entry (some tick) ticks = tick ∷ ticks

  -- `asyncio.gather`: the entries that the events add, in order.
  unfoldable pub gather : Option ℕ → List (ℕ × Event) → FeedSession → Tasks → List (Tick fl.Float)
  unfolding entry
  gather max_ticks [] session tasks = []
  gather max_ticks ((n, event) ∷ events) session tasks =
      let (session', tasks', added) = advance_at max_ticks n event session tasks in
      entry added (gather max_ticks events session' tasks')

  unfoldable pub start_task :
      FeedSession → fl.Float → (Str → rng.State) → Str → SymbolCalibration fl.Float → Str × Phase
  start_task session pacing_multiplier seeded symbol calibration = (
    symbol,
    waiting (record {
      walk = new_walk fl rng conv calibration pacing_multiplier (seeded symbol);
      session = session;
      last_recv_ts = 0;
      published = 0;
    }),
  )

  unfoldable pub start_tasks :
      FeedSession
      → fl.Float
      → (Str → rng.State)
      → Dict Str (SymbolCalibration fl.Float)
      → List Str
      → Tasks
  unfolding start_task
  start_tasks session pacing_multiplier seeded calibrations [] = []
  start_tasks session pacing_multiplier seeded calibrations (symbol ∷ symbols) =
      let tasks = start_tasks session pacing_multiplier seeded calibrations symbols in
      elim (get symbol calibrations) [
        | none ↦ tasks
        | some c ↦ start_task session pacing_multiplier seeded symbol c ∷ tasks
      ]

  -- The entries that a run adds; `seeded` is `random.Random(_derive_symbol_seed(seed, symbol))`.
  unfoldable pub run_synthetic_feed :
      List Str
      → fl.Float
      → Dict Str (SymbolCalibration fl.Float)
      → FeedSession
      → (Option ℕ → rng.State)
      → Hashing
      → Option ℤ
      → Option ℕ
      → List (ℕ × Event)
      → Result SetupError (List (Tick fl.Float))
  unfolding check_symbols set_of
  run_synthetic_feed symbols pacing_multiplier calibrations session seeds hashing seed max_ticks
        events =
      do
        let missing = keep (λ s. not (contains s (keys calibrations))) (set_of symbols)
        _ ← check_symbols symbols (sorted str_leb missing)
        let seeded = λ (symbol : Str). seeds (derive_symbol_seed hashing seed symbol)
        ok (
            gather max_ticks events session
              (start_tasks session pacing_multiplier seeded calibrations symbols))
