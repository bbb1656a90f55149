-- ===== src/Runtime/Lifecycle.antt =====
-- `RuntimeServer`: binding, serving and stopping, as calls that leave a trace of what they do to the
-- socket, the thread and the log. Binding may raise, and so may starting the thread; a thread that
-- was started is taken to serve until the shutdown. `shutdown()` waits for the serving loop, which
-- is for ever if no thread has run it.
pub mod Trace
pub mod Release
use tqtk_price_streaming.Prelude.{
  ℕ, Bool, true, false, Option, none, some, List, [], ◌∷◌, ◌++◌, Result, ok, err,
}

pub data ServerError : Type 0 where
  not_started already_started bind_failed thread_failed : ServerError

pub data Event : Type 0 where
  bound : ℕ → Event
  serving : Event
  listening_logged : ℕ → Event
  shutdown : Event
  closed : Event
  joined : Event
  stopped_logged : Event

-- The thread that is held: none, one whose start raised, or one that was started.
pub data Thread : Type 0 where
  absent unstarted started : Thread

-- The server object that is held, by the port it is bound to, and the thread.
pub record RuntimeServer : Type 0 where
  pub http : Option ℕ
  pub thread : Thread

-- RuntimeServer(...)
abbrev pub fresh : RuntimeServer
fresh = record { http = none; thread = absent }

-- What the system makes of a start: the port that it binds, if it does, and whether it can start
-- a thread.
pub record Host : Type 0 where
  pub bind : Option ℕ
  pub thread_starts : Bool

pub record Outcome : Type 0 where
  pub server : RuntimeServer
  pub events : List Event
  pub result : Result ServerError (Unit {0})

unfoldable pub port : RuntimeServer → Result ServerError ℕ
port s = elim s.http [ none ↦ err not_started | some p ↦ ok p ]

-- What follows the binding, by whether the thread starts.
unfoldable pub serve : Bool → ℕ → Outcome
serve true p = record {
  server = record { http = some p; thread = started };
  events = bound p ∷ serving ∷ listening_logged p ∷ [];
  result = ok tt;
}
serve false p = record {
  server = record { http = some p; thread = unstarted };
  events = bound p ∷ [];
  result = err thread_failed;
}

unfoldable pub start : Host → RuntimeServer → Outcome
unfolding serve
start host s = elim s.http [
  | some _ ↦ record { server = s; events = []; result = err already_started }
  | none ↦ (elim host.bind [
    | none ↦ record { server = s; events = []; result = err bind_failed }
    | some p ↦ serve host.thread_starts p
  ])
]

-- What calls leave behind, and whether the last of them has returned.
pub record Effect : Type 0 where
  pub server : RuntimeServer
  pub events : List Event
  pub returns : Bool

-- `shutdown`, `server_close`, `join` and the log line, of a server that is held with its thread.
unfoldable pub stop_held : Thread → Effect
stop_held started = record {
  server = fresh;
  events = shutdown ∷ closed ∷ joined ∷ stopped_logged ∷ [];
  returns = true;
}
stop_held _ = record { server = fresh; events = shutdown ∷ []; returns = false }

unfoldable pub stop : RuntimeServer → Effect
unfolding stop_held
stop s = elim s.http [
  | none ↦ record { server = s; events = []; returns = true }
  | some _ ↦ stop_held s.thread
]

pub data Call : Type 0 where
  starting : Host → Call
  stopping : Call

-- The effect of a start, whose exception the caller catches.
abbrev pub effect_of : Outcome → Effect
effect_of o = record { server = o.server; events = o.events; returns = true }

unfoldable pub call : Call → RuntimeServer → Effect
unfolding start stop
call (starting host) s = effect_of (start host s)
call stopping s = stop s

-- One call, or more, and those after it, which are made if it returns.
unfoldable pub follow : Effect → (RuntimeServer → Effect) → Effect
follow first rest = elim first.returns [
  | false ↦ first
  | true ↦
      let later = rest first.server in
      record {
        server = later.server;
        events = first.events ++ later.events;
        returns = later.returns;
      }
]

-- Calls one after another.
unfoldable pub run : List Call → RuntimeServer → Effect
unfolding follow
run [] s = record { server = s; events = []; returns = true }
run (c ∷ calls) s = follow (call c s) (run calls)

-- What follows `__enter__`: the body and `__exit__`, if it returned.
unfoldable pub after_enter : Result ServerError (Unit {0}) → Outcome → List Call → Effect
unfolding follow
after_enter (err _) o body = effect_of o
after_enter (ok _) o body = follow (effect_of o) (λ s. follow (run body s) stop)

-- `with RuntimeServer(...):` around a body that may itself start and stop it; `__exit__` stops the
-- server however the body ends.
unfoldable pub with_server : Host → List Call → RuntimeServer → Effect
with_server host body s = let o = start host s in after_enter o.result o body
