-- ===== src/Tests/Runtime.antt =====
-- server.py: a service with two dependencies, its probes, and its server.
use tqtk_price_streaming.Prelude.{
  ◌≡◌, ◌≢◌, refl, true, false, none, some, List, [], ◌∷◌, ◌++◌, any, ok, err, list_beq,
}
use tqtk_price_streaming.Prelude.Text.{Str, lit, str_eq}
use tqtk_price_streaming.Prelude.Dict.{get, put}
use tqtk_price_streaming.Runtime.Readiness.{
  Readiness, construct, has_duplicates, set_state, differs,
}
use tqtk_price_streaming.Runtime.Readiness.Reports
use tqtk_price_streaming.Runtime.Readiness.Reports.{
  Mark, after, last_marks, AllConnected, run-last_marks,
}
use tqtk_price_streaming.Runtime.Readiness.Log.{run_log}
use tqtk_price_streaming.Runtime.Handler.{Library, Chunk, written, disconnected, failed, respond}
use tqtk_price_streaming.Runtime.Handler.Answers.{respond_disconnected}
use tqtk_price_streaming.Runtime.Lifecycle.{
  call, stop, after_enter, Host, Call, starting, stopping, fresh, start, run, with_server, bound,
  serving, listening_logged, shutdown, closed, joined, stopped_logged, serve, stop_held, follow,
}
use tqtk_price_streaming.Runtime.Lifecycle.Trace.{listens}
use tqtk_price_streaming.Runtime.Lifecycle.Release.{with_server-released}

abbrev dependencies : List Str
dependencies = lit "redis" ∷ lit "database" ∷ []

abbrev service : Readiness
service = record { connected = (lit "redis", false) ∷ (lit "database", false) ∷ [] }

abbrev marks : List Mark
marks =
    (lit "redis", true)
    ∷ (lit "database", true)
    ∷ (lit "kafka", true)
    ∷ (lit "redis", true)
    ∷ (lit "database", false)
    ∷ []

constructed : construct dependencies ≡ ok service
unfolding construct has_duplicates any list_beq
constructed = refl

log :
    run_log marks service
    ≡ record { dependency = lit "redis"; connected = true }
      ∷ record { dependency = lit "database"; connected = true }
      ∷ record { dependency = lit "database"; connected = false }
      ∷ []
unfolding run_log set_state differs get put list_beq
log = refl

run-last_marks_example : (Reports.run marks service).connected ≡ last_marks marks dependencies
run-last_marks_example = run-last_marks dependencies marks constructed

-- The request line's path is the whole URL, and every payload prints as nothing.
abbrev library : Library
library = record { url_path = λ s. s; dumps = λ _. []; render = err (lit "collector failed") }

written-not-failed : written ≢ failed
written-not-failed e = cc

disconnected-not-failed : disconnected ≢ failed
disconnected-not-failed e = cc

respond_disconnected_example :
    ((respond library (lit "/health") service true written disconnected).raised ≡ false)
    × (rest : List Chunk) × ((respond library
            (lit "/health")
            service
            true
            written
            disconnected).chunks
          ++ rest
        ≡ (respond library (lit "/health") service true written written).chunks)
respond_disconnected_example =
    respond_disconnected library (lit "/health") service true written disconnected
      written-not-failed disconnected-not-failed

abbrev host : Host
host = record { bind = some 8080; thread_starts = true }

-- A machine that can start no thread.
abbrev full : Host
full = record { bind = some 8080; thread_starts = false }

abbrev body : List Call
body = starting host ∷ stopping ∷ starting host ∷ []

trace : with_server host body fresh ≡ record {
  server = fresh;
  events =
      bound 8080
      ∷ serving
      ∷ listening_logged 8080
      ∷ shutdown
      ∷ closed
      ∷ joined
      ∷ stopped_logged
      ∷ bound 8080
      ∷ serving
      ∷ listening_logged 8080
      ∷ shutdown
      ∷ closed
      ∷ joined
      ∷ stopped_logged
      ∷ [];
  returns = true;
}
unfolding with_server after_enter start serve stop stop_held run call follow
trace = refl

entered : (start host fresh).result ≡ ok tt
unfolding start serve
entered = refl

returned : (run body fresh).returns ≡ true
unfolding run follow call start serve stop stop_held
returned = refl

with_server-released_example :
    let e = with_server host body fresh in
    (e.returns ≡ true) × (e.server.http ≡ none) × (listens none e.events ≡ some none)
with_server-released_example = with_server-released host body fresh entered (refl, (tt, (refl, tt)))
