-- ===== src/Feed/Process/Ready.antt =====
-- __main__.py: what the readiness of the process is when entries are added.
use tqtk_price_streaming.Prelude.{
  ◌≡◌, refl, sym, subst, ◌∙◌, Bool, true, false, List, [], ◌∷◌, ◌++◌, map, any, list_beq, Result,
  ok, err, Bool-cases, inl, inr, arith, if◌then◌else◌,
}
use tqtk_price_streaming.Prelude.Text.{Str, str_eq}
use tqtk_price_streaming.Prelude.Dict.{get, put}
use tqtk_price_streaming.Records.Floats.{Floats}
use tqtk_price_streaming.Runtime.Readiness.{
  Readiness, construct, mark_connected, set_state, is_ready, has_duplicates, differs, all_true,
}
use tqtk_price_streaming.Runtime.Readiness.Reports.{after}
use tqtk_price_streaming.Runtime.Lifecycle as Lifecycle
use tqtk_price_streaming.Feed.Distributions.{Random}
use tqtk_price_streaming.Feed.Generator.{Conversion}
use tqtk_price_streaming.Feed.Calibration.{Parsing}
use tqtk_price_streaming.Records.Tick.{Tick}
use tqtk_price_streaming.Feed.Concurrent.{SetupError}
use tqtk_price_streaming.Feed.Process.{
  Failure, is_calibration, Act, served, client_closed, Waited, connected, stopped, pending, broke,
  Env, Exit, returned, raised, running, Calibrations, redis_dependency, calibration_dependency,
  wait_for_redis, prepare, ran, feed, publish_all, proceed, after_wait, resume, body, finally_close,
  leave, entered, serve, has_client, begin, no_client, run_service,
}
use tqtk_price_streaming.Feed.Process.Replay.{
  replayed, fed_when_ready, fed_when_ready-append, served_only, Awaited, wait_for_redis-Awaited,
  served-fed_when_ready,
}

-- Readiness(REDIS_DEPENDENCY, CALIBRATION_DEPENDENCY), and after the wait.
abbrev pub initial : Readiness
initial = record { connected = (redis_dependency, false) ∷ (calibration_dependency, false) ∷ [] }

abbrev pub reached : Readiness
reached = record { connected = (redis_dependency, true) ∷ (calibration_dependency, false) ∷ [] }

abbrev pub both : Readiness
both = record { connected = (redis_dependency, true) ∷ (calibration_dependency, true) ∷ [] }

pub construct-initial : construct (redis_dependency ∷ calibration_dependency ∷ []) ≡ ok initial
unfolding construct has_duplicates any list_beq
construct-initial = refl

after-initial : after (redis_dependency, true) initial ≡ reached
unfolding after set_state get put list_beq
after-initial = refl

after-reached : after (calibration_dependency, true) reached ≡ both
unfolding after set_state get put list_beq
after-reached = refl

mark_connected-reached :
    mark_connected calibration_dependency reached
    ≡ ok (both, record { dependency = calibration_dependency; connected = true } ∷ [])
unfolding mark_connected set_state get put differs list_beq
mark_connected-reached = refl

both-is_ready : is_ready both ≡ true
unfolding is_ready all_true
both-is_ready = refl

module _ (fl : Floats) (rng : Random fl) (conv : Conversion fl) (ps : Parsing) where
  ran-fed_when_ready :
      (env : Env fl rng) (calibrations : Calibrations fl rng conv ps) (selected : List Str)
      (made : Result SetupError (List (Tick fl.Float))) (r : Readiness)
      → is_ready r ≡ true
      → fed_when_ready (ran fl rng conv ps env calibrations selected made).0 r ≡ true
  unfolding ran fed_when_ready
  ran-fed_when_ready env calibrations selected (err e) r h = refl
  ran-fed_when_ready env calibrations selected (ok entries) r h = ground arith

  -- The acts before readiness hold no entries.
  proceed-fed_when_ready :
      (env : Env fl rng) (prepared : Result Failure (Calibrations fl rng conv ps × List Str))
      → fed_when_ready (proceed fl rng conv ps env reached prepared).0 reached ≡ true
  unfolding proceed publish_all feed fed_when_ready
  proceed-fed_when_ready env (err e) = elim (Bool-cases (is_calibration e)) [
    | inl h ↦ rw h refl
    | inr h ↦ rw h refl
  ]
  proceed-fed_when_ready env (ok (calibrations, selected)) =
      subst
        (λ m.
          fed_when_ready (publish_all fl rng conv ps env calibrations selected m).0 reached ≡ true)
        (sym mark_connected-reached)
        (subst (λ r. fed_when_ready (feed fl rng conv ps env calibrations selected).0 r ≡ true)
          (sym after-reached) (ran-fed_when_ready env calibrations selected _ both both-is_ready))

  after_wait-fed_when_ready :
      (env : Env fl rng) → fed_when_ready (after_wait fl rng conv ps env reached).0 reached ≡ true
  unfolding after_wait fed_when_ready
  after_wait-fed_when_ready env = by_stop env.stop
    where
      by_stop :
          (stop : Bool)
          → fed_when_ready
              (if stop
                then ([], returned)
                else proceed fl rng conv ps env reached (prepare fl rng conv ps env)).0
              reached
            ≡ true
      by_stop true = refl
      by_stop false = proceed-fed_when_ready env (prepare fl rng conv ps env)

  resume-fed_when_ready :
      (env : Env fl rng) (o : List (Act fl.Float) × Waited)
      → Awaited initial o
      → fed_when_ready (resume fl rng conv ps env o).0 initial ≡ true
  unfolding resume
  resume-fed_when_ready env (acts, connected r) h =
      let (there, now) = h.marks r refl in
      let here : r ≡ reached = now ∙ after-initial in
      fed_when_ready-append acts (after_wait fl rng conv ps env r).0 initial
      ∙ (ground (
        arith,
        h.quiet,
        subst (λ x. fed_when_ready (after_wait fl rng conv ps env x).0 x ≡ true) (sym here)
            (after_wait-fed_when_ready env),
        there,
      ))
  resume-fed_when_ready env (acts, stopped) h = h.quiet
  resume-fed_when_ready env (acts, broke e) h = h.quiet
  resume-fed_when_ready env (acts, pending) h = h.quiet

  closing-fed_when_ready :
      (given_client : Bool) (acts : List (Act fl.Float)) (server : Lifecycle.RuntimeServer)
      (r : Readiness)
      → fed_when_ready acts r ≡ true
      → fed_when_ready
          ((acts ++ (if given_client then [] else client_closed ∷ []))
            ++ map served (Lifecycle.stop server).events)
          r
        ≡ true
  unfolding fed_when_ready
  closing-fed_when_ready given_client acts server r h =
      let closed = fed_when_ready-append acts (if given_client then [] else client_closed ∷ []) r in
      let all_of =
        fed_when_ready-append (acts ++ (if given_client then [] else client_closed ∷ []))
          (map served (Lifecycle.stop server).events) r in
      let quiet =
        served-fed_when_ready fl.Float (Lifecycle.stop server).events
          (replayed (acts ++ (if given_client then [] else client_closed ∷ [])) r) in
      ground (arith, quiet)

  finally_close-fed_when_ready :
      (given_client : Bool) (acts : List (Act fl.Float)) (exit : Exit)
      (server : Lifecycle.RuntimeServer)
      → fed_when_ready acts initial ≡ true
      → fed_when_ready
          (finally_close fl rng conv ps given_client acts exit ++ leave fl rng conv ps server exit)
          initial
        ≡ true
  unfolding finally_close leave fed_when_ready
  finally_close-fed_when_ready given_client acts running server h =
      fed_when_ready-append acts [] initial ∙ ground arith
  finally_close-fed_when_ready given_client acts returned server h =
      closing-fed_when_ready given_client acts server initial h
  finally_close-fed_when_ready given_client acts (raised e) server h =
      closing-fed_when_ready given_client acts server initial h

  entered-fed_when_ready :
      (env : Env fl rng) (o : Lifecycle.Outcome) (started : Result Lifecycle.ServerError (Unit {0}))
      (inside : List (Act fl.Float) × Exit)
      → fed_when_ready inside.0 initial ≡ true
      → fed_when_ready (entered fl rng conv ps env o started inside).0 initial ≡ true
  unfolding entered
  entered-fed_when_ready env o (err e) inside h = served-fed_when_ready fl.Float o.events initial
  entered-fed_when_ready env o (ok _) (acts, exit) h =
      served_only o.events
        (finally_close fl rng conv ps env.given_client acts exit
          ++ leave fl rng conv ps o.server exit)
        initial
      ∙ finally_close-fed_when_ready env.given_client acts exit o.server h

  -- A run, by whether it has a client.
  pub run_service-by_client :
      (P : List (Act fl.Float) × Exit → Type 0) (env : Env fl rng)
      → (has_client fl rng conv ps env ≡ false → P ([], raised no_client))
      → (has_client fl rng conv ps env ≡ true → P (serve fl rng conv ps env initial))
      → P (run_service fl rng conv ps env)
  unfolding run_service begin
  run_service-by_client P env without with_one =
      subst (λ c. P (begin fl rng conv ps env c)) (sym construct-initial)
        (elim (Bool-cases (has_client fl rng conv ps env)) [
          | inl e ↦ rw e (with_one e)
          | inr e ↦ rw e (without e)
        ])

  -- Whatever the outside makes of a run, `/ready` answers that the process is ready when the
  -- feed runs: both dependencies are marked before.
  pub run_service-fed_when_ready :
      (env : Env fl rng) → fed_when_ready (run_service fl rng conv ps env).0 initial ≡ true
  unfolding serve body fed_when_ready
  run_service-fed_when_ready env =
      let o = Lifecycle.start env.host Lifecycle.fresh in
      let waited = wait_for_redis false env.attempts initial in
      run_service-by_client (λ r. fed_when_ready r.0 initial ≡ true) env (λ _. refl)
        (λ _.
          entered-fed_when_ready env o o.result (body fl rng conv ps env initial)
            (resume-fed_when_ready env waited (wait_for_redis-Awaited false env.attempts initial)))
