-- ===== src/Feed/Process/Production.antt =====
-- __main__.py, with generator.py, calibration_store.py and delivery.py: a consumer that reads what a
-- run adds.
use tqtk_price_streaming.Prelude.{
  ◌≡◌, refl, sym, subst, ap, ◌∙◌, ◌⊎◌, Bool, true, false, Option, none, some, List, [], ◌∷◌, ◌++◌,
  All, map, Result, ok, err, >>=-eq-ok, inl, inr, arith, if◌then◌else◌,
}
use mathlib.Core.List.{append-nil}
use tqtk_price_streaming.Prelude.Text.{Str, str_eq, str_leb}
use tqtk_price_streaming.Prelude.Dict.{keys}
use tqtk_price_streaming.Prelude.Sorting.{AllDistinct, sorted-AllDistinct}
use tqtk_price_streaming.Records.Floats.{Floats}
use tqtk_price_streaming.Records.Tick.{Tick}
use tqtk_price_streaming.Session
use tqtk_price_streaming.Delivery.{DeliveryTracker, observe_all}
use tqtk_price_streaming.Delivery.EndToEnd.{IsQuiet, Synced}
use tqtk_price_streaming.Runtime.Readiness.{Readiness, ReadinessError, mark_connected}
use tqtk_price_streaming.Runtime.Lifecycle as Lifecycle
use tqtk_price_streaming.Feed.Distributions.{Random}
use tqtk_price_streaming.Feed.Generator.{Conversion}
use tqtk_price_streaming.Feed.Concurrent.{SetupError, run_synthetic_feed}
use tqtk_price_streaming.Feed.Concurrent.Quiet.{feed_no_alarm}
use tqtk_price_streaming.Feed.Calibration.{Parsing, Replies, CalibrationError}
use tqtk_price_streaming.Feed.Calibration.Load.{discover, load}
use tqtk_price_streaming.Feed.Calibration.Keys.{files_of, load-keys}
use tqtk_price_streaming.Feed.Process.Ready.{initial, run_service-by_client}
use tqtk_price_streaming.Feed.Process.{
  Failure, is_calibration, Act, served, error_logged, client_closed, Waited, connected, stopped,
  pending, broke, Env, Exit, returned, raised, running, Calibrations, calibration_dependency,
  wait_for_redis, lift_loaded, lacking, load_calibrations, check_selected, selected_of, prepare,
  ran, feed, publish_all, proceed, after_wait, resume, body, finally_close, leave, entered, serve,
  run_service,
}
use tqtk_price_streaming.Feed.Process.Entries.{
  entries_of, IsSilent, entries_of-silent, entries_of-then_silent, silent-nil, served-IsSilent,
  wait_for_redis-IsSilent,
}

module _ (fl : Floats) (rng : Random fl) (conv : Conversion fl) (ps : Parsing) where
  -- Nothing, or what `run_synthetic_feed` adds for what `prepare` returned.
  abbrev Fed : Env fl rng → List (Tick fl.Float) → Type 0
  Fed env ticks =
      (ticks ≡ [])
      ⊎ ((prepared : Calibrations fl rng conv ps × List Str) × (prepare fl rng conv ps env
            ≡ ok prepared)
          × (run_synthetic_feed fl rng conv prepared.1 env.tick_rate_per_symbol prepared.0
                (Session.start env.session_id) env.seeds env.hashing none none env.events
              ≡ ok ticks))

  ran-Fed :
      (env : Env fl rng) (calibrations : Calibrations fl rng conv ps) (selected : List Str)
      (made : Result SetupError (List (Tick fl.Float)))
      → prepare fl rng conv ps env ≡ ok (calibrations, selected)
      → run_synthetic_feed fl rng conv selected env.tick_rate_per_symbol calibrations
          (Session.start env.session_id)
          env.seeds
          env.hashing
          none
          none
          env.events
        ≡ made
      → Fed env (entries_of fl.Float (ran fl rng conv ps env calibrations selected made).0)
  unfolding ran entries_of
  ran-Fed env calibrations selected (err e) h k = inl refl
  ran-Fed env calibrations selected (ok ticks) h k =
      inr ((calibrations, selected), h, k ∙ ap ok (sym (append-nil ticks)))

  proceed-Fed :
      (env : Env fl rng) (readiness : Readiness)
      (prepared : Result Failure (Calibrations fl rng conv ps × List Str))
      → prepare fl rng conv ps env ≡ prepared
      → Fed env (entries_of fl.Float (proceed fl rng conv ps env readiness prepared).0)
  unfolding proceed entries_of feed ran
  proceed-Fed env readiness (err e) h = inl (logged (is_calibration e))
    where
      logged : (b : Bool) → entries_of fl.Float (if b then error_logged e ∷ [] else []) ≡ []
      logged true = refl
      logged false = refl
  proceed-Fed env readiness (ok (calibrations, selected)) h =
      marks (mark_connected calibration_dependency readiness)
    where
      marks :
          {L : Type 0} (m : Result ReadinessError L)
          → Fed env (entries_of fl.Float (publish_all fl rng conv ps env calibrations selected m).0)
      marks (err e) = inl refl
      marks (ok l) = ran-Fed env calibrations selected _ h refl

  after_wait-Fed :
      (env : Env fl rng) (readiness : Readiness)
      → Fed env (entries_of fl.Float (after_wait fl rng conv ps env readiness).0)
  unfolding after_wait entries_of
  after_wait-Fed env readiness = by_stop env.stop
    where
      by_stop :
          (stop : Bool)
          → Fed env (
              entries_of fl.Float
                (if stop
                  then ([], returned)
                  else proceed fl rng conv ps env readiness (prepare fl rng conv ps env)).0)
      by_stop true = inl refl
      by_stop false = proceed-Fed env readiness (prepare fl rng conv ps env) refl

  resume-Fed :
      (env : Env fl rng) (o : List (Act fl.Float) × Waited)
      → All (IsSilent fl.Float) o.0
      → Fed env (entries_of fl.Float (resume fl rng conv ps env o).0)
  unfolding resume
  resume-Fed env (acts, connected r) h =
      subst (Fed env) (sym (entries_of-silent fl.Float acts (after_wait fl rng conv ps env r).0 h))
        (after_wait-Fed env r)
  resume-Fed env (acts, stopped) h = inl (silent-nil fl.Float acts h)
  resume-Fed env (acts, broke e) h = inl (silent-nil fl.Float acts h)
  resume-Fed env (acts, pending) h = inl (silent-nil fl.Float acts h)

  closing-IsSilent :
      (given_client : Bool)
      → All (IsSilent fl.Float) (if given_client then [] else client_closed ∷ [])
  closing-IsSilent true = tt
  closing-IsSilent false = (tt, tt)

  -- What closes the client and the server adds no entries.
  finally_close-entries :
      (given_client : Bool) (acts : List (Act fl.Float)) (exit : Exit)
      (server : Lifecycle.RuntimeServer)
      → entries_of fl.Float
          (finally_close fl rng conv ps given_client acts exit ++ leave fl rng conv ps server exit)
        ≡ entries_of fl.Float acts
  unfolding finally_close leave
  finally_close-entries given_client acts running server =
      ap (entries_of fl.Float) (append-nil acts)
  finally_close-entries given_client acts returned server =
      entries_of-then_silent fl.Float _ (map served (Lifecycle.stop server).events)
        (served-IsSilent fl.Float (Lifecycle.stop server).events)
      ∙ entries_of-then_silent fl.Float acts _ (closing-IsSilent given_client)
  finally_close-entries given_client acts (raised e) server =
      entries_of-then_silent fl.Float _ (map served (Lifecycle.stop server).events)
        (served-IsSilent fl.Float (Lifecycle.stop server).events)
      ∙ entries_of-then_silent fl.Float acts _ (closing-IsSilent given_client)

  entered-Fed :
      (env : Env fl rng) (o : Lifecycle.Outcome) (started : Result Lifecycle.ServerError (Unit {0}))
      (inside : List (Act fl.Float) × Exit)
      → Fed env (entries_of fl.Float inside.0)
      → Fed env (entries_of fl.Float (entered fl rng conv ps env o started inside).0)
  unfolding entered
  entered-Fed env o (err e) inside h =
      inl (silent-nil fl.Float (map served o.events) (served-IsSilent fl.Float o.events))
  entered-Fed env o (ok _) (acts, exit) h =
      subst (Fed env)
        (sym (
          entries_of-silent fl.Float (map served o.events) _ (served-IsSilent fl.Float o.events)
          ∙ finally_close-entries env.given_client acts exit o.server))
        h

  run_service-Fed :
      (env : Env fl rng) → Fed env (entries_of fl.Float (run_service fl rng conv ps env).0)
  unfolding serve body entries_of
  run_service-Fed env =
      let o = Lifecycle.start env.host Lifecycle.fresh in
      let waited = wait_for_redis false env.attempts initial in
      run_service-by_client fl rng conv ps (λ r. Fed env (entries_of fl.Float r.0)) env
        (λ _. inl refl)
        (λ _.
          entered-Fed env o o.result (body fl rng conv ps env initial)
            (resume-Fed env waited (wait_for_redis-IsSilent fl.Float false env.attempts initial)))

  -- The symbols that a caller may choose are distinct.
  abbrev pub Chosen : Option (List Str) → Type 0
  Chosen none = Unit
  Chosen (some symbols) = AllDistinct symbols

  pub lift_loaded-ok :
      (r : Result CalibrationError (Calibrations fl rng conv ps))
      {calibrations : Calibrations fl rng conv ps}
      → lift_loaded fl rng conv ps r ≡ ok calibrations
      → r ≡ ok calibrations
  unfolding lift_loaded
  lift_loaded-ok (ok c) h = cc
  lift_loaded-ok (err e) h = absurd cc

  load_calibrations-AllDistinct :
      (store : Option (Replies × Replies × Replies)) {calibrations : Calibrations fl rng conv ps}
      → load_calibrations fl rng conv ps store ≡ ok calibrations
      → AllDistinct (keys calibrations)
  unfolding load_calibrations load
  load_calibrations-AllDistinct none h = absurd cc
  load_calibrations-AllDistinct (some (discovery, heads, params)) h =
      let made = lift_loaded-ok (load fl conv ps discovery heads params) h in
      let (venues, found, _) = >>=-eq-ok (discover ps discovery) _ made in
      let (distinct, keyed) = load-keys fl conv ps discovery heads params found made in
      subst AllDistinct (sym keyed) (sorted-AllDistinct str_leb (files_of venues) distinct)

  selected_of-AllDistinct :
      (symbols : Option (List Str)) (calibrations : Calibrations fl rng conv ps)
      → Chosen symbols
      → AllDistinct (keys calibrations)
      → AllDistinct (selected_of fl rng conv ps symbols calibrations)
  unfolding selected_of
  selected_of-AllDistinct none calibrations chosen h = h
  selected_of-AllDistinct (some symbols) calibrations chosen h = chosen

  pub prepare-ok :
      (env : Env fl rng) {calibrations : Calibrations fl rng conv ps} {selected : List Str}
      → prepare fl rng conv ps env ≡ ok (calibrations, selected)
      → (load_calibrations fl rng conv ps env.store ≡ ok calibrations)
        × (selected ≡ selected_of fl rng conv ps env.symbols calibrations)
        × (check_selected fl rng conv ps (lacking fl rng conv ps selected calibrations) ≡ ok tt)
  unfolding prepare
  prepare-ok env {calibrations = calibrations} {selected = selected} h =
      let (loaded, held, h1) = >>=-eq-ok (load_calibrations fl rng conv ps env.store) _ h in
      let chosen = selected_of fl rng conv ps env.symbols loaded in
      let (_, checked, h2) =
        >>=-eq-ok (check_selected fl rng conv ps (lacking fl rng conv ps chosen loaded)) _ h1 in
      let same : loaded ≡ calibrations = ground arith in
      let same' : chosen ≡ selected = ground arith in (cc, cc, cc)

  prepare-AllDistinct :
      (env : Env fl rng) {calibrations : Calibrations fl rng conv ps} {selected : List Str}
      → Chosen env.symbols
      → prepare fl rng conv ps env ≡ ok (calibrations, selected)
      → AllDistinct selected
  prepare-AllDistinct env {calibrations = calibrations} chosen h =
      let (held, same, _) = prepare-ok env h in
      subst AllDistinct (sym same) (
        selected_of-AllDistinct env.symbols calibrations chosen
          (load_calibrations-AllDistinct env.store held))

  -- A consumer that has seen nothing of a run's session and reads all that the run adds, in the
  -- order in which it is added, is given no gap, no duplicate and no missing record, for all
  -- symbols of the store or distinct ones that are chosen, and however the run ends.
  pub run_service_no_alarm :
      (env : Env fl rng) (tracker : DeliveryTracker)
      → Chosen env.symbols
      → Synced (Session.start env.session_id) tracker
      → All IsQuiet (observe_all (entries_of fl.Float (run_service fl rng conv ps env).0) tracker).1
  unfolding observe_all
  run_service_no_alarm env tracker chosen synced = elim (run_service-Fed env) [
    | inl nothing ↦ subst (λ ts. All IsQuiet (observe_all ts tracker).1) (sym nothing) tt
    | inr ((calibrations, selected), prepared, made) ↦
        feed_no_alarm fl rng conv selected env.tick_rate_per_symbol calibrations
          (Session.start env.session_id) env.seeds env.hashing none none env.events tracker
          (prepare-AllDistinct env chosen prepared) synced made
  ]
