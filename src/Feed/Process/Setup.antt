-- ===== src/Feed/Process/Setup.antt =====
-- __main__.py with calibration_store.py and generator.py: when the feed refuses its symbols.
use tqtk_price_streaming.Prelude.{
  suc, ◌≡◌, ◌≢◌, refl, sym, subst, ap, ◌∙◌, Bool, true, false, Option, none, some, List, [], ◌∷◌,
  length, Result, ok, err, ◌>>=◌, >>=-eq-ok, Result-cases, inl, inr, arith, if◌then◌else◌,
}
use tqtk_price_streaming.Prelude.Text.{Str, str_eq, str_leb}
use tqtk_price_streaming.Prelude.Dict.{keys}
use tqtk_price_streaming.Prelude.Sorting.{sorted, length-sorted}
use tqtk_price_streaming.Records.Floats.{Floats}
use tqtk_price_streaming.Records.Tick.{Tick}
use tqtk_price_streaming.Session
use tqtk_price_streaming.Session.{FeedSession}
use tqtk_price_streaming.Runtime.Readiness.{Readiness, ReadinessError, mark_connected}
use tqtk_price_streaming.Runtime.Lifecycle as Lifecycle
use tqtk_price_streaming.Feed.Distributions.{Random}
use tqtk_price_streaming.Feed.Generator.{Conversion}
use tqtk_price_streaming.Feed.Concurrent.{SetupError, check_symbols, Tasks, run_synthetic_feed}
use tqtk_price_streaming.Feed.Calibration.{Parsing, Replies, CalibrationError}
use tqtk_price_streaming.Feed.Calibration.Load.{Venue, discover, load}
use tqtk_price_streaming.Feed.Calibration.Keys.{files_of, load-keys, discover-nonempty}
use tqtk_price_streaming.Feed.Process.Ready.{initial, run_service-by_client}
use tqtk_price_streaming.Feed.Process.Replay.{connect-ok, connect-err}
use tqtk_price_streaming.Feed.Process.Waiting.{wait_for_redis-ind}
use tqtk_price_streaming.Feed.Process.Production.{prepare-ok, lift_loaded-ok}
use tqtk_price_streaming.Feed.Process.{
  Attempt, redis_dependency, connect, Failure, setup_failed, Act, Waited, connected, stopped,
  pending, broke, Env, Exit, returned, raised, Calibrations, calibration_dependency, wait_for_redis,
  lift_loaded, lacking, load_calibrations, check_selected, selected_of, prepare, exit_of, ran, feed,
  publish_all, proceed, after_wait, resume, body, entered, serve, run_service,
}

-- The parts of a chain never raise a failure, and so the chain does not.
chain-ne :
    {A B : Type 0} (m : Result Failure A) (next : A → Result Failure B) (f : Failure)
    → m ≢ err f
    → ((a : A) → next a ≢ err f)
    → (m >>= next) ≢ err f
chain-ne (ok a) next f first later h = later a h
chain-ne (err e) next f first later h = first cc

-- If only the first part of a chain may raise a failure, it has.
chain-err :
    {E A B : Type 0} (m : Result E A) (next : A → Result E B) (f : E)
    → ((a : A) → next a ≢ err f)
    → (m >>= next) ≡ err f
    → m ≡ err f
chain-err (ok a) next f later h = absurd (later a h)
chain-err (err e) next f later h = cc

ok_apart : {E A : Type 0} (a : A) (f : E) → ok a ≢ err f
ok_apart a f h = absurd cc

sorted-nil : (xs : List Str) → sorted str_leb xs ≡ [] → xs ≡ []
sorted-nil [] h = refl
sorted-nil (x ∷ xs) h =
    let counted : 0 ≡ suc (length xs) = ap length (sym h) ∙ length-sorted str_leb (x ∷ xs) in
    absurd (omega arith)

module _ (fl : Floats) (rng : Random fl) (conv : Conversion fl) (ps : Parsing) where
  exit_of-setup :
      (tasks : Tasks fl rng conv) (e : SetupError)
      → exit_of fl rng conv ps tasks ≢ raised (setup_failed e)
  unfolding exit_of
  exit_of-setup tasks e h = absurd (ground arith)

  -- What the feed was given when it refused its symbols.
  abbrev Refused : Env fl rng → Type 0
  Refused env =
      (prepared : Calibrations fl rng conv ps × List Str) × (e : SetupError) × (prepare fl rng conv
          ps env
        ≡ ok prepared)
      × (run_synthetic_feed fl rng conv prepared.1 env.tick_rate_per_symbol prepared.0
            (Session.start env.session_id) env.seeds env.hashing none none env.events
          ≡ err e)

  ran-Refused :
      (env : Env fl rng) (calibrations : Calibrations fl rng conv ps) (selected : List Str)
      (made : Result SetupError (List (Tick fl.Float))) (e : SetupError)
      → prepare fl rng conv ps env ≡ ok (calibrations, selected)
      → run_synthetic_feed fl rng conv selected env.tick_rate_per_symbol calibrations
          (Session.start env.session_id)
          env.seeds
          env.hashing
          none
          none
          env.events
        ≡ made
      → (ran fl rng conv ps env calibrations selected made).1 ≡ raised (setup_failed e)
      → Refused env
  unfolding ran
  ran-Refused env calibrations selected (err e') e h k x = ((calibrations, selected), e', h, k)
  ran-Refused env calibrations selected (ok ticks) e h k x = absurd (exit_of-setup _ e x)

  load_calibrations-ne :
      (store : Option (Replies × Replies × Replies)) (e : SetupError)
      → load_calibrations fl rng conv ps store ≢ err (setup_failed e)
  unfolding load_calibrations lift_loaded
  load_calibrations-ne none e h = absurd cc
  load_calibrations-ne (some (discovery, heads, params)) e h =
      lifted (load fl conv ps discovery heads params) h
    where
      lifted :
          (r : Result CalibrationError (Calibrations fl rng conv ps))
          → lift_loaded fl rng conv ps r ≢ err (setup_failed e)
      lifted (ok c) k = absurd cc
      lifted (err f) k = absurd cc

  check_selected-ne :
      (missing : List Str) (e : SetupError)
      → check_selected fl rng conv ps missing ≢ err (setup_failed e)
  unfolding check_selected
  check_selected-ne [] e h = absurd cc
  check_selected-ne (s ∷ missing) e h = absurd cc

  prepare-ne :
      (env : Env fl rng) (e : SetupError) → prepare fl rng conv ps env ≢ err (setup_failed e)
  unfolding prepare
  prepare-ne env e =
      chain-ne (load_calibrations fl rng conv ps env.store) _ (setup_failed e)
        (load_calibrations-ne env.store e)
        (λ c.
          chain-ne (check_selected fl rng conv ps _) _ (setup_failed e) (check_selected-ne _ e)
            (λ u. ok_apart _ (setup_failed e)))

  proceed-Refused :
      (env : Env fl rng) (readiness : Readiness)
      (prepared : Result Failure (Calibrations fl rng conv ps × List Str)) (e : SetupError)
      → prepare fl rng conv ps env ≡ prepared
      → (proceed fl rng conv ps env readiness prepared).1 ≡ raised (setup_failed e)
      → Refused env
  unfolding proceed feed
  proceed-Refused env readiness (err f) e h x =
      let same : f ≡ setup_failed e = cc in absurd (prepare-ne env e (h ∙ ap err same))
  proceed-Refused env readiness (ok (calibrations, selected)) e h x =
      marks (mark_connected calibration_dependency readiness) x
    where
      marks :
          {L : Type 0} (m : Result ReadinessError L)
          → (publish_all fl rng conv ps env calibrations selected m).1 ≡ raised (setup_failed e)
          → Refused env
      marks (err f) y = absurd cc
      marks (ok l) y = ran-Refused env calibrations selected _ e h refl y

  resume-Refused :
      (env : Env fl rng) (o : List (Act fl.Float) × Waited) (e : SetupError)
      → ((f : Failure) → o.1 ≡ broke f → f ≢ setup_failed e)
      → (resume fl rng conv ps env o).1 ≡ raised (setup_failed e)
      → Refused env
  unfolding resume after_wait
  resume-Refused env (acts, connected r) e sound x = by_stop env.stop x
    where
      by_stop :
          (stop : Bool)
          → (if stop
              then ([], returned)
              else proceed fl rng conv ps env r (prepare fl rng conv ps env)).1
            ≡ raised (setup_failed e)
          → Refused env
      by_stop true y = absurd cc
      by_stop false y = proceed-Refused env r (prepare fl rng conv ps env) e refl y
  resume-Refused env (acts, stopped) e sound x = absurd cc
  resume-Refused env (acts, broke f) e sound x =
      let same : f ≡ setup_failed e = cc in absurd (sound f refl same)
  resume-Refused env (acts, pending) e sound x = absurd cc

  entered-Refused :
      (env : Env fl rng) (o : Lifecycle.Outcome) (started : Result Lifecycle.ServerError (Unit {0}))
      (inside : List (Act fl.Float) × Exit) (e : SetupError)
      → (inside.1 ≡ raised (setup_failed e) → Refused env)
      → (entered fl rng conv ps env o started inside).1 ≡ raised (setup_failed e)
      → Refused env
  unfolding entered
  entered-Refused env o (err f) inside e h x = absurd cc
  entered-Refused env o (ok _) (acts, exit) e h x = h x

  connect_sound :
      (notifies : Bool) (readiness : Readiness) (e : SetupError) (f : Failure)
      → (connect {F = fl.Float} notifies readiness).1 ≡ broke f
      → f ≢ setup_failed e
  connect_sound notifies readiness e f =
      elim (Result-cases (mark_connected redis_dependency readiness)) [
        | inl ((r', log), h) ↦
            subst (λ (o : List (Act fl.Float) × Waited). o.1 ≡ broke f → f ≢ setup_failed e)
              (sym (connect-ok notifies readiness r' log h)) (λ k j. absurd cc)
        | inr (x, h) ↦
            subst (λ (o : List (Act fl.Float) × Waited). o.1 ≡ broke f → f ≢ setup_failed e)
              (sym (connect-err notifies readiness x h)) (λ k j. absurd cc)
      ]

  wait_for_redis_sound :
      (attempts : List Attempt) (readiness : Readiness) (e : SetupError) (f : Failure)
      → (wait_for_redis {F = fl.Float} false attempts readiness).1 ≡ broke f
      → f ≢ setup_failed e
  wait_for_redis_sound attempts readiness e f =
      wait_for_redis-ind (λ (o : List (Act fl.Float) × Waited). o.1 ≡ broke f → f ≢ setup_failed e)
        false readiness (λ k j. absurd cc) (λ k j. absurd cc) (λ k j. absurd cc)
        (connect_sound false readiness e f) (λ o h. h) attempts

  check_selected-nil :
      (missing : List Str) → check_selected fl rng conv ps missing ≡ ok tt → missing ≡ []
  unfolding check_selected
  check_selected-nil [] h = refl
  check_selected-nil (s ∷ missing) h = absurd cc

  check_symbols-nil :
      (symbols : List Str) (e : SetupError) → check_symbols symbols [] ≡ err e → symbols ≡ []
  unfolding check_symbols
  check_symbols-nil [] e h = refl
  check_symbols-nil (s ∷ symbols) e h = absurd cc

  -- A feed whose symbols are all calibrated refuses only an empty choice.
  run_synthetic_feed-nil :
      (env : Env fl rng) (calibrations : Calibrations fl rng conv ps) (selected : List Str)
      (e : SetupError)
      → lacking fl rng conv ps selected calibrations ≡ []
      → run_synthetic_feed fl rng conv selected env.tick_rate_per_symbol calibrations
          (Session.start env.session_id)
          env.seeds
          env.hashing
          none
          none
          env.events
        ≡ err e
      → selected ≡ []
  unfolding run_synthetic_feed lacking
  run_synthetic_feed-nil env calibrations selected e none_lacks h =
      let missing = lacking fl rng conv ps selected calibrations in
      let refused : check_symbols selected missing ≡ err e =
        chain-err (check_symbols selected missing) _ e (λ u. ok_apart _ e) h in
      check_symbols-nil selected e
        (subst (λ m. check_symbols selected m ≡ err e) none_lacks refused)

  keys-nonempty :
      (store : Option (Replies × Replies × Replies)) {calibrations : Calibrations fl rng conv ps}
      → load_calibrations fl rng conv ps store ≡ ok calibrations
      → keys calibrations ≢ []
  unfolding load_calibrations load
  keys-nonempty none h no_keys = absurd cc
  keys-nonempty (some (discovery, heads, params)) h no_keys =
      let made = lift_loaded-ok fl rng conv ps (load fl conv ps discovery heads params) h in
      let (venues, found, _) = >>=-eq-ok (discover ps discovery) _ made in
      let (_, keyed) = load-keys fl conv ps discovery heads params found made in
      let none_mapped : files_of venues ≡ [] = sorted-nil (files_of venues) (sym keyed ∙ no_keys) in
      discover-nonempty ps discovery found (unmapped venues none_mapped)
    where
      unmapped : (venues : List Venue) → files_of venues ≡ [] → venues ≡ []
      unmapped [] k = refl
      unmapped (v ∷ venues) k = absurd cc

  selected_of-nil :
      (symbols : Option (List Str)) (calibrations : Calibrations fl rng conv ps)
      → keys calibrations ≢ []
      → selected_of fl rng conv ps symbols calibrations ≡ []
      → symbols ≡ some []
  unfolding selected_of
  selected_of-nil none calibrations nonempty h = absurd (nonempty h)
  selected_of-nil (some symbols) calibrations nonempty h = ap some h

  serve_setup :
      (env : Env fl rng) (e : SetupError)
      → (serve fl rng conv ps env initial).1 ≡ raised (setup_failed e)
      → env.symbols ≡ some []
  unfolding serve body
  serve_setup env e serves =
      let o = Lifecycle.start env.host Lifecycle.fresh in
      let ((calibrations, selected), f, prepared, refused) =
        entered-Refused env o o.result (body fl rng conv ps env initial) e
          (resume-Refused env (wait_for_redis false env.attempts initial) e
            (wait_for_redis_sound env.attempts initial e))
          serves in
      let (held, chosen, checked) = prepare-ok fl rng conv ps env prepared in
      let nothing =
        run_synthetic_feed-nil env calibrations selected f (check_selected-nil _ checked) refused in
      selected_of-nil env.symbols calibrations (keys-nonempty env.store held) (sym chosen ∙ nothing)

  -- If the feed refuses its symbols, the caller chose none: every symbol of a store that loads,
  -- and every choice of symbols that `_run_service` lets through, is one that the feed takes.
  pub run_service_setup :
      (env : Env fl rng) (e : SetupError)
      → (run_service fl rng conv ps env).1 ≡ raised (setup_failed e)
      → env.symbols ≡ some []
  run_service_setup env e =
      run_service-by_client fl rng conv ps
        (λ r. r.1 ≡ raised (setup_failed e) → env.symbols ≡ some []) env (λ _ h. cc h)
        (λ _. serve_setup env e)
