-- ===== src/Feed/Main/Ended.antt =====
-- __main__.py, with config.py, logs.py and server.py: how `main` ends.
use tqtk_price_streaming.Prelude.{
  ◌≡◌, ◌≢◌, ◌↔◌, refl, sym, subst, ap, ◌∙◌, Bool, true, false, none, some, List, [], ◌∷◌, ◌++◌, map,
  ok,
}
use tqtk_price_streaming.Prelude.Text.{Str}
use tqtk_price_streaming.Records.Floats.{Floats}
use tqtk_price_streaming.Runtime.Lifecycle.Trace.{listens}
use tqtk_price_streaming.Config.{Environ}
use tqtk_price_streaming.Logs.{Root}
use tqtk_price_streaming.Feed.Distributions.{Random}
use tqtk_price_streaming.Feed.Generator.{Conversion}
use tqtk_price_streaming.Feed.Concurrent.{SetupError}
use tqtk_price_streaming.Feed.Calibration.{Parsing}
use tqtk_price_streaming.Feed.Config.{FeedConfig, Numbers}
use tqtk_price_streaming.Feed.Config.Valid.{IsFeed, feed_config_iff}
use tqtk_price_streaming.Feed.Process.{
  Act, Exit, returned, raised, running, setup_failed, run_service,
}
use tqtk_price_streaming.Feed.Process.Release.{server_events, left_bound, run_service-released}
use tqtk_price_streaming.Feed.Process.Setup.{run_service_setup}
use tqtk_price_streaming.Feed.Main.{
  World, Step, starting_logged, did, stopped_logged, finished, Run, closing_line, env_of, start_up,
  main,
}

module _ {F : Type 0} where
  -- What the service did.
  unfoldable pub acts_of : List (Step F) → List (Act F)
  acts_of [] = []
  acts_of (did act ∷ steps) = act ∷ acts_of steps
  acts_of (starting_logged _ ∷ steps) = acts_of steps
  acts_of (stopped_logged _ ∷ steps) = acts_of steps

  unfoldable pub logs_stop : List (Step F) → Bool
  logs_stop [] = false
  logs_stop (stopped_logged _ ∷ steps) = true
  logs_stop (did _ ∷ steps) = logs_stop steps
  logs_stop (starting_logged _ ∷ steps) = logs_stop steps

  acts_of-did :
      (acts : List (Act F)) (name : Str) (exit : Exit)
      → acts_of (map did acts ++ closing_line name exit) ≡ acts
  unfolding acts_of closing_line
  acts_of-did [] name returned = refl
  acts_of-did [] name (raised e) = refl
  acts_of-did [] name running = refl
  acts_of-did (act ∷ acts) name exit = ap (◌∷◌ act) (acts_of-did acts name exit)

  logs_stop-did :
      (acts : List (Act F)) (name : Str) (exit : Exit)
      → (logs_stop (map did acts ++ closing_line name exit) ≡ true) ↔ (exit ≡ returned)
  unfolding logs_stop closing_line
  logs_stop-did [] name returned = (λ _. refl, λ _. refl)
  logs_stop-did [] name (raised e) = (λ h. cc, λ h. cc)
  logs_stop-did [] name running = (λ h. cc, λ h. cc)
  logs_stop-did (act ∷ acts) name exit = logs_stop-did acts name exit

module _ (fl : Floats) (rng : Random fl) (conv : Conversion fl) (ps : Parsing)
    (numbers : Numbers fl) where
  -- What is said of a run of `main`, with the machine that it is on.
  abbrev Ended : World fl rng → FeedConfig fl.Float → Exit → Run fl.Float → Type 0
  Ended world config exit run =
      let env = env_of fl rng conv ps numbers config world in
      (listens none (server_events (acts_of run.steps)) ≡ some (left_bound fl rng conv ps env))
      × ((logs_stop run.steps ≡ true) ↔ (exit ≡ returned))
      × ((e : SetupError) → exit ≢ raised (setup_failed e))

  start_up-Ended :
      (root : Root) (world : World fl rng) (config : FeedConfig fl.Float) (exit : Exit)
      → (start_up fl rng conv ps numbers root world (ok config)).ending ≡ finished exit
      → exit ≢ running
      → Ended world config exit (start_up fl rng conv ps numbers root world (ok config))
  unfolding start_up env_of acts_of logs_stop
  start_up-Ended root world config exit ended over =
      let env = env_of fl rng conv ps numbers config world in
      let ran = run_service fl rng conv ps env in
      let same : ran.1 ≡ exit = cc ended in
      let name = config.service.service_name in
      let (free, closed) =
        run_service-released fl rng conv ps env (λ still. over (sym same ∙ still)) in
      (
        ap (λ acts. listens none (server_events acts)) (acts_of-did ran.0 name ran.1) ∙ free,
        subst (λ x. (logs_stop (map did ran.0 ++ closing_line name ran.1) ≡ true) ↔ (x ≡ returned))
            same (logs_stop-did ran.0 name ran.1),
        λ e failed.
            let chosen : env.symbols ≡ some [] =
              run_service_setup fl rng conv ps env e (same ∙ failed) in
            cc chosen,
      )

  -- A `main` with valid settings that has ended, by a return or an exception, leaves nothing
  -- listening but the port of a server whose thread did not start, and not that either if the
  -- Redis URL was refused; it has logged that it stopped exactly if the run returned; and it
  -- never ends with an error of the feed's set-up.
  pub main_ended :
      (environ : Environ) (root : Root) (world : World fl rng) (config : FeedConfig fl.Float)
      (exit : Exit)
      → IsFeed fl numbers environ config
      → (main fl rng conv ps numbers environ root world).ending ≡ finished exit
      → exit ≢ running
      → let run = main fl rng conv ps numbers environ root world in
        let env = env_of fl rng conv ps numbers config world in
        (listens none (server_events (acts_of run.steps)) ≡ some (left_bound fl rng conv ps env))
        × ((logs_stop run.steps ≡ true) ↔ (exit ≡ returned))
        × ((e : SetupError) → exit ≢ raised (setup_failed e))
  unfolding main
  main_ended environ root world config exit feed ended over =
      let configured = (feed_config_iff fl numbers environ config).1 feed in
      subst (λ c. Ended world config exit (start_up fl rng conv ps numbers root world c))
        (sym configured)
        (start_up-Ended root world config exit
          (subst (λ c. (start_up fl rng conv ps numbers root world c).ending ≡ finished exit)
            configured ended)
          over)
