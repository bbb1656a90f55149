-- ===== src/Feed/Process/Release.antt =====
-- __main__.py: what a run gives back when it ends, however it ends.
use tqtk_price_streaming.Prelude.{
  ℕ, suc, ◌≡◌, ◌≢◌, refl, sym, subst, ap, ◌∙◌, Bool, true, false, Option, none, some, List, [], ◌∷◌,
  ◌++◌, All, map, Result, ok, err, Result-cases, inl, inr, if◌then◌else◌,
}
use mathlib.Core.List.{append_assoc}
use tqtk_price_streaming.Prelude.Text.{Str}
use tqtk_price_streaming.Records.Floats.{Floats}
use tqtk_price_streaming.Records.Tick.{Tick}
use tqtk_price_streaming.Runtime.Readiness.{Readiness, ReadinessError, mark_connected}
use tqtk_price_streaming.Runtime.Lifecycle as Lifecycle
use tqtk_price_streaming.Runtime.Lifecycle.Trace.{listens}
use tqtk_price_streaming.Feed.Distributions.{Random}
use tqtk_price_streaming.Feed.Generator.{Conversion}
use tqtk_price_streaming.Feed.Concurrent.{SetupError}
use tqtk_price_streaming.Feed.Calibration.{Parsing}
use tqtk_price_streaming.Feed.Process.Waiting.{wait_for_redis-ind}
use tqtk_price_streaming.Feed.Process.Ready.{initial, run_service-by_client}
use tqtk_price_streaming.Feed.Process.Replay.{connect-ok, connect-err}
use tqtk_price_streaming.Feed.Process.{
  Attempt, redis_dependency, Failure, is_calibration, Act, retried, marked, notified, served,
  error_logged, fed, client_closed, Waited, connected, stopped, pending, broke, Env, Exit, returned,
  raised, running, Calibrations, connect, wait_for_redis, prepare, ran, feed, publish_all, proceed,
  after_wait, resume, body, finally_close, leave, entered, serve, has_client, run_service,
}

module _ {F : Type 0} where
  -- What the run does to the socket and the thread of its server.
  unfoldable pub server_events : List (Act F) → List Lifecycle.Event
  server_events [] = []
  server_events (served e ∷ acts) = e ∷ server_events acts
  server_events (_ ∷ acts) = server_events acts

  unfoldable pub closes : List (Act F) → ℕ
  closes [] = 0
  closes (client_closed ∷ acts) = suc (closes acts)
  closes (_ ∷ acts) = closes acts

  -- An act that neither touches the server nor closes the client.
  abbrev IsInner : Act F → Type 0
  IsInner (served e) = ⊥
  IsInner client_closed = ⊥
  IsInner _ = Unit

  All-append : (xs ys : List (Act F)) → All IsInner xs → All IsInner ys → All IsInner (xs ++ ys)
  All-append [] ys h k = k
  All-append (x ∷ xs) ys h k = (h.0, All-append xs ys h.1 k)

  inner_then :
      (xs ys : List (Act F))
      → All IsInner xs
      → (server_events (xs ++ ys) ≡ server_events ys) × (closes (xs ++ ys) ≡ closes ys)
  unfolding server_events closes
  inner_then [] ys h = (refl, refl)
  inner_then (retried ∷ xs) ys h = inner_then xs ys h.1
  inner_then (marked d ∷ xs) ys h = inner_then xs ys h.1
  inner_then (notified ∷ xs) ys h = inner_then xs ys h.1
  inner_then (served e ∷ xs) ys h = absurd h.0
  inner_then (error_logged e ∷ xs) ys h = inner_then xs ys h.1
  inner_then (fed ts ∷ xs) ys h = inner_then xs ys h.1
  inner_then (client_closed ∷ xs) ys h = absurd h.0

  served_then :
      (es : List Lifecycle.Event) (ys : List (Act F))
      → (server_events (map served es ++ ys) ≡ es ++ server_events ys)
        × (closes (map served es ++ ys) ≡ closes ys)
  unfolding server_events closes
  served_then [] ys = (refl, refl)
  served_then (e ∷ es) ys = let (events, count) = served_then es ys in (ap (◌∷◌ e) events, count)

module _ (F : Type 0) where
  connect-IsInner :
      (notifies : Bool) (readiness : Readiness)
      → All (IsInner {F = F}) (connect {F = F} notifies readiness).0
  connect-IsInner notifies readiness =
      elim (Result-cases (mark_connected redis_dependency readiness)) [
        | inl ((r', log), h) ↦
            subst (λ (o : List (Act F) × Waited). All (IsInner {F = F}) o.0)
              (sym (connect-ok notifies readiness r' log h)) (by_notifies notifies)
        | inr (e, h) ↦
            subst (λ (o : List (Act F) × Waited). All (IsInner {F = F}) o.0)
              (sym (connect-err notifies readiness e h)) tt
      ]
    where
      by_notifies :
          (b : Bool)
          → All (IsInner {F = F}) (marked redis_dependency ∷ (if b then notified ∷ [] else []))
      by_notifies true = (tt, (tt, tt))
      by_notifies false = (tt, tt)

  wait_for_redis-IsInner :
      (notifies : Bool) (attempts : List Attempt) (readiness : Readiness)
      → All (IsInner {F = F}) (wait_for_redis {F = F} notifies attempts readiness).0
  wait_for_redis-IsInner notifies attempts readiness =
      wait_for_redis-ind (λ (o : List (Act F) × Waited). All (IsInner {F = F}) o.0) notifies
        readiness tt tt tt (connect-IsInner notifies readiness) (λ o h. (tt, h)) attempts

-- The port of a server that binds and whose thread does not start.
abbrev pub unstarted_port : Lifecycle.Host → Option ℕ
unstarted_port host = elim host.bind [
  | none ↦ none
  | some port ↦ if host.thread_starts then none else some port
]

module _ (fl : Floats) (rng : Random fl) (conv : Conversion fl) (ps : Parsing) where
  ran-IsInner :
      (env : Env fl rng) (calibrations : Calibrations fl rng conv ps) (selected : List Str)
      (made : Result SetupError (List (Tick fl.Float)))
      → All IsInner (ran fl rng conv ps env calibrations selected made).0
  unfolding ran
  ran-IsInner env calibrations selected (err e) = tt
  ran-IsInner env calibrations selected (ok entries) = (tt, tt)

  publish_all-IsInner :
      {L : Type 0} (env : Env fl rng) (calibrations : Calibrations fl rng conv ps)
      (selected : List Str) (m : Result ReadinessError L)
      → All IsInner (publish_all fl rng conv ps env calibrations selected m).0
  unfolding publish_all feed
  publish_all-IsInner env calibrations selected (err e) = tt
  publish_all-IsInner env calibrations selected (ok l) =
      (tt, ran-IsInner env calibrations selected _)

  proceed-IsInner :
      (env : Env fl rng) (readiness : Readiness)
      (prepared : Result Failure (Calibrations fl rng conv ps × List Str))
      → All IsInner (proceed fl rng conv ps env readiness prepared).0
  unfolding proceed
  proceed-IsInner env readiness (err e) = logged (is_calibration e)
    where
      logged : (b : Bool) → All (IsInner {F = fl.Float}) (if b then error_logged e ∷ [] else [])
      logged true = (tt, tt)
      logged false = tt
  proceed-IsInner env readiness (ok (calibrations, selected)) =
      publish_all-IsInner env calibrations selected _

  after_wait-IsInner :
      (env : Env fl rng) (readiness : Readiness)
      → All IsInner (after_wait fl rng conv ps env readiness).0
  unfolding after_wait
  after_wait-IsInner env readiness = by_stop env.stop
    where
      by_stop :
          (stop : Bool)
          → All IsInner
              (if stop
                then ([], returned)
                else proceed fl rng conv ps env readiness (prepare fl rng conv ps env)).0
      by_stop true = tt
      by_stop false = proceed-IsInner env readiness (prepare fl rng conv ps env)

  resume-IsInner :
      (env : Env fl rng) (o : List (Act fl.Float) × Waited)
      → All IsInner o.0
      → All IsInner (resume fl rng conv ps env o).0
  unfolding resume
  resume-IsInner env (acts, connected r) h =
      All-append acts (after_wait fl rng conv ps env r).0 h (after_wait-IsInner env r)
  resume-IsInner env (acts, stopped) h = h
  resume-IsInner env (acts, broke e) h = h
  resume-IsInner env (acts, pending) h = h

  -- How often a run closes a client.
  abbrev pub closings : Env fl rng → ℕ
  closings env =
      if has_client fl rng conv ps env
      then (elim env.host.bind [
        | none ↦ 0
        | some port ↦ if env.host.thread_starts then (if env.given_client then 0 else 1) else 0
      ])
      else 0

  -- The port that is still bound at the end of a run: none if it had no client to start with.
  abbrev pub left_bound : Env fl rng → Option ℕ
  left_bound env = if has_client fl rng conv ps env then unstarted_port env.host else none

  all_served :
      (es : List Lifecycle.Event)
      → (server_events {F = fl.Float} (map served es) ≡ es)
        × (closes {F = fl.Float} (map served es) ≡ 0)
  unfolding server_events closes
  all_served [] = (refl, refl)
  all_served (e ∷ es) = let (events, count) = all_served es in (ap (◌∷◌ e) events, count)

  released :
      (given_client : Bool) (acts : List (Act fl.Float)) (es : List Lifecycle.Event)
      → All IsInner acts
      → (server_events
            ((acts ++ (if given_client then [] else client_closed ∷ [])) ++ map served es)
          ≡ es)
        × (closes ((acts ++ (if given_client then [] else client_closed ∷ [])) ++ map served es)
            ≡ (if given_client then 0 else 1))
  unfolding server_events closes
  released given_client acts es h =
      let assoc =
        append_assoc acts (if given_client then [] else client_closed ∷ []) (map served es) in
      let (events, count) =
        inner_then acts ((if given_client then [] else client_closed ∷ []) ++ map served es) h in
      let (only, quiet) = all_served es in
      let (events', count') = by_client given_client only quiet in
      (ap server_events assoc ∙ events ∙ events', ap closes assoc ∙ count ∙ count')
    where
      by_client :
          (b : Bool)
          → server_events {F = fl.Float} (map served es) ≡ es
          → closes {F = fl.Float} (map served es) ≡ 0
          → (server_events {F = fl.Float} ((if b then [] else client_closed ∷ []) ++ map served es)
              ≡ es)
            × (closes {F = fl.Float} ((if b then [] else client_closed ∷ []) ++ map served es)
                ≡ (if b then 0 else 1))
      by_client true only quiet = (only, quiet)
      by_client false only quiet = (only, ap suc quiet)

  -- What `stop` does to a server that serves.
  abbrev stop_events : List Lifecycle.Event
  stop_events =
      Lifecycle.shutdown ∷ Lifecycle.closed ∷ Lifecycle.joined ∷ Lifecycle.stopped_logged ∷ []

  -- The `with` block, by the port that its server binds and whether its thread starts.
  entered-released :
      (env : Env fl rng) (bind : Option ℕ) (thread_starts : Bool)
      (inside : List (Act fl.Float) × Exit)
      → (let o =
            Lifecycle.start
              (record { bind = bind; thread_starts = thread_starts })
              Lifecycle.fresh in
          (entered fl rng conv ps env o o.result inside).1 ≢ running)
      → All (IsInner {F = fl.Float}) inside.0
      → (let h : Lifecycle.Host = record { bind = bind; thread_starts = thread_starts } in
          let o = Lifecycle.start h Lifecycle.fresh in
          let acts = (entered fl rng conv ps env o o.result inside).0 in
          (listens none (server_events acts) ≡ some (unstarted_port h))
          × (closes acts ≡ elim bind [
            | none ↦ 0
            | some port ↦ if thread_starts then (if env.given_client then 0 else 1) else 0
          ]))
  unfolding entered Lifecycle.start Lifecycle.serve Lifecycle.stop Lifecycle.stop_held finally_close
      leave server_events closes listens
  entered-released env none threads inside done h = (refl, refl)
  entered-released env (some p) false inside done h = (refl, refl)
  entered-released env (some p) true (acts, running) done h = absurd (done refl)
  entered-released env (some p) true (acts, returned) done h =
      let (events, count) = released env.given_client acts stop_events h in
      (ap (listens (some p)) events, count)
  entered-released env (some p) true (acts, raised e) done h =
      let (events, count) = released env.given_client acts stop_events h in
      (ap (listens (some p)) events, count)

  -- A run that has ended, by a return or by any exception, leaves nothing listening but the
  -- port of a server whose thread did not start. If it had a client it closed its own once if
  -- it was served, and never one that it was given; if its URL was refused there was neither
  -- client nor server.
  pub run_service-released :
      (env : Env fl rng)
      → (run_service fl rng conv ps env).1 ≢ running
      → (listens none (server_events (run_service fl rng conv ps env).0) ≡ some (left_bound env))
        × (closes (run_service fl rng conv ps env).0 ≡ closings env)
  unfolding server_events closes listens serve body
  run_service-released env =
      run_service-by_client fl rng conv ps
        (λ r.
          r.1 ≢ running
          → (listens none (server_events r.0) ≡ some (left_bound env))
            × (closes r.0 ≡ closings env))
        env (λ without done. rw without (refl, refl))
        (λ with_one done. rw with_one (
          entered-released env env.host.bind env.host.thread_starts
            (body fl rng conv ps env initial) done
            (resume-IsInner env (wait_for_redis false env.attempts initial)
              (wait_for_redis-IsInner fl.Float false env.attempts initial))))
