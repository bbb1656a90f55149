-- ===== src/Feed/Process/Waiting.antt =====
-- __main__.py: which round of the wait for Redis decides it.
use tqtk_price_streaming.Prelude.{
  ◌≡◌, ◌↔◌, refl, sym, ap, ◌∙◌, some, ok, Bool, true, false, List, [], ◌∷◌, ◌++◌, All, map,
  if◌then◌else◌,
}
use tqtk_price_streaming.Prelude.Text.{str_eq}
use tqtk_price_streaming.Prelude.Dict.{get, put}
use tqtk_price_streaming.Runtime.Readiness.{
  Readiness, Transition, differs, mark_connected, set_state,
}
use tqtk_price_streaming.Feed.Process.{
  Ping, answered, redis_error, broken, Attempt, Act, retried, marked, notified, redis_dependency,
  connected, Waited, stopped, broke, pending, ping_raised, connect, wait_for_redis,
}

-- A round that finds no `stop` and whose ping raises a `RedisError`.
abbrev pub IsRetry : Attempt → Type 0
IsRetry a = (a.stop ≡ false) × (a.ping ≡ redis_error)

mark-declared :
    (r : Readiness) (b : Bool)
    → get redis_dependency r.connected ≡ some b
    → (log : List Transition) × (mark_connected redis_dependency r
        ≡ ok (record { connected = put redis_dependency true r.connected }, log))
unfolding mark_connected set_state
mark-declared r b declared = (
  if differs b true then record { dependency = redis_dependency; connected = true } ∷ [] else [],
  rw (declared, mark_connected, set_state) refl,
)

module _ {F : Type 0} where
  -- What a round that is no retry makes of the wait.
  abbrev pub decided : Bool → Attempt → Readiness → List (Act F) × Waited
  decided notifies a readiness = if a.stop then ([], stopped) else (elim a.ping [
    | answered ↦ connect notifies readiness
    | redis_error ↦ ([], pending)
    | broken ↦ ([], broke ping_raised)
  ])

  abbrev pub retries_of : List Attempt → List (Act F)
  retries_of = map (λ _. retried)

  decides :
      (notifies : Bool) (later : List Attempt) (readiness : Readiness) (stop : Bool) (ping : Ping)
      → (ping ≡ redis_error → stop ≡ true)
      → wait_for_redis {F = F} notifies (record { stop = stop; ping = ping } ∷ later) readiness
        ≡ decided notifies (record { stop = stop; ping = ping }) readiness
  unfolding wait_for_redis
  decides notifies later readiness true ping other = refl
  decides notifies later readiness false answered other = refl
  decides notifies later readiness false redis_error other =
      let stops : false ≡ true = other refl in absurd cc
  decides notifies later readiness false broken other = refl

  wait_for_redis-decided :
      (notifies : Bool) (retries later : List Attempt) (a : Attempt) (readiness : Readiness)
      → All IsRetry retries
      → (a.ping ≡ redis_error → a.stop ≡ true)
      → (wait_for_redis {F = F} notifies (retries ++ a ∷ later) readiness ≡ (
        retries_of retries ++ (decided notifies a readiness).0,
        (decided notifies a readiness).1,
      ))
        × (wait_for_redis {F = F} notifies retries readiness ≡ (retries_of retries, pending))
  unfolding wait_for_redis
  wait_for_redis-decided notifies [] later a readiness all_retry other =
      (decides notifies later readiness a.stop a.ping other, refl)
  wait_for_redis-decided notifies (r ∷ retries) later a readiness all_retry other =
      let (there, waiting) =
        wait_for_redis-decided notifies retries later a readiness all_retry.1 other in
      (
        rw (all_retry.0.0, all_retry.0.1) (ap (λ w. (retried ∷ w.0, w.1)) there),
        rw (all_retry.0.0, all_retry.0.1) (ap (λ w. (retried ∷ w.0, w.1)) waiting),
      )

  connect-declared :
      (notifies : Bool) (r : Readiness) (b : Bool)
      → get redis_dependency r.connected ≡ some b
      → connect {F = F} notifies r ≡ (
        marked redis_dependency ∷ (if notifies then notified ∷ [] else []),
        connected (record { connected = put redis_dependency true r.connected }),
      )
  unfolding connect
  connect-declared notifies r b declared =
      let (log, marks) = mark-declared r b declared in rw (marks, connect) refl

  -- The wait's acts and the readiness that it ends with, where it connects.
  pub record IsConnected (notifies : Bool) (attempts : List Attempt) (r : Readiness)
      (acts : List (Act F)) (r' : Readiness) : Type 0 where
    pub retries : List Attempt
    pub answering : Attempt
    pub later : List Attempt
    pub order : attempts ≡ retries ++ answering ∷ later
    pub retried_before : All IsRetry retries
    pub unstopped : answering.stop ≡ false
    pub answers : answering.ping ≡ answered
    pub done :
        acts
        ≡ retries_of retries ++ (marked redis_dependency ∷ (if notifies then notified ∷ [] else []))
    pub marks : r' ≡ record { connected = put redis_dependency true r.connected }

  module _ (notifies : Bool) (r : Readiness) (b : Bool)
      (declared : get redis_dependency r.connected ≡ some b) where
    wait_for_redis-IsConnected :
        (attempts : List Attempt) (acts : List (Act F)) (r' : Readiness)
        → wait_for_redis notifies attempts r ≡ (acts, connected r')
        → IsConnected notifies attempts r acts r'
    unfolding wait_for_redis
    wait_for_redis-IsConnected [] acts r' = λ h. absurd (cc h)
    wait_for_redis-IsConnected (a ∷ attempts) acts r' =
        round (λ earlier. wait_for_redis-IsConnected attempts earlier r') a.stop a.ping
      where
        round :
            ((earlier : List (Act F))
              → wait_for_redis notifies attempts r ≡ (earlier, connected r')
              → IsConnected notifies attempts r earlier r')
            → (stop : Bool) (ping : Ping)
            → wait_for_redis notifies (record { stop = stop; ping = ping } ∷ attempts) r
              ≡ (acts, connected r')
            → IsConnected notifies (record { stop = stop; ping = ping } ∷ attempts) r acts r'
        round rest true ping h = absurd cc
        round rest false broken h = absurd cc
        round rest false answered h =
            let all = sym (connect-declared notifies r b declared) ∙ h in
            record {
              retries = [];
              answering = record { stop = false; ping = answered };
              later = attempts;
              order = refl;
              retried_before = tt;
              unstopped = refl;
              answers = refl;
              done = cc all;
              marks = cc all;
            }
        round rest false redis_error h =
            let w = wait_for_redis notifies attempts r in
            let ends : w.1 ≡ connected r' = ap (λ p. p.1) h in
            let inner = rest w.0 (ap (λ x. (w.0, x)) ends) in
            record {
              retries = record { stop = false; ping = redis_error } ∷ inner.retries;
              answering = inner.answering;
              later = inner.later;
              order = ap (◌∷◌ (record { stop = false; ping = redis_error })) inner.order;
              retried_before = ((refl, refl), inner.retried_before);
              unstopped = inner.unstopped;
              answers = inner.answers;
              done = sym (ap (λ p. p.0) h) ∙ ap (◌∷◌ retried) inner.done;
              marks = inner.marks;
            }

    connected-wait_for_redis :
        (attempts : List Attempt) (acts : List (Act F)) (r' : Readiness)
        → IsConnected notifies attempts r acts r'
        → wait_for_redis notifies attempts r ≡ (acts, connected r')
    connected-wait_for_redis attempts acts r' c =
        let no_error : c.answering.ping ≡ redis_error → c.answering.stop ≡ true =
          λ e. absurd (cc (e, c.answers)) in
        let there =
          (wait_for_redis-decided notifies c.retries c.later c.answering r c.retried_before
            no_error).0 in
        let made : decided notifies c.answering r ≡ connect notifies r =
          rw (c.unstopped, c.answers) refl in
        let all = made ∙ connect-declared notifies r b declared in
        ap (λ given. wait_for_redis notifies given r) c.order
        ∙ there
        ∙ rw all (rw (c.done, c.marks) refl)

    -- If redis is a declared dependency, the wait connects exactly when some round answers that
    -- finds `stop` not set, after rounds that each found it not set and had a RedisError; it
    -- has then waited once for each of these, marked redis once and called back after it, and
    -- the readiness is as before but for redis.
    pub wait_for_redis-connected_iff :
        (attempts : List Attempt) (acts : List (Act F)) (r' : Readiness)
        → (wait_for_redis notifies attempts r ≡ (acts, connected r'))
          ↔ IsConnected notifies attempts r acts r'
    wait_for_redis-connected_iff attempts acts r' =
        (wait_for_redis-IsConnected attempts acts r', connected-wait_for_redis attempts acts r')

  -- A property of the ends of the wait that a retry keeps, by induction over the rounds.
  module _ (P : List (Act F) × Waited → Type 0) (notifies : Bool) (readiness : Readiness) where
    pub wait_for_redis-ind :
        P ([], pending)
        → P ([], stopped)
        → P ([], broke ping_raised)
        → P (connect notifies readiness)
        → ((o : List (Act F) × Waited) → P o → P (retried ∷ o.0, o.1))
        → (attempts : List Attempt) → P (wait_for_redis notifies attempts readiness)
    unfolding wait_for_redis
    wait_for_redis-ind on_pending on_stopped on_broken on_connect on_retry [] = on_pending
    wait_for_redis-ind on_pending on_stopped on_broken on_connect on_retry (a ∷ attempts) =
        round (wait_for_redis-ind on_pending on_stopped on_broken on_connect on_retry attempts)
          a.stop a.ping
      where
        round :
            P (wait_for_redis notifies attempts readiness)
            → (stop : Bool) (ping : Ping)
            → P (wait_for_redis notifies (record { stop = stop; ping = ping } ∷ attempts) readiness)
        round rest true ping = on_stopped
        round rest false answered = on_connect
        round rest false redis_error = on_retry (wait_for_redis notifies attempts readiness) rest
        round rest false broken = on_broken
