-- ===== src/Feed/Process/Replay.antt =====
-- __main__.py: the readiness that the acts of a run leave.
use tqtk_price_streaming.Prelude.{
  ◌≡◌, refl, sym, subst, Bool, true, false, ◌&&◌, List, [], ◌∷◌, ◌++◌, map, ok, err, Result-cases,
  inl, inr, arith, if◌then◌else◌,
}
use tqtk_price_streaming.Prelude.Text.{Str, str_eq}
use tqtk_price_streaming.Runtime.Readiness.{
  Readiness, ReadinessError, Transition, mark_connected, set_state, is_ready,
}
use tqtk_price_streaming.Runtime.Readiness.Reports.{after}
use tqtk_price_streaming.Runtime.Lifecycle as Lifecycle
use tqtk_price_streaming.Feed.Process.Waiting.{wait_for_redis-ind}
use tqtk_price_streaming.Feed.Process.{
  Attempt, Act, retried, marked, notified, served, error_logged, fed, client_closed, Waited,
  connected, broke, not_declared, redis_dependency, connect, wait_for_redis,
}

after-mark_connected :
    (d : Str) (r r' : Readiness) (log : List Transition)
    → set_state d true r ≡ ok (r', log)
    → after (d, true) r ≡ r'
unfolding after
after-mark_connected d r r' log h = rw (h, after) refl

module _ {F : Type 0} where
  -- The readiness after the acts.
  unfoldable pub replayed : List (Act F) → Readiness → Readiness
  replayed [] r = r
  replayed (marked d ∷ acts) r = replayed acts (after (d, true) r)
  replayed (_ ∷ acts) r = replayed acts r

  -- `/ready` answers 200 whenever the feed runs.
  unfoldable pub fed_when_ready : List (Act F) → Readiness → Bool
  fed_when_ready [] r = true
  fed_when_ready (marked d ∷ acts) r = fed_when_ready acts (after (d, true) r)
  fed_when_ready (fed _ ∷ acts) r = is_ready r && fed_when_ready acts r
  fed_when_ready (_ ∷ acts) r = fed_when_ready acts r

  pub fed_when_ready-append :
      (xs ys : List (Act F)) (r : Readiness)
      → fed_when_ready (xs ++ ys) r ≡ (fed_when_ready xs r && fed_when_ready ys (replayed xs r))
  unfolding fed_when_ready replayed
  fed_when_ready-append [] ys r = refl
  fed_when_ready-append (marked d ∷ xs) ys r = fed_when_ready-append xs ys (after (d, true) r)
  fed_when_ready-append (fed ts ∷ xs) ys r = ground (arith, fed_when_ready-append xs ys r)
  fed_when_ready-append (retried ∷ xs) ys r = fed_when_ready-append xs ys r
  fed_when_ready-append (notified ∷ xs) ys r = fed_when_ready-append xs ys r
  fed_when_ready-append (served e ∷ xs) ys r = fed_when_ready-append xs ys r
  fed_when_ready-append (error_logged e ∷ xs) ys r = fed_when_ready-append xs ys r
  fed_when_ready-append (client_closed ∷ xs) ys r = fed_when_ready-append xs ys r

  pub served_only :
      (es : List Lifecycle.Event) (ys : List (Act F)) (r : Readiness)
      → (fed_when_ready (map served es ++ ys) r ≡ fed_when_ready ys r)
  unfolding fed_when_ready
  served_only [] ys r = refl
  served_only (e ∷ es) ys r = served_only es ys r

  -- What the wait leaves.
  pub record Awaited (r : Readiness) (o : List (Act F) × Waited) : Type 0 where
    pub quiet : fed_when_ready o.0 r ≡ true
    pub marks :
        (r' : Readiness)
        → o.1 ≡ connected r'
        → (replayed o.0 r ≡ r') × (r' ≡ after (redis_dependency, true) r)

  pub connect-ok :
      (notifies : Bool) (r r' : Readiness) (log : List Transition)
      → mark_connected redis_dependency r ≡ ok (r', log)
      → connect {F = F} notifies r
        ≡ (marked redis_dependency ∷ (if notifies then notified ∷ [] else []), connected r')
  unfolding connect
  connect-ok notifies r r' log h = rw (h, connect) refl

  pub connect-err :
      (notifies : Bool) (r : Readiness) (e : ReadinessError)
      → mark_connected redis_dependency r ≡ err e
      → connect {F = F} notifies r ≡ ([], broke (not_declared e))
  unfolding connect
  connect-err notifies r e h = rw (h, connect) refl

  connect-Awaited : (notifies : Bool) (r : Readiness) → Awaited r (connect notifies r)
  unfolding fed_when_ready replayed mark_connected
  connect-Awaited notifies r = elim (Result-cases (mark_connected redis_dependency r)) [
    | inl ((r', log), h) ↦
        subst (Awaited r) (sym (connect-ok notifies r r' log h))
          (by_notifies notifies r' (after-mark_connected redis_dependency r r' log h))
    | inr (e, h) ↦
        subst (Awaited r) (sym (connect-err notifies r e h))
          (record { quiet = refl; marks = λ r' k. absurd cc })
  ]
    where
      by_notifies :
          (b : Bool) (r' : Readiness)
          → after (redis_dependency, true) r ≡ r'
          → Awaited r (marked redis_dependency ∷ (if b then notified ∷ [] else []), connected r')
      by_notifies true r' h = record { quiet = refl; marks = λ r'' k. (cc, cc) }
      by_notifies false r' h = record { quiet = refl; marks = λ r'' k. (cc, cc) }

  pub wait_for_redis-Awaited :
      (notifies : Bool) (attempts : List Attempt) (r : Readiness)
      → Awaited r (wait_for_redis notifies attempts r)
  unfolding fed_when_ready replayed
  wait_for_redis-Awaited notifies attempts r =
      wait_for_redis-ind (Awaited r) notifies r (record { quiet = refl; marks = λ r' h. absurd cc })
        (record { quiet = refl; marks = λ r' h. absurd cc })
        (record { quiet = refl; marks = λ r' h. absurd cc }) (connect-Awaited notifies r)
        (λ o awaited. record { quiet = awaited.quiet; marks = awaited.marks }) attempts

pub served-fed_when_ready :
    (F : Type 0) (es : List Lifecycle.Event) (r : Readiness)
    → fed_when_ready (map {B = Act F} served es) r ≡ true
unfolding fed_when_ready
served-fed_when_ready F [] r = refl
served-fed_when_ready F (e ∷ es) r = served-fed_when_ready F es r
