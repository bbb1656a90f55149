-- ===== src/Feed/Process/Settle.antt =====
-- __main__.py and generator.py: a shutdown ends every task.
use tqtk_price_streaming.Prelude.{
  ℕ, zero, suc, ◌≡◌, ◌≢◌, refl, sym, subst, ap, ◌∙◌, Bool, true, none, List, [], ◌∷◌, ◌++◌, map,
  any, all, length, Bool-cases, Result-cases, ◌⊎◌, inl, inr, arith,
}
use tqtk_price_streaming.Prelude.Text.{Str}
use tqtk_price_streaming.Records.Floats.{Floats}
use tqtk_price_streaming.Session.{FeedSession}
use tqtk_price_streaming.Feed.Distributions.{Random}
use tqtk_price_streaming.Feed.Generator.{Conversion, Ending, failed, Task, wants_more, pause}
use tqtk_price_streaming.Feed.Concurrent.{
  Event, wakes, delivered, Phase, waiting, publishing, ended, quiet, wake, rest, advance, Tasks,
  advance_at,
}
use tqtk_price_streaming.Feed.Calibration.{Parsing}
use tqtk_price_streaming.Feed.Process.{running, tasks_after, has_failed, has_ended, exit_of}

-- The same events, of the tasks one position further on.
abbrev pub shifted : List (ℕ × Event) → List (ℕ × Event)
shifted = map (λ e. (suc e.0, e.1))

-- Each of so many tasks has its sink return, and wakes to find `stop` set.
abbrev pub settle : ℕ → ℕ → List (ℕ × Event)
settle clock zero = []
settle clock (suc n) = (0, delivered) ∷ (0, wakes true clock) ∷ shifted (settle clock n)

module _ (fl : Floats) (rng : Random fl) (conv : Conversion fl) (ps : Parsing) where
  after : List (ℕ × Event) → FeedSession → Tasks fl rng conv → Tasks fl rng conv
  after = tasks_after fl rng conv ps

  -- After the sink returned a task waits or has ended.
  rest-cases :
      (t : Task fl rng conv)
      → ((t' : Task fl rng conv) × (rest fl rng conv none t ≡ waiting t'))
        ⊎ ((e : Ending) × (rest fl rng conv none t ≡ ended e))
  unfolding rest wants_more
  rest-cases t = elim (Result-cases (pause fl rng conv none t)) [
    | inl (t', woken) ↦ inl (t', rw (woken, rest) refl)
    | inr (e, failed_now) ↦ inr (failed e, rw (failed_now, rest) refl)
  ]

  abbrev woken : Str → ℕ → FeedSession → Phase fl rng conv → Bool
  woken symbol clock s p =
      has_ended fl rng conv ps
        (symbol, (advance fl rng conv symbol none (wakes true clock) s p).phase)

  -- A task whose sink returned and that woke to a shutdown has ended.
  advance-ends :
      (symbol : Str) (clock : ℕ) (s s' : FeedSession) (p : Phase fl rng conv)
      → woken symbol clock s' (advance fl rng conv symbol none delivered s p).phase ≡ true
  unfolding advance wake quiet has_ended
  advance-ends symbol clock s s' (waiting t) = refl
  advance-ends symbol clock s s' (publishing t tick) = elim (rest-cases t) [
    | inl (t', h) ↦ subst (λ p. woken symbol clock s' p ≡ true) (sym h) refl
    | inr (e, h) ↦ subst (λ p. woken symbol clock s' p ≡ true) (sym h) refl
  ]
  advance-ends symbol clock s s' (ended e) = refl

  after-shifted :
      (events : List (ℕ × Event)) (s : FeedSession) (t : Str × Phase fl rng conv)
      (tasks : Tasks fl rng conv)
      → after (shifted events) s (t ∷ tasks) ≡ t ∷ after events s tasks
  unfolding after tasks_after advance_at
  after-shifted [] s t tasks = refl
  after-shifted ((n, event) ∷ events) s t tasks =
      let moved = advance_at fl rng conv none n event s tasks in
      after-shifted events moved.0 t moved.1

  after-append :
      (events later : List (ℕ × Event)) (s : FeedSession) (tasks : Tasks fl rng conv)
      → (s' : FeedSession) × (after (events ++ later) s tasks
          ≡ after later s' (after events s tasks))
  unfolding after tasks_after
  after-append [] later s tasks = (s, refl)
  after-append ((n, event) ∷ events) later s tasks =
      let moved = advance_at fl rng conv none n event s tasks in
      after-append events later moved.0 moved.1

  after-settle :
      (clock : ℕ) (s : FeedSession) (tasks : Tasks fl rng conv)
      → all (has_ended fl rng conv ps) (after (settle clock (length tasks)) s tasks) ≡ true
  unfolding after tasks_after advance_at all
  after-settle clock s [] = refl
  after-settle clock s ((symbol, p) ∷ tasks) =
      let first = advance fl rng conv symbol none delivered s p in
      let second = advance fl rng conv symbol none (wakes true clock) first.session first.phase in
      subst (λ ts. all (has_ended fl rng conv ps) ts ≡ true)
        (sym
          (after-shifted (settle clock (length tasks)) second.session (symbol, second.phase) tasks))
        (ground (
          arith,
          advance-ends symbol clock s first.session p,
          after-settle clock second.session tasks,
        ))

  advance_at-length :
      (n : ℕ) (event : Event) (s : FeedSession) (tasks : Tasks fl rng conv)
      → length (advance_at fl rng conv none n event s tasks).1 ≡ length tasks
  unfolding advance_at
  advance_at-length n event s [] = refl
  advance_at-length zero event s (t ∷ tasks) = refl
  advance_at-length (suc n) event s (t ∷ tasks) = ap suc (advance_at-length n event s tasks)

  after-length :
      (events : List (ℕ × Event)) (s : FeedSession) (tasks : Tasks fl rng conv)
      → length (after events s tasks) ≡ length tasks
  unfolding after tasks_after
  after-length [] s tasks = refl
  after-length ((n, event) ∷ events) s tasks =
      let moved = advance_at fl rng conv none n event s tasks in
      after-length events moved.0 moved.1 ∙ advance_at-length n event s tasks

  exit_of-ended :
      (tasks : Tasks fl rng conv)
      → all (has_ended fl rng conv ps) tasks ≡ true
      → exit_of fl rng conv ps tasks ≢ running
  unfolding exit_of
  exit_of-ended tasks h k = elim (Bool-cases (any (has_failed fl rng conv ps) tasks)) [
    | inl some_failed ↦ absurd (ground arith)
    | inr none_failed ↦ absurd (ground arith)
  ]

  -- Whatever the tasks of the feed did before, once each of them has its current call of the
  -- sink return and then wakes to find `stop` set, the feed has ended: it has returned or
  -- raised.
  pub tasks_after-settle :
      (events : List (ℕ × Event)) (clock : ℕ) (s : FeedSession) (tasks : Tasks fl rng conv)
      → exit_of fl rng conv ps
          (tasks_after fl rng conv ps (events ++ settle clock (length tasks)) s tasks)
        ≢ running
  unfolding after
  tasks_after-settle events clock s tasks =
      let (s', whole) = after-append events (settle clock (length tasks)) s tasks in
      exit_of-ended (after (events ++ settle clock (length tasks)) s tasks) (
        subst (λ ts. all (has_ended fl rng conv ps) ts ≡ true) (sym whole)
          (subst
            (λ n.
              all (has_ended fl rng conv ps) (after (settle clock n) s' (after events s tasks))
              ≡ true)
            (after-length events s tasks) (after-settle clock s' (after events s tasks))))
