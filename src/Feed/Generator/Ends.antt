-- ===== src/Feed/Generator/Ends.antt =====
-- generator.py: when and how the loop of one symbol's task ends.
use tqtk_price_streaming.Prelude.{
  ℕ, ◌+◌, ◌<◌, ◌≤◌, ◌≡◌, ◌≢◌, refl, sym, subst, ◌∙◌, Bool, true, false, Option, some, List, [], ◌∷◌,
  any, length, Result, ok, err, Bool-cases, inl, inr, ◌⊎◌, arith,
}
use tqtk_price_streaming.Prelude.Text.{Str}
use tqtk_price_streaming.Records.Floats.{Floats}
use tqtk_price_streaming.Records.Tick.{Tick}
use tqtk_price_streaming.Feed.Distributions.{Random}
use tqtk_price_streaming.Feed.Generator.{
  FeedError, Conversion, Round, Ending, finished, failed, pending, sink_failed, Task, ends, goes,
  next_tick, wants_more, pause, after_pause, after_tick, step, run_symbol,
}
use tqtk_price_streaming.Feed.Generator.Stream.{step-goes}
use tqtk_price_streaming.Feed.Generator.Published.{step_cases, run_symbol-ends, run_symbol-goes}

-- More rounds than ticks that may still be published, or a round that finds `stop` set.
abbrev pub Enough : Option ℕ → ℕ → List Round → Type 0
Enough max_ticks published rounds =
    ((n : ℕ) × (max_ticks ≡ some n) × (published ≤ n) × (n < published + length rounds))
    ⊎ (any (λ (r : Round). r.stop) rounds ≡ true)

module _ (fl : Floats) (rng : Random fl) (conv : Conversion fl) where
  failed_of_pause :
      (made : Tick fl.Float) (woken : Result FeedError (Task fl rng conv))
      {ticks : List (Tick fl.Float)} {ending : Ending}
      → after_pause fl rng conv made woken ≡ ends ticks ending
      → (e : FeedError) × (ending ≡ failed e)
  unfolding after_pause
  failed_of_pause made (ok t) h = absurd cc
  failed_of_pause made (err e) h = (e, cc)

  failed_of_tick :
      (max_ticks : Option ℕ) (delivered : Bool)
      (made : Result FeedError (Task fl rng conv × Tick fl.Float)) {ticks : List (Tick fl.Float)}
      {ending : Ending}
      → after_tick fl rng conv max_ticks delivered made ≡ ends ticks ending
      → (e : FeedError) × (ending ≡ failed e)
  unfolding after_tick
  failed_of_tick max_ticks delivered (err e) h = (e, cc)
  failed_of_tick max_ticks false (ok m) h = (sink_failed, cc)
  failed_of_tick max_ticks true (ok (t', made)) h =
      failed_of_pause made (pause fl rng conv max_ticks t') h

  -- How a round that goes on to no other one ends.
  abbrev EndsWell : Option ℕ → Task fl rng conv → List (Tick fl.Float) → Ending → Type 0
  EndsWell max_ticks t ticks ending =
      (ending ≢ pending)
      × (ending ≡ finished → (ticks ≡ []) × (wants_more max_ticks t.published ≡ false))

  failed-EndsWell :
      (max_ticks : Option ℕ) (t : Task fl rng conv) (ticks : List (Tick fl.Float)) {ending : Ending}
      → (e : FeedError) × (ending ≡ failed e)
      → EndsWell max_ticks t ticks ending
  failed-EndsWell max_ticks t ticks (e, h) = (λ k. absurd cc, λ k. absurd cc)

  step-EndsWell :
      (symbol : Str) (max_ticks : Option ℕ) (r : Round) (t : Task fl rng conv)
      {ticks : List (Tick fl.Float)} {ending : Ending}
      → step fl rng conv symbol max_ticks r t ≡ ends ticks ending
      → EndsWell max_ticks t ticks ending
  unfolding step next_tick
  step-EndsWell symbol max_ticks r t {ticks = ticks} h = elim (Bool-cases r.stop) [
    | inl e ↦ (λ k. absurd (ground arith), λ k. absurd (ground arith))
    | inr e ↦ elim (Bool-cases (wants_more max_ticks t.published)) [
      | inl more ↦ failed-EndsWell max_ticks t ticks (
          failed_of_tick max_ticks r.delivered (next_tick fl rng conv symbol r t)
            (rw (e, more) at h))
      | inr done ↦ (λ k. absurd (ground arith), λ k. (ground arith, done))
    ]
  ]

  module _ (symbol : Str) (max_ticks : Option ℕ) where
    abbrev ending : List Round → Task fl rng conv → Ending
    ending rounds t = (run_symbol fl rng conv symbol max_ticks rounds t).1

    ending-ends :
        (r : Round) (rounds : List Round) (t : Task fl rng conv) {ticks : List (Tick fl.Float)}
        {e : Ending}
        → step fl rng conv symbol max_ticks r t ≡ ends ticks e
        → ending (r ∷ rounds) t ≡ e
    unfolding run_symbol
    ending-ends r rounds t h = rw (ending, h) refl

    ending-goes :
        (r : Round) (rounds : List Round) (t : Task fl rng conv) {tick : Tick fl.Float}
        {t' : Task fl rng conv}
        → step fl rng conv symbol max_ticks r t ≡ goes tick t'
        → ending (r ∷ rounds) t ≡ ending rounds t'
    unfolding run_symbol
    ending-goes r rounds t h = rw (ending, h) refl

    stop_first :
        (r : Round) (t : Task fl rng conv) {tick : Tick fl.Float} {t' : Task fl rng conv}
        → step fl rng conv symbol max_ticks r t ≡ goes tick t'
        → r.stop ≡ false
    unfolding step
    stop_first r t h = elim (Bool-cases r.stop) [ inl e ↦ absurd (ground arith) | inr e ↦ e ]

    at_limit : (k n : ℕ) → k ≤ n → wants_more (some n) k ≡ false → k + 0 ≡ n
    unfolding wants_more
    at_limit k n fits h = ground arith

    below_limit : (k n : ℕ) → wants_more (some n) k ≡ true → k < n
    unfolding wants_more
    below_limit k n h = ground arith

    Enough-left :
        (r : Round) (rounds : List Round) (t t' : Task fl rng conv)
        → r.stop ≡ false
        → wants_more max_ticks t.published ≡ true
        → t'.published ≡ t.published + 1
        → Enough max_ticks t.published (r ∷ rounds)
        → Enough max_ticks t'.published rounds
    unfolding any
    Enough-left r rounds t t' e more counted (inl (n, limit, fits, h)) =
        let below = below_limit t.published n (rw limit at more) in
        inl (n, limit, omega arith, omega arith)
    Enough-left r rounds t t' e more counted (inr h) = inr (rw e at h)

    -- The loop of a task ends, given one round more than the ticks that are still wanted, or a
    -- round that finds `stop` set, whatever the draws, the clock and the sink do.
    pub run_symbol_ends :
        (rounds : List Round) (t : Task fl rng conv)
        → Enough max_ticks t.published rounds
        → (run_symbol fl rng conv symbol max_ticks rounds t).1 ≢ pending
    unfolding any
    run_symbol_ends [] t (inl (n, limit, fits, h)) = absurd (omega arith)
    run_symbol_ends [] t (inr h) = absurd cc
    run_symbol_ends (r ∷ rounds) t enough =
        elim (step_cases fl rng conv (step fl rng conv symbol max_ticks r t)) [
          | inl (ticks, e, h) ↦
              subst (λ x. x ≢ pending) (sym (ending-ends r rounds t h))
                (step-EndsWell symbol max_ticks r t h).0
          | inr (tick, t', h) ↦
              let (f, more) = step-goes fl rng conv symbol max_ticks r t h in
              subst (λ x. x ≢ pending) (sym (ending-goes r rounds t h))
                (run_symbol_ends rounds t'
                  (Enough-left r rounds t t' (stop_first r t h) more f.counted_published enough))
        ]

    -- A task with a limit that it has not passed, and that ends as finished, has published just
    -- as many ticks as the limit says.
    run_symbol_finished :
        (rounds : List Round) (t : Task fl rng conv) (n : ℕ)
        → max_ticks ≡ some n
        → t.published ≤ n
        → (run_symbol fl rng conv symbol max_ticks rounds t).1 ≡ finished
        → t.published + length (run_symbol fl rng conv symbol max_ticks rounds t).0 ≡ n
    unfolding run_symbol
    run_symbol_finished [] t n limit fits h = absurd cc
    run_symbol_finished (r ∷ rounds) t n limit fits h =
        elim (step_cases fl rng conv (step fl rng conv symbol max_ticks r t)) [
          | inl (ticks, e, here) ↦
              let (none_now, done) =
                (step-EndsWell symbol max_ticks r t here).1
                  (sym (ending-ends r rounds t here) ∙ h) in
              subst (λ ks. t.published + length ks ≡ n)
                (sym none_now ∙ sym (run_symbol-ends fl rng conv symbol max_ticks r rounds t here))
                (at_limit t.published n fits (rw limit at done))
          | inr (tick, t', here) ↦
              let (f, more) = step-goes fl rng conv symbol max_ticks r t here in
              let below = below_limit t.published n (rw limit at more) in
              let rest =
                run_symbol_finished rounds t' n limit (omega (arith, f.counted_published))
                  (sym (ending-goes r rounds t here) ∙ h) in
              subst (λ ks. t.published + length ks ≡ n)
                (sym (run_symbol-goes fl rng conv symbol max_ticks r rounds t here))
                (omega (arith, rest, f.counted_published))
        ]
