-- ===== src/Feed/Generator/Published.antt =====
-- generator.py: all that one symbol's task publishes in its rounds.
use tqtk_price_streaming.Prelude.{
  ℕ, suc, ◌+◌, ◌≤◌, ◌≡◌, refl, sym, subst, Bool, true, false, Option, none, some, List, [], ◌∷◌,
  All, map, length, range_from, Result, ok, err, Bool-cases, inl, inr, ◌⊎◌, pair_eq, arith,
}
use tqtk_price_streaming.Prelude.Text.{Str, str_eq}
use tqtk_price_streaming.Records.Floats.{Floats}
use tqtk_price_streaming.Records.Tick.{Tick}
use tqtk_price_streaming.Records.Tick.Valid.{IsValid}
use tqtk_price_streaming.Session
use tqtk_price_streaming.Session.{FeedSession}
use tqtk_price_streaming.Session.Gapless.{current, count_of}
use tqtk_price_streaming.Feed.Distributions.{Random}
use tqtk_price_streaming.Feed.Generator.{
  FeedError, Conversion, Round, Ending, Task, Step, ends, goes, provider, next_tick, wants_more,
  pause, after_pause, after_tick, step, run_symbol,
}
use tqtk_price_streaming.Feed.Generator.Stream.{Follows, next_tick-Follows, step-goes}

-- No other task asks for numbers of the stream between this one's publications.
abbrev pub Alone : Session.Stream → List Round → Type 0
Alone own = All (λ r. count_of own r.others ≡ 0)

-- The ticks that a task may still publish.
abbrev pub Fits : Option ℕ → ℕ → ℕ → Type 0
Fits none published n = Unit
Fits (some max_ticks) published n = published + n ≤ max_ticks

module _ (fl : Floats) (rng : Random fl) (conv : Conversion fl) where
  -- Valid ticks of one stream of one session, received at times that never fall.
  abbrev pub OnStream : Str → Str → ℕ → List (Tick fl.Float) → Type 0
  OnStream symbol session_id last [] = Unit
  OnStream symbol session_id last (tick ∷ ticks) =
      IsValid fl tick
      × (tick.provider ≡ provider)
      × (tick.symbol ≡ symbol)
      × (tick.session_id ≡ session_id)
      × (last ≤ tick.recv_ts)
      × OnStream symbol session_id tick.recv_ts ticks

  Fits-step :
      (max_ticks : Option ℕ) (n rest : ℕ)
      → wants_more max_ticks n ≡ true
      → (Fits max_ticks (n + 1) 0 → Fits max_ticks (n + 1) rest)
      → Fits max_ticks n (suc rest)
  unfolding wants_more
  Fits-step none n rest more later = tt
  Fits-step (some max_ticks) n rest more later = omega (arith, later (ground arith))

  pub step_cases :
      (s : Step fl rng conv)
      → ((ticks : List (Tick fl.Float)) × (ending : Ending) × (s ≡ ends ticks ending))
        ⊎ ((tick : Tick fl.Float) × (t : Task fl rng conv) × (s ≡ goes tick t))
  step_cases (ends ticks ending) = inl (ticks, ending, refl)
  step_cases (goes tick t) = inr (tick, t, refl)

  -- The last round publishes nothing, or a tick that follows the state.
  abbrev LastRound : Str → Option ℕ → Round → Task fl rng conv → List (Tick fl.Float) → Type 0
  LastRound symbol max_ticks r t ticks =
      (ticks ≡ [])
      ⊎ ((t' : Task fl rng conv) × (tick : Tick fl.Float) × (ticks ≡ tick ∷ [])
          × Follows fl rng conv symbol r t t' tick
          × (wants_more max_ticks t.published ≡ true))

  after_pause-ends :
      (made : Tick fl.Float) (woken : Result FeedError (Task fl rng conv))
      {ticks : List (Tick fl.Float)} {ending : Ending}
      → after_pause fl rng conv made woken ≡ ends ticks ending
      → ticks ≡ made ∷ []
  unfolding after_pause
  after_pause-ends made (ok t) h = cc
  after_pause-ends made (err e) h = cc

  after_tick-ends :
      (max_ticks : Option ℕ) (delivered : Bool)
      (made : Result FeedError (Task fl rng conv × Tick fl.Float)) {ticks : List (Tick fl.Float)}
      {ending : Ending}
      → after_tick fl rng conv max_ticks delivered made ≡ ends ticks ending
      → (ticks ≡ [])
        ⊎ ((t' : Task fl rng conv) × (tick : Tick fl.Float) × (made ≡ ok (t', tick))
            × (ticks ≡ tick ∷ []))
  unfolding after_tick
  after_tick-ends max_ticks delivered (err e) h = inl cc
  after_tick-ends max_ticks false (ok m) h = inl cc
  after_tick-ends max_ticks true (ok (t', made)) h =
      inr (t', made, refl, after_pause-ends made (pause fl rng conv max_ticks t') h)

  step-ends :
      (symbol : Str) (max_ticks : Option ℕ) (r : Round) (t : Task fl rng conv)
      {ticks : List (Tick fl.Float)} {ending : Ending}
      → step fl rng conv symbol max_ticks r t ≡ ends ticks ending
      → LastRound symbol max_ticks r t ticks
  unfolding step next_tick
  step-ends symbol max_ticks r t h = elim (Bool-cases r.stop) [
    | inl e ↦ inl (ground arith)
    | inr e ↦ elim (Bool-cases (wants_more max_ticks t.published)) [
      | inl more ↦
          let reached = rw (e, more) at h in
          elim (after_tick-ends max_ticks r.delivered (next_tick fl rng conv symbol r t) reached) [
            | inl nothing ↦ inl nothing
            | inr (t', tick, made, one) ↦
                inr (t', tick, one, next_tick-Follows fl rng conv symbol r t made, more)
          ]
      | inr done ↦ inl (ground arith)
    ]
  ]

  module _ (symbol : Str) (max_ticks : Option ℕ) where
    -- What the rounds publish.
    abbrev published : List Round → Task fl rng conv → List (Tick fl.Float)
    published rounds t = (run_symbol fl rng conv symbol max_ticks rounds t).0

    pub run_symbol-ends :
        (r : Round) (rounds : List Round) (t : Task fl rng conv) {ticks : List (Tick fl.Float)}
        {e : Ending}
        → step fl rng conv symbol max_ticks r t ≡ ends ticks e
        → published (r ∷ rounds) t ≡ ticks
    unfolding run_symbol
    run_symbol-ends r rounds t h = rw (published, h) refl

    pub run_symbol-goes :
        (r : Round) (rounds : List Round) (t : Task fl rng conv) {tick : Tick fl.Float}
        {t' : Task fl rng conv}
        → step fl rng conv symbol max_ticks r t ≡ goes tick t'
        → published (r ∷ rounds) t ≡ tick ∷ published rounds t'
    unfolding run_symbol
    run_symbol-goes r rounds t h = rw (published, h) refl

    -- A property of what is published that each round keeps, by induction over the rounds.
    module _ (P : List Round → Task fl rng conv → List (Tick fl.Float) → Type 0) where
      run_symbol-ind :
          ((rounds : List Round) (t : Task fl rng conv) → P rounds t [])
          → ((r : Round) (rounds : List Round) (t t' : Task fl rng conv) (tick : Tick fl.Float)
                (ticks : List (Tick fl.Float))
              → Follows fl rng conv symbol r t t' tick
              → wants_more max_ticks t.published ≡ true
              → P rounds t' ticks
              → P (r ∷ rounds) t (tick ∷ ticks))
          → (rounds : List Round) (t : Task fl rng conv) → P rounds t (published rounds t)
      unfolding run_symbol
      run_symbol-ind nil cons [] t = nil [] t
      run_symbol-ind nil cons (r ∷ rounds) t =
          elim (step_cases (step fl rng conv symbol max_ticks r t)) [
            | inl (ticks, e, h) ↦
                subst (P (r ∷ rounds) t) (sym (run_symbol-ends r rounds t h))
                  (elim (step-ends symbol max_ticks r t h) [
                    | inl nothing ↦ subst (P (r ∷ rounds) t) (sym nothing) (nil (r ∷ rounds) t)
                    | inr (t', tick, one, f, more) ↦
                        subst (P (r ∷ rounds) t) (sym one)
                          (cons r rounds t t' tick [] f more (nil rounds t'))
                  ])
            | inr (tick, t', h) ↦
                let (f, more) = step-goes fl rng conv symbol max_ticks r t h in
                subst (P (r ∷ rounds) t) (sym (run_symbol-goes r rounds t h)) (
                  cons r rounds t t' tick (published rounds t') f more
                    (run_symbol-ind nil cons rounds t'))
          ]

    -- The ticks that a task publishes are valid, of its own stream and its session, and their
    -- receive times never fall, from the task's last one on.
    pub run_symbol-OnStream :
        (rounds : List Round) (t : Task fl rng conv)
        → OnStream symbol t.session.session_id t.last_recv_ts
            (run_symbol fl rng conv symbol max_ticks rounds t).0
    run_symbol-OnStream =
        run_symbol-ind (λ _ t ticks. OnStream symbol t.session.session_id t.last_recv_ts ticks)
          (λ _ t. tt)
          (λ r rounds t t' tick ticks f more rest. (
            f.valid,
            f.provider_eq,
            f.symbol_eq,
            f.session_id,
            f.not_earlier,
            rw (f.same_session, f.remembered) at rest,
          ))

    -- If no other task takes numbers of the stream, the ticks that a task publishes are
    -- numbered without a gap, from the session's counter of the stream on.
    pub run_symbol-gapless :
        (rounds : List Round) (t : Task fl rng conv)
        → Alone (provider, symbol) rounds
        → map (λ (k : Tick fl.Float). k.seq) (run_symbol fl rng conv symbol max_ticks rounds t).0
          ≡ range_from
              (current (provider, symbol) t.session)
              (length (run_symbol fl rng conv symbol max_ticks rounds t).0)
    run_symbol-gapless =
        run_symbol-ind
          (λ rounds t ticks.
            Alone (provider, symbol) rounds
            → map (λ (k : Tick fl.Float). k.seq) ticks
              ≡ range_from (current (provider, symbol) t.session) (length ticks))
          (λ _ t _. refl)
          (λ r rounds t t' tick ticks f more rest alone.
            let first : tick.seq ≡ current (provider, symbol) t.session =
              omega (arith, f.numbered, alone.0) in
            cc (first, f.counted, rest alone.1))

    -- With a limit on the number of ticks, a task that has not passed it never does, in any
    -- number of rounds.
    run_symbol-Fits :
        (rounds : List Round) (t : Task fl rng conv)
        → Fits max_ticks t.published 0
        → Fits max_ticks t.published (length (run_symbol fl rng conv symbol max_ticks rounds t).0)
    run_symbol-Fits =
        run_symbol-ind
          (λ rounds t ticks.
            Fits max_ticks t.published 0 → Fits max_ticks t.published (length ticks))
          (λ _ t fits. fits)
          (λ r rounds t t' tick ticks f more rest fits.
            Fits-step max_ticks t.published (length ticks) more (rw f.counted_published at rest))
