-- ===== src/Feed/Calibration/Draws.antt =====
-- calibration_store.py and generator.py: drawing quotes and waits from a calibration that was loaded.
use tqtk_price_streaming.Prelude.{
  ◌≡◌, refl, subst, Option, none, some, [], ◌∷◌, All, Result, ok, err, false, Bool-cases, inl, inr,
  ◌==◌, arith,
}
use tqtk_price_streaming.Prelude.Text.{Str, str_eq}
use tqtk_price_streaming.Prelude.Dict.{Dict, get}
use tqtk_price_streaming.Records.Floats as Floats
use tqtk_price_streaming.Records.Floats.{Floats}
use tqtk_price_streaming.Feed.Distributions.{Random, SampleError, draw_raised, sample}
use tqtk_price_streaming.Feed.Distributions.Samples.{Raises, ok-Raises, bind-Raises, sample-Raises}
use tqtk_price_streaming.Feed.Decimal.{Decimal, DecimalError}
use tqtk_price_streaming.Feed.Generator.{
  FeedError, sampling, Conversion, RandomWalk, SymbolCalibration, lift_sampling, lift_decimal,
  finite_draw, next_bid, next_spread, next_quote, paced, next_interval,
}
use tqtk_price_streaming.Feed.Calibration.{Parsing, Replies}
use tqtk_price_streaming.Feed.Calibration.Load.{load}
use tqtk_price_streaming.Feed.Calibration.Checks.{IsReady}
use tqtk_price_streaming.Feed.Calibration.Ready.{load-IsReady}

All-get :
    {C : Type 0} (P : C → Type 0) (d : Dict Str C) (k : Str) {c : C}
    → All (λ e. P e.1) d
    → get k d ≡ some c
    → P c
unfolding get
All-get P [] k hs h = cc
All-get P ((j, b) ∷ d) k {c = c} hs h = elim (Bool-cases (j == k)) [
  | inl here ↦ let same : b ≡ c = ground (arith) in subst P same hs.0
  | inr other ↦ All-get P d k {c = c} hs.1 (ground arith)
]

-- If it is an error of sampling, then one of the draw itself.
abbrev IsQuoteFault : FeedError → Type 0
IsQuoteFault f = (e : SampleError) → f ≡ sampling e → e ≡ draw_raised

sampled-Raises :
    {A : Type 0} (P : FeedError → Type 0) (drawn : Result SampleError A)
    → P (sampling draw_raised)
    → Raises (λ e. e ≡ draw_raised) drawn
    → Raises P (lift_sampling drawn)
unfolding lift_sampling
sampled-Raises P (ok a) p h f same = absurd cc
sampled-Raises P (err e) p h f same =
    let here : sampling e ≡ f = cc same in
    let fault : sampling draw_raised ≡ f = cc (here, h e refl) in subst P fault p

finite-Raises : (drawn : Option Decimal) → Raises IsQuoteFault (finite_draw drawn)
unfolding finite_draw
finite-Raises (some d) f same = absurd (cc same)
finite-Raises none f same = λ e h. absurd (cc (same, h))

decimal-Raises : (made : Result DecimalError Decimal) → Raises IsQuoteFault (lift_decimal made)
unfolding lift_decimal
decimal-Raises (ok d) f same = absurd cc
decimal-Raises (err g) f same = λ e h. absurd (cc (same, h))

draw-IsQuoteFault : IsQuoteFault (sampling draw_raised)
draw-IsQuoteFault e h = cc h

module _ (fl : Floats) (rng : Random fl) (conv : Conversion fl) where
  IsReady-next_quote :
      (w : RandomWalk fl rng conv)
      → IsReady fl w.calibration
      → Raises IsQuoteFault (next_quote fl rng conv w)
  unfolding next_quote next_bid next_spread
  IsReady-next_quote w ready =
      let c = w.calibration in
      bind-Raises IsQuoteFault _ _
        (sampled-Raises IsQuoteFault (sample fl rng c.return_distribution w.state) draw-IsQuoteFault
          (sample-Raises fl rng c.return_distribution w.state ready.for_return))
        (λ (drawn : fl.Float × rng.State).
          bind-Raises IsQuoteFault _ _ (finite-Raises (conv.decimal_of drawn.0)) (λ moved.
            bind-Raises IsQuoteFault _ _
              (bind-Raises IsQuoteFault _ _ (decimal-Raises _) (λ z. ok-Raises IsQuoteFault _))
              (λ bid.
                bind-Raises IsQuoteFault _ _
                  (sampled-Raises IsQuoteFault (sample fl rng c.spread_distribution drawn.1)
                    draw-IsQuoteFault
                    (sample-Raises fl rng c.spread_distribution drawn.1 ready.for_spread))
                  (λ (spread : fl.Float × rng.State).
                    bind-Raises IsQuoteFault _ _ (finite-Raises (conv.decimal_of spread.0)) (λ wide.
                      bind-Raises IsQuoteFault _ _
                        (bind-Raises IsQuoteFault _ _ (decimal-Raises _)
                          (λ z. ok-Raises IsQuoteFault _))
                        (λ gap. ok-Raises IsQuoteFault _))))))

  abbrev IsWaitFault : FeedError → Type 0
  IsWaitFault f = f ≡ sampling draw_raised

  paced-Raises :
      (a b : fl.Float)
      → fl.le b fl.zero ≡ false
      → Raises IsWaitFault (paced fl rng conv (rng.div a b))
  unfolding paced
  paced-Raises a b positive f h = ground (arith, rng.div_raises a b)

  IsReady-next_interval :
      (w : RandomWalk fl rng conv)
      → IsReady fl w.calibration
      → fl.le w.pacing_multiplier fl.zero ≡ false
      → Raises IsWaitFault (next_interval fl rng conv w)
  unfolding next_interval
  IsReady-next_interval w ready positive =
      let d = w.calibration.interval_distribution in
      bind-Raises IsWaitFault _ _
        (sampled-Raises IsWaitFault (sample fl rng d w.state) refl
          (sample-Raises fl rng d w.state ready.for_interval))
        (λ (drawn : fl.Float × rng.State).
          bind-Raises IsWaitFault _ _
            (paced-Raises (Floats.max fl drawn.0 fl.zero) w.pacing_multiplier positive)
            (λ wait. ok-Raises IsWaitFault _))

  -- Of a walk over a calibration that `load` returned, a quote that fails in sampling fails by
  -- the random generator or an arithmetic operation on what it drew; and so does a wait that
  -- cannot be computed, if the pacing multiplier is not at most 0. An unknown family, a wrong
  -- number of parameters, a division by a parameter and a logarithm of one do not occur.
  pub load-draws :
      (ps : Parsing) (discovery heads params : Replies)
      {loaded : Dict Str (SymbolCalibration fl.Float)} (symbol : Str) (w : RandomWalk fl rng conv)
      → load fl conv ps discovery heads params ≡ ok loaded
      → get symbol loaded ≡ some w.calibration
      → fl.le w.pacing_multiplier fl.zero ≡ false
      → ((e : SampleError) → next_quote fl rng conv w ≡ err (sampling e) → e ≡ draw_raised)
        × ((f : FeedError) → next_interval fl rng conv w ≡ err f → f ≡ sampling draw_raised)
  load-draws ps discovery heads params {loaded} symbol w h found positive =
      let ready : IsReady fl w.calibration =
        All-get (IsReady fl) loaded symbol (load-IsReady fl conv ps discovery heads params h)
          found in
      (
        λ e failed. IsReady-next_quote w ready (sampling e) failed e refl,
        IsReady-next_interval w ready positive,
      )
