-- ===== src/Feed/Distributions/Samples.antt =====
-- distributions.py: which distributions can be sampled.
use tqtk_price_streaming.Prelude.{
  ◌≡◌, ◌≢◌, refl, ap, subst, true, not, Option, none, some, List, [], ◌∷◌, Result, ok, err, ◌>>=◌,
  any, list_beq, arith,
}
use tqtk_price_streaming.Prelude.Text.{Str, lit, str_eq}
use tqtk_price_streaming.Records.Floats.{Floats}
use tqtk_price_streaming.Feed.Distributions.{
  Random, Family, constant, normal, laplace, student_t, gamma, lognormal, weibull_min, loglogistic,
  SampleError, draw_raised, zero_parameter, log_parameter, raising, family_parameters, is_unbounded,
  Distribution, sampler, sample,
}
use tqtk_price_streaming.Feed.Calibration.Checks.{Fitted, IsFitted}

-- Each error that a result may be has the property.
abbrev pub Raises : {E A : Type 0} → (E → Type 0) → Result E A → Type 0
Raises {E} P m = (e : E) → m ≡ err e → P e

pub ok-Raises : {E A : Type 0} (P : E → Type 0) (a : A) → Raises P (ok a)
ok-Raises P a e h = absurd cc

pub err-Raises : {E A : Type 0} (P : E → Type 0) (e : E) → P e → Raises {A = A} P (err e)
err-Raises P e p f h = let same : e ≡ f = cc h in subst P same p

pub bind-Raises :
    {E A B : Type 0} (P : E → Type 0) (m : Result E A) (k : A → Result E B)
    → Raises P m
    → ((a : A) → Raises P (k a))
    → Raises P (m >>= k)
bind-Raises P (ok a) k h next e same = next a e same
bind-Raises P (err f) k h next e same = let here : f ≡ e = cc same in h e (ap err here)

abbrev IsDraw : SampleError → Type 0
IsDraw e = e ≡ draw_raised

drawn-Raises : {A : Type 0} (o : Option A) → Raises IsDraw (raising draw_raised o)
unfolding raising
drawn-Raises (some a) e h = absurd cc
drawn-Raises none e h = cc

never-Raises :
    {A : Type 0} (at : SampleError) (o : Option A) → (o ≢ none) → Raises IsDraw (raising at o)
unfolding raising
never-Raises at (some a) never e h = absurd cc
never-Raises at none never e h = absurd (never refl)

module _ (fl : Floats) (rng : Random fl) where
  open rng use {State}

  div-defined : (a b : fl.Float) → not (fl.le b fl.zero) ≡ true → rng.div a b ≢ none
  div-defined a b positive h = absurd (ground (arith, rng.div_raises a b h))

  log-defined : (x : fl.Float) → not (fl.le x fl.zero) ≡ true → rng.log x ≢ none
  log-defined x positive h = absurd (ground (arith, rng.log_raises x h))

  -- Parameters that fit the names of a family are as many.
  module _ (P : List fl.Float → Type 0) where
    fitted_one :
        (a : Str) (params : List fl.Float)
        → Fitted fl (a ∷ []) params
        → ((x : fl.Float) → P (x ∷ []))
        → P params
    fitted_one a [] h k = absurd h
    fitted_one a (x ∷ []) h k = k x
    fitted_one a (x ∷ y ∷ params) h k = absurd h.2

    fitted_two :
        (a b : Str) (params : List fl.Float)
        → Fitted fl (a ∷ b ∷ []) params
        → ((x y : fl.Float) → Fitted fl (a ∷ b ∷ []) (x ∷ y ∷ []) → P (x ∷ y ∷ []))
        → P params
    fitted_two a b [] h k = absurd h
    fitted_two a b (x ∷ []) h k = absurd h.2
    fitted_two a b (x ∷ y ∷ []) h k = k x y h
    fitted_two a b (x ∷ y ∷ z ∷ params) h k = absurd h.2.2

    fitted_three :
        (a b c : Str) (params : List fl.Float)
        → Fitted fl (a ∷ b ∷ c ∷ []) params
        → ((x y z : fl.Float) → Fitted fl (a ∷ b ∷ c ∷ []) (x ∷ y ∷ z ∷ []) → P (x ∷ y ∷ z ∷ []))
        → P params
    fitted_three a b c [] h k = absurd h
    fitted_three a b c (x ∷ []) h k = absurd h.2
    fitted_three a b c (x ∷ y ∷ []) h k = absurd h.2.2
    fitted_three a b c (x ∷ y ∷ z ∷ []) h k = k x y z h
    fitted_three a b c (x ∷ y ∷ z ∷ t ∷ params) h k = absurd h.2.2.2

  sampler-Raises :
      (f : Family) (params : List fl.Float) (s : State)
      → Fitted fl (family_parameters f) params
      → Raises IsDraw (sampler fl rng f params s)
  unfolding sampler family_parameters is_unbounded any list_beq
  sampler-Raises constant params s h =
      fitted_one (λ p. Raises IsDraw (sampler fl rng constant p s)) (lit "value") params h
        (λ value. ok-Raises IsDraw (value, s))
  sampler-Raises normal params s h =
      fitted_two (λ p. Raises IsDraw (sampler fl rng normal p s)) (lit "loc") (lit "scale") params h
        (λ loc scale _. drawn-Raises (rng.gauss loc scale s))
  sampler-Raises laplace params s h =
      fitted_two (λ p. Raises IsDraw (sampler fl rng laplace p s)) (lit "loc") (lit "scale") params
        h
        (λ loc scale g.
          bind-Raises IsDraw (raising zero_parameter (rng.div rng.one scale)) _
            (never-Raises zero_parameter _ (div-defined rng.one scale g.2.1))
            (λ rate. bind-Raises IsDraw _ _ (drawn-Raises (rng.expovariate rate s)) (λ x.
              bind-Raises IsDraw _ _ (drawn-Raises (rng.expovariate rate x.1))
                (λ y. ok-Raises IsDraw (fl.sub (rng.add loc x.0) y.0, y.1)))))
  sampler-Raises student_t params s h =
      fitted_three (λ p. Raises IsDraw (sampler fl rng student_t p s)) (lit "df") (lit "loc")
        (lit "scale") params h
        (λ df loc scale g. bind-Raises IsDraw _ _ (drawn-Raises (rng.gauss fl.zero rng.one s)) (λ z.
          bind-Raises IsDraw _ _ (drawn-Raises (rng.div df rng.two)) (λ half.
            bind-Raises IsDraw _ _ (drawn-Raises (rng.gammavariate half rng.two z.1)) (λ v.
              bind-Raises IsDraw (raising zero_parameter (rng.div v.0 df)) _
                (never-Raises zero_parameter _ (div-defined v.0 df g.1))
                (λ ratio. bind-Raises IsDraw _ _ (drawn-Raises (rng.sqrt ratio)) (λ root.
                  bind-Raises IsDraw _ _ (drawn-Raises (rng.div (rng.mul scale z.0) root))
                    (λ t. ok-Raises IsDraw (rng.add loc t, v.1))))))))
  sampler-Raises gamma params s h =
      fitted_three (λ p. Raises IsDraw (sampler fl rng gamma p s)) (lit "a") (lit "loc")
        (lit "scale") params h
        (λ shape loc scale g.
          bind-Raises IsDraw _ _ (drawn-Raises (rng.gammavariate shape scale s))
            (λ x. ok-Raises IsDraw (rng.add loc x.0, x.1)))
  sampler-Raises lognormal params s h =
      fitted_three (λ p. Raises IsDraw (sampler fl rng lognormal p s)) (lit "s") (lit "loc")
        (lit "scale") params h
        (λ sigma loc scale g.
          bind-Raises IsDraw (raising log_parameter (rng.log scale)) _
            (never-Raises log_parameter _ (log-defined scale g.2.2.1))
            (λ mu.
              bind-Raises IsDraw _ _ (drawn-Raises (rng.lognormvariate mu sigma s))
                (λ x. ok-Raises IsDraw (rng.add loc x.0, x.1))))
  sampler-Raises weibull_min params s h =
      fitted_three (λ p. Raises IsDraw (sampler fl rng weibull_min p s)) (lit "c") (lit "loc")
        (lit "scale") params h
        (λ shape loc scale g.
          bind-Raises IsDraw _ _ (drawn-Raises (rng.weibullvariate scale shape s))
            (λ x. ok-Raises IsDraw (rng.add loc x.0, x.1)))
  sampler-Raises loglogistic params s h =
      fitted_three (λ p. Raises IsDraw (sampler fl rng loglogistic p s)) (lit "c") (lit "loc")
        (lit "scale") params h
        (λ shape loc scale g.
          let u = rng.random s in
          bind-Raises IsDraw _ _ (drawn-Raises (rng.div u.0 (fl.sub rng.one u.0))) (λ odds.
            bind-Raises IsDraw (raising zero_parameter (rng.div rng.one shape)) _
              (never-Raises zero_parameter _ (div-defined rng.one shape g.1))
              (λ exponent.
                bind-Raises IsDraw _ _ (drawn-Raises (rng.power odds exponent))
                  (λ x. ok-Raises IsDraw (rng.add loc (rng.mul scale x), u.1)))))

  -- A draw of a known family with its parameters, the scales and shapes positive, fails only by the
  -- random generator or an operation on what it drew.
  pub sample-Raises :
      (d : Distribution fl.Float) (s : State)
      → IsFitted fl d
      → Raises (λ (e : SampleError). e ≡ draw_raised) (sample fl rng d s)
  unfolding sample
  sample-Raises d s f = rw (f.family, sample) (sampler-Raises f.known d.params s f.params)
