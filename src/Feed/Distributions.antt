-- ===== src/Feed/Distributions.antt =====
-- services/feed-adapter-synthetic/src/feed_adapter_synthetic/distributions.py: a fitted family with
-- its parameters, and sampling from it. Float arithmetic and `random.Random` are parameters; what
-- may raise (ZeroDivisionError, OverflowError, ValueError) gives nothing where it does.
pub mod Samples
use tqtk_price_streaming.Prelude.{
  Bool, true, false, Option, none, some, List, [], ◌∷◌, Result, ok, err, ◌>>=◌, any, ◌==◌, ◌≡◌,
}
use tqtk_price_streaming.Prelude.Text.{Str, lit, str_eq}
use tqtk_price_streaming.Records.Floats.{Floats}
use tqtk_price_streaming.Records.Timeframe.{from_value}

-- `random.Random` and the `math` functions of the samplers.
pub record Random (fl : Floats) : Type 1 where
  pub State : Type 0
  pub gauss : fl.Float → fl.Float → State → Option (fl.Float × State)
  pub expovariate : fl.Float → State → Option (fl.Float × State)
  pub gammavariate : fl.Float → fl.Float → State → Option (fl.Float × State)
  pub lognormvariate : fl.Float → fl.Float → State → Option (fl.Float × State)
  pub weibullvariate : fl.Float → fl.Float → State → Option (fl.Float × State)
  pub random : State → fl.Float × State
  pub add : fl.Float → fl.Float → fl.Float
  pub mul : fl.Float → fl.Float → fl.Float
  pub div : fl.Float → fl.Float → Option fl.Float
  pub power : fl.Float → fl.Float → Option fl.Float
  pub sqrt : fl.Float → Option fl.Float
  pub log : fl.Float → Option fl.Float
  pub one : fl.Float
  pub two : fl.Float
  -- Division raises for a zero divisor only, and `math.log` for zero and negative numbers only.
  pub div_raises : (a b : fl.Float) → div a b ≡ none → fl.le b fl.zero ≡ true
  pub log_raises : (x : fl.Float) → log x ≡ none → fl.le x fl.zero ≡ true

pub data Family : Type 0 where
  constant normal laplace student_t gamma lognormal weibull_min loglogistic : Family

unfoldable pub family_name : Family → Str
family_name constant = lit "constant"
family_name normal = lit "normal"
family_name laplace = lit "laplace"
family_name student_t = lit "student_t"
family_name gamma = lit "gamma"
family_name lognormal = lit "lognormal"
family_name weibull_min = lit "weibull_min"
family_name loglogistic = lit "loglogistic"

abbrev pub families : List Family
families =
    constant ∷ normal ∷ laplace ∷ student_t ∷ gamma ∷ lognormal ∷ weibull_min ∷ loglogistic ∷ []

-- The key lookup in `_SAMPLERS` and in `FAMILY_PARAMETERS`.
unfoldable pub family_of : Str → Option Family
unfolding from_value family_name
family_of = from_value family_name families

-- FAMILY_PARAMETERS
unfoldable pub family_parameters : Family → List Str
family_parameters constant = lit "value" ∷ []
family_parameters normal = lit "loc" ∷ lit "scale" ∷ []
family_parameters laplace = lit "loc" ∷ lit "scale" ∷ []
family_parameters student_t = lit "df" ∷ lit "loc" ∷ lit "scale" ∷ []
family_parameters gamma = lit "a" ∷ lit "loc" ∷ lit "scale" ∷ []
family_parameters lognormal = lit "s" ∷ lit "loc" ∷ lit "scale" ∷ []
family_parameters weibull_min = lit "c" ∷ lit "loc" ∷ lit "scale" ∷ []
family_parameters loglogistic = lit "c" ∷ lit "loc" ∷ lit "scale" ∷ []

-- UNBOUNDED_PARAMETERS
unfoldable pub is_unbounded : Str → Bool
is_unbounded name = any (λ n. n == name) (lit "value" ∷ lit "loc" ∷ [])

-- The `ValueError` of an unknown family, and that of an unpacking; a division by a parameter and a
-- logarithm of one that raise; and any other exception of the random generator or of an operation
-- on what it drew.
pub data SampleError : Type 0 where
  no_sampler wrong_count zero_parameter log_parameter draw_raised : SampleError

unfoldable pub raising : {A : Type 0} → SampleError → Option A → Result SampleError A
raising e (some a) = ok a
raising e none = err e

pub record Distribution (F : Type 0) : Type 0 where
  pub family : Str
  pub params : List F

module _ (fl : Floats) (rng : Random fl) where
  open rng use {State, add, mul, div}

  abbrev pub Draw : Type 0
  Draw = Result SampleError (fl.Float × State)

  unfoldable pub sample_constant : List fl.Float → State → Draw
  sample_constant (value ∷ []) s = ok (value, s)
  sample_constant _ s = err wrong_count

  unfoldable pub sample_normal : List fl.Float → State → Draw
  unfolding raising
  sample_normal (loc ∷ scale ∷ []) s = raising draw_raised (rng.gauss loc scale s)
  sample_normal _ s = err wrong_count

  unfoldable pub sample_laplace : List fl.Float → State → Draw
  unfolding raising
  sample_laplace (loc ∷ scale ∷ []) s = do
    rate ← raising zero_parameter (div rng.one scale)
    (x, s') ← raising draw_raised (rng.expovariate rate s)
    (y, s'') ← raising draw_raised (rng.expovariate rate s')
    ok (fl.sub (add loc x) y, s'')
  sample_laplace _ s = err wrong_count

  unfoldable pub sample_student_t : List fl.Float → State → Draw
  unfolding raising
  sample_student_t (df ∷ loc ∷ scale ∷ []) s = do
    (z, s') ← raising draw_raised (rng.gauss fl.zero rng.one s)
    half ← raising draw_raised (div df rng.two)
    (v, s'') ← raising draw_raised (rng.gammavariate half rng.two s')
    ratio ← raising zero_parameter (div v df)
    root ← raising draw_raised (rng.sqrt ratio)
    t ← raising draw_raised (div (mul scale z) root)
    ok (add loc t, s'')
  sample_student_t _ s = err wrong_count

  unfoldable pub sample_gamma : List fl.Float → State → Draw
  unfolding raising
  sample_gamma (shape ∷ loc ∷ scale ∷ []) s = do
    (x, s') ← raising draw_raised (rng.gammavariate shape scale s)
    ok (add loc x, s')
  sample_gamma _ s = err wrong_count

  unfoldable pub sample_lognormal : List fl.Float → State → Draw
  unfolding raising
  sample_lognormal (sigma ∷ loc ∷ scale ∷ []) s = do
    mu ← raising log_parameter (rng.log scale)
    (x, s') ← raising draw_raised (rng.lognormvariate mu sigma s)
    ok (add loc x, s')
  sample_lognormal _ s = err wrong_count

  -- `weibullvariate` takes the scale before the shape.
  unfoldable pub sample_weibull_min : List fl.Float → State → Draw
  unfolding raising
  sample_weibull_min (shape ∷ loc ∷ scale ∷ []) s = do
    (x, s') ← raising draw_raised (rng.weibullvariate scale shape s)
    ok (add loc x, s')
  sample_weibull_min _ s = err wrong_count

  unfoldable pub sample_loglogistic : List fl.Float → State → Draw
  unfolding raising
  sample_loglogistic (shape ∷ loc ∷ scale ∷ []) s = do
    let (u, s') = rng.random s
    odds ← raising draw_raised (div u (fl.sub rng.one u))
    exponent ← raising zero_parameter (div rng.one shape)
    x ← raising draw_raised (rng.power odds exponent)
    ok (add loc (mul scale x), s')
  sample_loglogistic _ s = err wrong_count

  -- _SAMPLERS
  unfoldable pub sampler : Family → List fl.Float → State → Draw
  unfolding sample_constant sample_normal sample_laplace sample_student_t sample_gamma
      sample_lognormal sample_weibull_min sample_loglogistic
  sampler constant = sample_constant
  sampler normal = sample_normal
  sampler laplace = sample_laplace
  sampler student_t = sample_student_t
  sampler gamma = sample_gamma
  sampler lognormal = sample_lognormal
  sampler weibull_min = sample_weibull_min
  sampler loglogistic = sample_loglogistic

  unfoldable pub sample : Distribution fl.Float → State → Draw
  sample d s = elim (family_of d.family) [ none ↦ err no_sampler | some f ↦ sampler f d.params s ]
