-- ===== src/Feed/Calibration/Checks.antt =====
-- calibration_store.py: what the checks of one reply let through.
use tqtk_price_streaming.Prelude.{
  ℕ, ◌+◌, ◌*◌, ◌^◌, ◌≡◌, refl, sym, subst, ap, ◌∙◌, true, false, not, ◌||◌, Option, some, List, [],
  ◌∷◌, ok, >>=-eq-ok, arith,
}
use tqtk_price_streaming.Prelude.Text.{Str, str_eq}
use tqtk_price_streaming.Prelude.Int.{ℤ, pos, negsuc}
use tqtk_price_streaming.Records.Floats.{Floats}
use tqtk_price_streaming.Feed.Decimal
use tqtk_price_streaming.Feed.Decimal.{
  Decimal, magnitude, zero_decimal, at_exponent, scale_up, with_sign_of, leb_ℤ, lower, gap,
}
use tqtk_price_streaming.Feed.Distributions.{
  Family, family_of, family_parameters, is_unbounded, Distribution,
}
use tqtk_price_streaming.Feed.Generator.{Conversion, SymbolCalibration}
use tqtk_price_streaming.Feed.Calibration.{Raw, Parsing, Replies, required}
use tqtk_price_streaming.Feed.Calibration.Parse.{
  Instrument, Head, is_power_of_ten, parse_instrument, parse_head,
}
use tqtk_price_streaming.Feed.Calibration.Params.{read_param, read_values, read_distribution}

module _ (fl : Floats) where
  -- The values of a family's parameters: finite, and the scales and shapes positive.
  abbrev pub Fitted : List Str → List fl.Float → Type 0
  Fitted [] [] = Unit
  Fitted (name ∷ names) (x ∷ xs) =
      (fl.is_finite x ≡ true)
      × ((is_unbounded name || not (fl.le x fl.zero)) ≡ true)
      × Fitted names xs
  Fitted _ _ = ⊥

  -- The family is known, and each of its parameters has its value.
  pub record IsFitted (d : Distribution fl.Float) : Type 0 where
    pub known : Family
    pub family : family_of d.family ≡ some known
    pub params : Fitted (family_parameters known) d.params

  -- A power of ten as the increment, a positive price, and three distributions to draw from.
  pub record IsReady (c : SymbolCalibration fl.Float) : Type 0 where
    pub increment : c.price_increment.coefficient ≡ pos 1
    pub price : Decimal.lt zero_decimal c.initial_price ≡ true
    pub for_return : IsFitted c.return_distribution
    pub for_spread : IsFitted c.spread_distribution
    pub for_interval : IsFitted c.interval_distribution

negative_lem : (n : ℕ) (d : Decimal) → d.coefficient ≡ negsuc n → Decimal.lt zero_decimal d ≡ false
unfolding Decimal.lt at_exponent scale_up with_sign_of leb_ℤ
negative_lem n d h =
    let e = lower (pos 0) d.exponent in
    rw h (ap not (below_zero (magnitude (negsuc n) * 10 ^ gap d.exponent e) (gap (pos 0) e)))
  where
    below_zero : (m k : ℕ) → leb_ℤ (with_sign_of (negsuc n) m) (scale_up (pos 0) k) ≡ true
    below_zero m k = ground arith

power_of_ten_lem : (d : Decimal) → is_power_of_ten d ≡ true → d.coefficient ≡ pos 1
unfolding is_power_of_ten magnitude
power_of_ten_lem d h = split d.coefficient refl
  where
    split : (c : ℤ) → d.coefficient ≡ c → d.coefficient ≡ pos 1
    split (pos n) e = ground arith
    split (negsuc n) e = ground (arith, negative_lem n d e)

module _ (ps : Parsing) where
  pub parse_instrument-ok :
      (venue : Str) (raw : List (Raw × Raw)) {i : Instrument}
      → parse_instrument ps venue raw ≡ ok i
      → (i.pip_size.coefficient ≡ pos 1) × (Decimal.lt zero_decimal i.initial_price ≡ true)
  unfolding parse_instrument
  parse_instrument-ok venue raw {i = i} h = ground (arith, power_of_ten_lem i.pip_size)

  pub parse_head-ok :
      (venue quantity : Str) (family count : Option Raw) {h : Head}
      → parse_head ps venue quantity family count ≡ ok h
      → family_of h.family ≡ some h.known
  unfolding parse_head required
  parse_head-ok venue quantity family count e = ground arith

module _ (fl : Floats) (conv : Conversion fl) (ps : Parsing) where
  read_param-ok :
      (venue key name : Str) (pip_size : Decimal) (raw : List (Raw × Raw)) {x : fl.Float}
      → read_param fl conv ps venue key name pip_size raw ≡ ok x
      → (fl.is_finite x ≡ true) × ((is_unbounded name || not (fl.le x fl.zero)) ≡ true)
  unfolding read_param
  read_param-ok venue key name pip_size raw h = ground arith

  read_values-Fitted :
      (replies : Replies) (venue prefix : Str) (pip_size : Decimal) (n : ℕ) (names : List Str)
      {xs : List fl.Float}
      → read_values fl conv ps replies venue prefix pip_size n names ≡ ok xs
      → Fitted fl names xs
  unfolding read_values
  read_values-Fitted replies venue prefix pip_size n [] {xs = []} h = tt
  read_values-Fitted replies venue prefix pip_size n [] {xs = x ∷ xs} h = cc
  read_values-Fitted replies venue prefix pip_size n (name ∷ names) {xs = []} h = ground arith
  read_values-Fitted replies venue prefix pip_size n (name ∷ names) {xs = x ∷ xs} h =
      let (y, first, h') = >>=-eq-ok (read_param fl conv ps venue _ name pip_size _) _ h in
      let (ys, rest, e) =
        >>=-eq-ok (read_values fl conv ps replies venue prefix pip_size (n + 1) names) _ h' in
      let (finite, positive) = read_param-ok venue _ name pip_size _ first in
      let heads : y ≡ x = ground (arith, e) in
      let tails : ys ≡ xs = ground (arith, e) in
      (
        cc (finite, heads),
        ground (arith, positive, heads),
        read_values-Fitted replies venue prefix pip_size (n + 1) names (rest ∙ ap ok tails),
      )

  pub read_distribution-IsFitted :
      (replies : Replies) (venue quantity : Str) (pip_size : Decimal) (h : Head)
      {d : Distribution fl.Float}
      → family_of h.family ≡ some h.known
      → read_distribution fl conv ps replies venue quantity pip_size h ≡ ok d
      → IsFitted fl d
  unfolding read_distribution
  read_distribution-IsFitted replies venue quantity pip_size h {d = d} known e =
      let (xs, read, e') = >>=-eq-ok (read_values fl conv ps replies venue _ pip_size 0 _) _ e in
      let same : d ≡ record { family = h.family; params = xs } = ground arith in
      subst (IsFitted fl) (sym same) (record {
        known = h.known;
        family = known;
        params = read_values-Fitted replies venue _ pip_size 0 _ read;
      })
