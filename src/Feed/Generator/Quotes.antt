-- ===== src/Feed/Generator/Quotes.antt =====
-- generator.py: the prices of a quote, on the instrument's grid.
use tqtk_price_streaming.Prelude.{
  ℕ, ◌+◌, ◌≤◌, ◌≡◌, refl, subst, true, Result, ok, err, ◌>>=◌, >>=-eq-ok, arith,
}
use tqtk_price_streaming.Prelude.Int.{pos}
use tqtk_price_streaming.Records.Floats.{Floats}
use tqtk_price_streaming.Feed.Distributions.{Random, sample}
use tqtk_price_streaming.Feed.Decimal
use tqtk_price_streaming.Feed.Decimal.{
  Decimal, DecimalError, leb_ℤ, zero_decimal, rescaled, fix, quantize,
}
use tqtk_price_streaming.Feed.Decimal.Grid.{quantize-ok, max_unit, add_max_zero}
use tqtk_price_streaming.Feed.Generator.{
  Conversion, RandomWalk, lift_sampling, finite_draw, lift_decimal, next_bid, next_spread,
  next_quote,
}

-- The increment is the unit of a grid that is no coarser than 1.
pub record IsUnit (increment : Decimal) : Type 0 where
  pub one : increment.coefficient ≡ pos 1
  pub fine : leb_ℤ increment.exponent (pos 0) ≡ true

abbrev pub units : Decimal → ℕ → Decimal
units increment n = record { coefficient = pos n; exponent = increment.exponent }

-- The bid is a positive number of units, and the ask is so many more, rounded to the 28 digits of
-- the context.
pub record IsQuote (increment bid ask : Decimal) : Type 0 where
  pub bid_units : ℕ
  pub spread_units : ℕ
  pub positive : 1 ≤ bid_units
  pub bid_on_grid : bid ≡ units increment bid_units
  pub ask_on_grid : ask ≡ fix (units increment (bid_units + spread_units))

IsUnit-eq :
    (increment : Decimal)
    → IsUnit increment
    → increment ≡ record { coefficient = pos 1; exponent = increment.exponent }
IsUnit-eq increment u = ground (arith, u.one)

lift_decimal-ok :
    (r : Result DecimalError Decimal) (f : Decimal → Decimal) {q : Decimal}
    → (lift_decimal r >>= λ z. ok (f z)) ≡ ok q
    → (z : Decimal) × (r ≡ ok z) × (f z ≡ q)
unfolding lift_decimal
lift_decimal-ok (ok z) f h = (z, refl, cc)
lift_decimal-ok (err e) f h = cc

module _ (fl : Floats) (rng : Random fl) (conv : Conversion fl) where
  next_bid_lem :
      (bid drawn increment q : Decimal)
      → IsUnit increment
      → next_bid fl rng conv bid drawn increment ≡ ok q
      → (b : ℕ) × (1 ≤ b) × (q ≡ units increment b)
  unfolding next_bid
  next_bid_lem bid drawn increment q u h =
      let (z, rounded, larger) =
        lift_decimal-ok (quantize (Decimal.add bid drawn) increment) (λ z. Decimal.max z increment)
          h in
      let on_grid = quantize-ok (Decimal.add bid drawn) increment z rounded in
      let (b, positive, e) =
        max_unit (rescaled (Decimal.add bid drawn) increment.exponent) increment.exponent in
      (b, positive, cc (larger, on_grid, e, IsUnit-eq increment u))

  next_spread_lem :
      (drawn increment q : Decimal)
      → next_spread fl rng conv drawn increment ≡ ok q
      → q
        ≡ Decimal.max
            (record {
              coefficient = rescaled drawn increment.exponent;
              exponent = increment.exponent;
            })
            zero_decimal
  unfolding next_spread
  next_spread_lem drawn increment q h =
      let (z, rounded, larger) =
        lift_decimal-ok (quantize drawn increment) (λ z. Decimal.max z zero_decimal) h in
      cc (larger, quantize-ok drawn increment z rounded)

  IsQuote-parts :
      (bid drawn step increment q spread : Decimal)
      → IsUnit increment
      → next_bid fl rng conv bid step increment ≡ ok q
      → next_spread fl rng conv drawn increment ≡ ok spread
      → IsQuote increment q (Decimal.add q spread)
  IsQuote-parts bid drawn step increment q spread u h k =
      let (b, positive, e) = next_bid_lem bid step increment q u h in
      let f = next_spread_lem drawn increment spread k in
      let (n, g) = add_max_zero b (rescaled drawn increment.exponent) increment.exponent u.fine in
      record {
        bid_units = b;
        spread_units = n;
        positive = positive;
        bid_on_grid = e;
        ask_on_grid = cc (e, f, g);
      }

  -- If the price increment is a unit no coarser than 1, a quote that is produced has a bid of a
  -- positive number of units and an ask that is so many units more, rounded to 28 digits; and
  -- the walk goes on from that bid.
  pub next_quote-IsQuote :
      (w : RandomWalk fl rng conv) {w' : RandomWalk fl rng conv} {bid ask : Decimal}
      → IsUnit w.calibration.price_increment
      → next_quote fl rng conv w ≡ ok (w', bid, ask)
      → IsQuote w.calibration.price_increment bid ask
        × (w'.bid ≡ bid)
        × (w'.calibration ≡ w.calibration)
  unfolding next_quote
  next_quote-IsQuote w {w' = w'} {bid = bid} {ask = ask} u h =
      let increment = w.calibration.price_increment in
      let (p, _, h1) =
        >>=-eq-ok (lift_sampling (sample fl rng w.calibration.return_distribution w.state)) _ h in
      let (step, _, h2) = >>=-eq-ok (finite_draw (conv.decimal_of p.0)) _ h1 in
      let (q, moved, h3) = >>=-eq-ok (next_bid fl rng conv w.bid step increment) _ h2 in
      let (p', _, h4) =
        >>=-eq-ok (lift_sampling (sample fl rng w.calibration.spread_distribution p.1)) _ h3 in
      let (drawn, _, h5) = >>=-eq-ok (finite_draw (conv.decimal_of p'.0)) _ h4 in
      let (spread, widened, h6) = >>=-eq-ok (next_spread fl rng conv drawn increment) _ h5 in
      let proper = IsQuote-parts w.bid drawn step increment q spread u moved widened in
      let same_bid : q ≡ bid = ground (arith, h6) in
      let same_ask : Decimal.add q spread ≡ ask = ground (arith, h6) in
      (
        subst (λ b. IsQuote increment b ask) same_bid
            (subst (λ a. IsQuote increment q a) same_ask proper),
        ground (arith, h6),
        ground (arith, h6),
      )
