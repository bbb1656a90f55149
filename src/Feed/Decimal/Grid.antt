-- ===== src/Feed/Decimal/Grid.antt =====
-- Decimals with one exponent behave as integers.
use tqtk_price_streaming.Prelude.{
  ℕ, zero, suc, ◌+◌, ◌*◌, ◌^◌, ◌≤◌, ◌<◌, ◌≡◌, ap, true, not, ok, arith,
}
use tqtk_price_streaming.Prelude.Int.{ℤ, pos, negsuc}
use tqtk_price_streaming.Feed.Decimal.{
  Decimal, zero_decimal, gap, leb_ℤ, add_ℤ, with_sign_of, magnitude, scale_up, at_exponent, lower,
  fix, add, lt, max, rescaled, quantize,
}

gap_self : (e : ℤ) → gap e e ≡ 0
unfolding gap
gap_self e = omega arith

scale_up-zero : (c : ℤ) → scale_up c 0 ≡ c
unfolding scale_up
scale_up-zero (pos n) = ap pos (omega arith)
scale_up-zero (negsuc n) = let e : suc n * 1 ≡ suc n = omega arith in ap (with_sign_of (negsuc n)) e

lower_self : (e : ℤ) → lower e e ≡ e
unfolding lower
lower_self e = ground arith

at_exponent_self : (x : Decimal) → at_exponent x x.exponent ≡ x.coefficient
unfolding at_exponent
at_exponent_self x = rw (gap_self x.exponent) (scale_up-zero x.coefficient)

pub fix_small : (x : Decimal) → magnitude x.coefficient < 10 ^ 28 → fix x ≡ x
unfolding fix
fix_small x h = ground arith

-- On one grid a sum adds the coefficients.
add_grid :
    (c d e : ℤ)
    → add (record { coefficient = c; exponent = e }) (record { coefficient = d; exponent = e })
      ≡ fix (record { coefficient = add_ℤ c d; exponent = e })
add_grid c d e =
    unfold add in
    rw (
      lower_self e,
      at_exponent_self (record { coefficient = c; exponent = e }),
      at_exponent_self (record { coefficient = d; exponent = e }),
    )

-- On one grid the order is that of the coefficients.
lt_grid :
    (c d e : ℤ)
    → lt (record { coefficient = c; exponent = e }) (record { coefficient = d; exponent = e })
      ≡ not (leb_ℤ d c)
lt_grid c d e =
    unfold lt in
    rw (
      lower_self e,
      at_exponent_self (record { coefficient = c; exponent = e }),
      at_exponent_self (record { coefficient = d; exponent = e }),
    )

lower_left : (a b : ℤ) → leb_ℤ a b ≡ true → lower a b ≡ a
unfolding lower
lower_left a b h = rw h

zero-at_exponent : (e : ℤ) → at_exponent zero_decimal e ≡ pos 0
unfolding at_exponent scale_up
zero-at_exponent e = ap pos (omega arith)

-- A coefficient is negative on any grid that is no coarser than 1.
lt_zero :
    (c e : ℤ)
    → leb_ℤ e (pos 0) ≡ true
    → lt (record { coefficient = c; exponent = e }) zero_decimal ≡ not (leb_ℤ (pos 0) c)
lt_zero c e h =
    unfold lt in
    rw (
      lower_left e (pos 0) h,
      at_exponent_self (record { coefficient = c; exponent = e }),
      zero-at_exponent e,
    )

add_zero :
    (c e : ℤ)
    → leb_ℤ e (pos 0) ≡ true
    → add (record { coefficient = c; exponent = e }) zero_decimal
      ≡ fix (record { coefficient = add_ℤ c (pos 0); exponent = e })
add_zero c e h =
    unfold add in
    rw (
      lower_left e (pos 0) h,
      at_exponent_self (record { coefficient = c; exponent = e }),
      zero-at_exponent e,
    )

add_ℤ-pos : (a b : ℕ) → add_ℤ (pos a) (pos b) ≡ pos (a + b)
unfolding add_ℤ
add_ℤ-pos a b = ground arith

pub quantize-ok :
    (x y z : Decimal)
    → quantize x y ≡ ok z
    → z ≡ record { coefficient = rescaled x y.exponent; exponent = y.exponent }
unfolding quantize
quantize-ok x y z h = ground arith

-- The larger of a decimal on the grid and the grid's unit is a positive multiple of the unit.
pub max_unit :
    (c e : ℤ)
    → (b : ℕ) × (1 ≤ b)
      × (max
            (record { coefficient = c; exponent = e })
            (record { coefficient = pos 1; exponent = e })
          ≡ record { coefficient = pos b; exponent = e })
unfolding max leb_ℤ
max_unit (pos zero) e = (1, omega arith, rw (lt_grid (pos 0) (pos 1) e))
max_unit (pos (suc n)) e = (suc n, omega arith, ground (arith, lt_grid (pos (suc n)) (pos 1) e))
max_unit (negsuc n) e = (1, omega arith, ground (arith, lt_grid (negsuc n) (pos 1) e))

-- The sum with a decimal on the grid, held at 0 from below.
pub add_max_zero :
    (b : ℕ) (c e : ℤ)
    → leb_ℤ e (pos 0) ≡ true
    → (s : ℕ) × (add
          (record { coefficient = pos b; exponent = e })
          (max (record { coefficient = c; exponent = e }) zero_decimal)
        ≡ fix (record { coefficient = pos (b + s); exponent = e }))
unfolding max leb_ℤ
add_max_zero b (pos n) e h =
    (n, ground (arith, lt_zero (pos n) e h, add_grid (pos b) (pos n) e, add_ℤ-pos b n))
add_max_zero b (negsuc n) e h =
    (0, ground (arith, lt_zero (negsuc n) e h, add_zero (pos b) e h, add_ℤ-pos b 0))
