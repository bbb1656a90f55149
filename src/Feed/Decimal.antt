-- ===== src/Feed/Decimal.antt =====
-- Python's `decimal.Decimal` in the default context (28 digits, ROUND_HALF_EVEN), as far as the feed
-- uses it: a coefficient and an exponent of ten. The sign of a zero and the limits of the exponent
-- are not modelled, and of an exact zero's exponent only the value matters.
pub mod Grid
use tqtk_price_streaming.Prelude.{
  ℕ, zero, suc, ◌+◌, ◌-◌, ◌*◌, ◌/◌, ◌%◌, ◌^◌, Bool, true, false, not, ◌&&◌, Option, none, some, ltb,
  leb, nat_beq, Result, ok, err, if◌then◌else◌,
}
use tqtk_price_streaming.Prelude.Int.{ℤ, pos, negsuc, pos_part, neg_part}

pub record Decimal : Type 0 where
  pub coefficient : ℤ
  pub exponent : ℤ

-- `a - b` where it is not negative, and 0.
unfoldable pub gap : ℤ → ℤ → ℕ
gap a b = pos_part a + neg_part b - (pos_part b + neg_part a)

unfoldable pub leb_ℤ : ℤ → ℤ → Bool
leb_ℤ a b = leb (pos_part a + neg_part b) (pos_part b + neg_part a)

unfoldable pub add_ℤ : ℤ → ℤ → ℤ
add_ℤ a b =
    let up = pos_part a + pos_part b in
    let down = neg_part a + neg_part b in
    if leb down up then pos (up - down) else negsuc (down - up - 1)

-- A magnitude with the sign of an integer.
unfoldable pub with_sign_of : ℤ → ℕ → ℤ
with_sign_of (pos _) n = pos n
with_sign_of (negsuc _) zero = pos 0
with_sign_of (negsuc _) (suc n) = negsuc n

unfoldable pub magnitude : ℤ → ℕ
magnitude (pos n) = n
magnitude (negsuc n) = suc n

unfoldable pub scale_up : ℤ → ℕ → ℤ
unfolding with_sign_of magnitude
scale_up c k = with_sign_of c (magnitude c * 10 ^ k)

-- `n / d`, rounded to the nearest, a tie to the even side.
unfoldable pub half_even : ℕ → ℕ → ℕ
half_even n d =
    let q = n / d in
    let r = n % d in
    if ltb (2 * r) d
    then q
    else if ltb d (2 * r)
    then q + 1
    else if nat_beq (q % 2) 0
    then q
    else q + 1

-- The digits of a coefficient that are beyond the precision; the fuel bounds the digits.
unfoldable pub excess : ℕ → ℕ → ℕ
excess zero n = 0
excess (suc fuel) n = elim (ltb n (10 ^ 28)) [ true ↦ 0 | false ↦ suc (excess fuel (n / 10)) ]

-- `_fix`: a result is rounded to 28 digits.
unfoldable pub fix : Decimal → Decimal
unfolding excess half_even with_sign_of magnitude add_ℤ
fix x =
    let n = magnitude x.coefficient in
    if ltb n (10 ^ 28)
    then x
    else let k = excess n n in
      let m = half_even n (10 ^ k) in
      if ltb m (10 ^ 28)
      then record {
        coefficient = with_sign_of x.coefficient m;
        exponent = add_ℤ x.exponent (pos k);
      }
      else record {
        coefficient = with_sign_of x.coefficient (m / 10);
        exponent = add_ℤ x.exponent (pos (k + 1));
      }

-- The coefficient at an exponent that is not above the decimal's own.
unfoldable pub at_exponent : Decimal → ℤ → ℤ
unfolding scale_up gap
at_exponent x e = scale_up x.coefficient (gap x.exponent e)

unfoldable pub lower : ℤ → ℤ → ℤ
unfolding leb_ℤ
lower a b = if leb_ℤ a b then a else b

-- `x + y`
unfoldable pub add : Decimal → Decimal → Decimal
add x y =
    let e = lower x.exponent y.exponent in
    fix (record { coefficient = add_ℤ (at_exponent x e) (at_exponent y e); exponent = e })

unfoldable pub mul_ℤ : ℤ → ℤ → ℤ
unfolding with_sign_of magnitude
mul_ℤ (pos a) b = with_sign_of b (a * magnitude b)
mul_ℤ (negsuc a) (pos b) = with_sign_of (negsuc a) (suc a * b)
mul_ℤ (negsuc a) (negsuc b) = pos (suc a * suc b)

-- `x * y`
unfoldable pub mul : Decimal → Decimal → Decimal
mul x y = fix (record {
  coefficient = mul_ℤ x.coefficient y.coefficient;
  exponent = add_ℤ x.exponent y.exponent;
})

-- `x.scaleb(n)`
unfoldable pub scaleb : Decimal → ℤ → Decimal
scaleb x n = fix (record x { exponent = add_ℤ x.exponent n })

-- `x < y`
unfoldable pub lt : Decimal → Decimal → Bool
lt x y = let e = lower x.exponent y.exponent in not (leb_ℤ (at_exponent y e) (at_exponent x e))

-- `max(x, y)`
unfoldable pub max : Decimal → Decimal → Decimal
max x y = if lt x y then y else x

-- InvalidOperation
pub data DecimalError : Type 0 where
  invalid_operation : DecimalError

-- The coefficient of `x` at the exponent, rounded half to even.
unfoldable pub rescaled : Decimal → ℤ → ℤ
rescaled x e =
    if leb_ℤ e x.exponent
    then at_exponent x e
    else with_sign_of x.coefficient (half_even (magnitude x.coefficient) (10 ^ gap e x.exponent))

-- `x.quantize(y, rounding=ROUND_HALF_EVEN)`, which uses the exponent of `y` alone.
unfoldable pub quantize : Decimal → Decimal → Result DecimalError Decimal
unfolding rescaled magnitude
quantize x y =
    let c = rescaled x y.exponent in
    if ltb (magnitude c) (10 ^ 28)
    then ok (record { coefficient = c; exponent = y.exponent })
    else err invalid_operation

-- Decimal(0)
abbrev pub zero_decimal : Decimal
zero_decimal = record { coefficient = pos 0; exponent = pos 0 }
