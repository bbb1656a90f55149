-- ===== src/Records/Timeframe.antt =====
-- `Side` and `Timeframe`: closed string enums, and the width of a timeframe.
use tqtk_price_streaming.Prelude.{
  ℕ, ◌*◌, ◌%◌, ◌≡◌, refl, Option, none, some, List, [], ◌∷◌, if◌then◌else◌, ◌==◌, arith, list_beq,
  ==_iff,
}
use tqtk_price_streaming.Prelude.Text.{Str, lit, str_eq}

pub data Side : Type 0 where
  bid ask : Side

unfoldable pub side_value : Side → Str
side_value Side.bid = lit "bid"
side_value Side.ask = lit "ask"

pub data Timeframe : Type 0 where
  s1 m1 m5 m15 m30 h1 h4 d1 : Timeframe

-- The member's string, which is also what `str` and an f-string show of it.
unfoldable pub value : Timeframe → Str
value s1 = lit "1s"
value m1 = lit "1m"
value m5 = lit "5m"
value m15 = lit "15m"
value m30 = lit "30m"
value h1 = lit "1h"
value h4 = lit "4h"
value d1 = lit "1D"

abbrev pub members : List Timeframe
members = s1 ∷ m1 ∷ m5 ∷ m15 ∷ m30 ∷ h1 ∷ h4 ∷ d1 ∷ []

-- `Enum(text)`: the member whose value is the text, if there is one.
module _ {E : Type 0} (value_of : E → Str) where
  unfoldable pub from_value : List E → Str → Option E
  from_value [] text = none
  from_value (m ∷ ms) text = if value_of m == text then some m else from_value ms text

  from_value-value :
      (ms : List E) (text : Str) {m : E} → from_value ms text ≡ some m → value_of m ≡ text
  unfolding from_value
  from_value-value [] text h = cc
  from_value-value (m ∷ ms) text {m = found} h =
      ground (arith, ==_iff (value_of m) text, from_value-value ms text {m = found})

unfoldable pub side_of : Str → Option Side
unfolding from_value side_value
side_of = from_value side_value (Side.bid ∷ Side.ask ∷ [])

unfoldable pub timeframe_of : Str → Option Timeframe
unfolding from_value value
timeframe_of = from_value value members

unfoldable pub seconds : Timeframe → ℕ
seconds s1 = 1
seconds m1 = 60
seconds m5 = 5 * 60
seconds m15 = 15 * 60
seconds m30 = 30 * 60
seconds h1 = 60 * 60
seconds h4 = 4 * 60 * 60
seconds d1 = 24 * 60 * 60

abbrev pub micros_per_second : ℕ
micros_per_second = 1000000

unfoldable pub micros : Timeframe → ℕ
unfolding seconds
micros t = seconds t * micros_per_second

pub side_of-side_value : (s : Side) → side_of (side_value s) ≡ some s
unfolding side_of list_beq
side_of-side_value Side.bid = refl
side_of-side_value Side.ask = refl

-- Only a member's string is read as it.
pub value-timeframe_of : (text : Str) {t : Timeframe} → timeframe_of text ≡ some t → value t ≡ text
unfolding timeframe_of
value-timeframe_of text h = from_value-value value members text h

-- Reading a member's string gives that member back.
pub timeframe_of-value : (t : Timeframe) → timeframe_of (value t) ≡ some t
unfolding timeframe_of list_beq
timeframe_of-value s1 = refl
timeframe_of-value m1 = refl
timeframe_of-value m5 = refl
timeframe_of-value m15 = refl
timeframe_of-value m30 = refl
timeframe_of-value h1 = refl
timeframe_of-value h4 = refl
timeframe_of-value d1 = refl

-- A time that is on a boundary of days is on a boundary of every timeframe.
micros_divides_day : (t : Timeframe) (ts : ℕ) → ts % micros d1 ≡ 0 → ts % micros t ≡ 0
unfolding micros
micros_divides_day s1 ts h = omega arith
micros_divides_day m1 ts h = omega arith
micros_divides_day m5 ts h = omega arith
micros_divides_day m15 ts h = omega arith
micros_divides_day m30 ts h = omega arith
micros_divides_day h1 ts h = omega arith
micros_divides_day h4 ts h = omega arith
micros_divides_day d1 ts h = omega arith
