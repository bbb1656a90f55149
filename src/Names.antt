-- ===== src/Names.antt =====
-- libs/tqtk-common/src/tqtk_common/names.py: stream and key names, and the patterns that the parts
-- of a name must match. A `Timeframe` member is its own string, so the timeframe is a text here, and
-- `Timeframe(text)` is looked up.
pub mod Separators
pub mod Injective
use tqtk_price_streaming.Prelude.{
  ℕ, Bool, true, false, ◌&&◌, ◌||◌, Option, none, some, List, [], ◌∷◌, ◌++◌, all, length, leb,
  nat_beq, Result, ok, err, ◌>>=◌, if◌then◌else◌,
}
use tqtk_price_streaming.Prelude.Text.{Str, lit}
use tqtk_price_streaming.Records.Timeframe.{Timeframe, value, timeframe_of}

-- The `ValueError` of each check, with the offending text.
pub data NameError : Type 0 where
  bad_provider bad_symbol bad_timeframe : Str → NameError

abbrev pub within : ℕ → ℕ → ℕ → Bool
within lo hi c = leb lo c && leb c hi

-- [a-z0-9]
unfoldable pub lower_or_digit : ℕ → Bool
lower_or_digit c = within b'a' b'z' c || within b'0' b'9' c

-- [a-z0-9_-]
unfoldable pub provider_char : ℕ → Bool
unfolding lower_or_digit
provider_char c = lower_or_digit c || nat_beq c b'_' || nat_beq c b'-'

-- [A-Z0-9]
unfoldable pub symbol_char : ℕ → Bool
symbol_char c = within b'A' b'Z' c || within b'0' b'9' c

-- PROVIDER_PATTERN: ^[a-z0-9][a-z0-9_-]*$
unfoldable pub matches_provider : Str → Bool
unfolding lower_or_digit provider_char all
matches_provider [] = false
matches_provider (c ∷ s) = lower_or_digit c && all provider_char s

-- SYMBOL_PATTERN: ^[A-Z0-9]{2,20}$
unfoldable pub matches_symbol : Str → Bool
unfolding symbol_char all
matches_symbol s = within 2 20 (length s) && all symbol_char s

unfoldable pub checked_provider : Str → Result NameError Str
checked_provider p = if matches_provider p then ok p else err (bad_provider p)

unfoldable pub checked_symbol : Str → Result NameError Str
checked_symbol s = if matches_symbol s then ok s else err (bad_symbol s)

-- Timeframe(timeframe)
unfoldable pub checked_timeframe : Str → Result NameError Timeframe
checked_timeframe text = elim (timeframe_of text) [
  | none ↦ err (bad_timeframe text)
  | some t ↦ ok t
]

-- The f-strings, over parts that have been checked.
abbrev pub tick_name : Str → Str → Str
tick_name p s = lit "ticks.raw." ++ (p ++ (b'.' ∷ s))

abbrev pub bar_name : Timeframe → Str → Str → Str
bar_name t p s = lit "bars." ++ (value t ++ (b'.' ∷ (p ++ (b'.' ∷ s))))

abbrev pub bar_state_name : Str → Str → Timeframe → Str
bar_state_name p s t = lit "bar_state:" ++ (p ++ (b':' ∷ (s ++ (b':' ∷ value t))))

unfoldable pub tick_stream : Str → Str → Result NameError Str
unfolding checked_provider checked_symbol
tick_stream provider symbol = do
  p ← checked_provider provider
  s ← checked_symbol symbol
  ok (tick_name p s)

unfoldable pub bar_stream : Str → Str → Str → Result NameError Str
unfolding checked_provider checked_symbol checked_timeframe
bar_stream provider symbol timeframe = do
  t ← checked_timeframe timeframe
  p ← checked_provider provider
  s ← checked_symbol symbol
  ok (bar_name t p s)

unfoldable pub bar_state_key : Str → Str → Str → Result NameError Str
unfolding checked_provider checked_symbol checked_timeframe
bar_state_key provider symbol timeframe = do
  p ← checked_provider provider
  s ← checked_symbol symbol
  t ← checked_timeframe timeframe
  ok (bar_state_name p s t)
