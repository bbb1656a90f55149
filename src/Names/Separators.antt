-- ===== src/Names/Separators.antt =====
-- names.py: where the separators `.` and `:` occur in a name.
use tqtk_price_streaming.Prelude.{ℕ, ◌≡◌, ap, true, false, [], ◌∷◌, all, arith}
use tqtk_price_streaming.Prelude.Text.{Str}
use tqtk_price_streaming.Prelude.Parts.{IsFree}
use tqtk_price_streaming.Records.Timeframe.{Timeframe, value, s1, m1, m5, m15, m30, h1, h4, d1}
use tqtk_price_streaming.Names.{provider_char, symbol_char, matches_provider, matches_symbol}

all_provider-IsFree :
    (sep : ℕ) → provider_char sep ≡ false → (p : Str) → all provider_char p ≡ true → IsFree sep p
unfolding all
all_provider-IsFree sep bad [] h = tt
all_provider-IsFree sep bad (c ∷ p) h =
    (λ e. ground (arith, ap provider_char e), all_provider-IsFree sep bad p (ground arith))

pub provider-IsFree :
    (sep : ℕ) → provider_char sep ≡ false → (p : Str) → matches_provider p ≡ true → IsFree sep p
unfolding matches_provider
provider-IsFree sep bad [] h = tt
provider-IsFree sep bad (c ∷ p) h =
    (λ e. ground (arith), all_provider-IsFree sep bad p (ground arith))

all_symbol-IsFree :
    (sep : ℕ) → symbol_char sep ≡ false → (s : Str) → all symbol_char s ≡ true → IsFree sep s
unfolding all
all_symbol-IsFree sep bad [] h = tt
all_symbol-IsFree sep bad (c ∷ s) h =
    (λ e. ground (arith, ap symbol_char e), all_symbol-IsFree sep bad s (ground arith))

pub symbol-IsFree :
    (sep : ℕ) → symbol_char sep ≡ false → (s : Str) → matches_symbol s ≡ true → IsFree sep s
unfolding matches_symbol
symbol-IsFree sep bad s h = all_symbol-IsFree sep bad s (ground arith)

pub value-IsFree_dot : (t : Timeframe) → IsFree b'.' (value t)
unfolding value
value-IsFree_dot s1 = omega arith
value-IsFree_dot m1 = omega arith
value-IsFree_dot m5 = omega arith
value-IsFree_dot m15 = omega arith
value-IsFree_dot m30 = omega arith
value-IsFree_dot h1 = omega arith
value-IsFree_dot h4 = omega arith
value-IsFree_dot d1 = omega arith
