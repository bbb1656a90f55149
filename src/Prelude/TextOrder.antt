-- ===== src/Prelude/TextOrder.antt =====
-- The order of texts is total, and so is the order of tuples of texts.
use mathlib.Core.Path.{◌≡◌, refl}
use mathlib.Core.Bool.{Bool, true, ◌||◌}
use mathlib.Core.List.{[], ◌∷◌}
use native.Mathlib.Omega.{arith}
use tqtk_price_streaming.Prelude.Tests.{if◌then◌else◌}
use tqtk_price_streaming.Prelude.Equality.{◌==◌, ==_iff}
use tqtk_price_streaming.Prelude.Text.{Str, str_eq, str_leb}

pub str_leb-total : (a b : Str) → (str_leb a b || str_leb b a) ≡ true
unfolding str_leb
str_leb-total [] b = refl
str_leb-total (x ∷ a) [] = refl
str_leb-total (x ∷ a) (y ∷ b) = ground (arith, str_leb-total a b)

pub str_leb_trans : (a b c : Str) → str_leb a b ≡ true → str_leb b c ≡ true → str_leb a c ≡ true
unfolding str_leb
str_leb_trans [] b c h k = refl
str_leb_trans (x ∷ a) [] c h k = cc
str_leb_trans (x ∷ a) (y ∷ b) [] h k = cc
str_leb_trans (x ∷ a) (y ∷ b) (z ∷ c) h k = ground (arith, str_leb_trans a b c)

str_leb-antisym : (a b : Str) → str_leb a b ≡ true → str_leb b a ≡ true → a ≡ b
unfolding str_leb
str_leb-antisym [] [] h k = refl
str_leb-antisym [] (y ∷ b) h k = cc
str_leb-antisym (x ∷ a) [] h k = cc
str_leb-antisym (x ∷ a) (y ∷ b) h k = ground (arith, str_leb-antisym a b)

-- The comparison of two tuples whose first parts are `x` and `y`, from that of the rests.
unfoldable pub lex : Str → Str → Bool → Bool
lex x y rest = if x == y then rest else str_leb x y

pub lex-total : (x y : Str) (r s : Bool) → (r || s) ≡ true → (lex x y r || lex y x s) ≡ true
unfolding lex
lex-total x y r s h = ground (arith, ==_iff x y, ==_iff y x, str_leb-total x y)

pub lex_trans :
    (x y z : Str) (r s t : Bool)
    → (r ≡ true → s ≡ true → t ≡ true)
    → lex x y r ≡ true
    → lex y z s ≡ true
    → lex x z t ≡ true
unfolding lex
lex_trans x y z r s t h p q =
    ground (arith, h, ==_iff x y, ==_iff y z, ==_iff x z, str_leb_trans x y z, str_leb-antisym x y)
