-- ===== src/Prelude/Text.antt =====
-- Python's `str` as the list of its code points, so that programs which take a text apart compute
-- on variables too.
use Prim.Native.Nat.{ℕ}
use Prim.Native.Char.{code}
use Prim.Native.String.{String}
use mathlib.Core.Bool.{Bool, true, false, ◌&&◌, ◌||◌}
use mathlib.Core.List.{List, [], ◌∷◌, reverse}
use tqtk_price_streaming.Prelude.Tests.{ltb, leb, nat_beq, if◌then◌else◌}
use tqtk_price_streaming.Prelude.Equality.{Eq, list_eq, nat_eq}

abbrev pub Str : Type 0
Str = List ℕ

instance abbrev pub str_eq : Eq Str
str_eq = list_eq

-- A literal of the source.
abbrev pub lit : String → Str
lit String.[] = []
lit (String.◌∷◌ c s) = code c ∷ lit s

-- `s.startswith(prefix)`
unfoldable pub starts_with : Str → Str → Bool
starts_with [] s = true
starts_with (c ∷ p) [] = false
starts_with (c ∷ p) (d ∷ s) = nat_beq c d && starts_with p s

-- `a <= b` on texts: by code points, a prefix first.
unfoldable pub str_leb : Str → Str → Bool
str_leb [] b = true
str_leb (x ∷ a) [] = false
str_leb (x ∷ a) (y ∷ b) = if ltb x y then true else nat_beq x y && str_leb a b

-- `str.isspace` of one character.
unfoldable pub is_space : ℕ → Bool
is_space c =
    (leb 9 c && leb c 13)
    || (leb 28 c && leb c 32)
    || nat_beq c 0x85
    || nat_beq c 0xa0
    || nat_beq c 0x1680
    || (leb 0x2000 c && leb c 0x200a)
    || nat_beq c 0x2028
    || nat_beq c 0x2029
    || nat_beq c 0x202f
    || nat_beq c 0x205f
    || nat_beq c 0x3000

unfoldable pub lstrip : (ℕ → Bool) → Str → Str
lstrip p [] = []
lstrip p (c ∷ s) = elim (p c) [ true ↦ lstrip p s | false ↦ c ∷ s ]

-- Without the characters that satisfy the test at either end.
unfoldable pub strip : (ℕ → Bool) → Str → Str
unfolding lstrip
strip p s = reverse (lstrip p (reverse (lstrip p s)))

-- `s.split(sep)` at a one-character separator: the part before the first, and the parts after it.
unfoldable pub split_parts : ℕ → Str → Str × List Str
split_parts sep [] = ([], [])
split_parts sep (c ∷ s) =
    let (first, rest) = split_parts sep s in
    if nat_beq c sep then ([], first ∷ rest) else (c ∷ first, rest)

unfoldable pub split : ℕ → Str → List Str
unfolding split_parts
split sep s = (split_parts sep s).0 ∷ (split_parts sep s).1
