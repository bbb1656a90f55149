-- ===== src/Prelude/Parts.antt =====
-- Texts in which a separator does not occur, and what `str.split` makes of them.
use Prim.Native.Nat.{ℕ}
use mathlib.Core.Path.{◌≡◌, refl}
use mathlib.Core.Logic.{◌≢◌}
use mathlib.Core.Bool.{true, false, not}
use mathlib.Core.List.{[], ◌∷◌, ◌++◌}
use native.Mathlib.Omega.{arith}
use tqtk_price_streaming.Prelude.Tests.{nat_beq}
use tqtk_price_streaming.Prelude.Lists.{all}
use tqtk_price_streaming.Prelude.Text.{Str, split_parts, split}

-- The character does not occur.
abbrev pub IsFree : ℕ → Str → Type 0
IsFree sep [] = Unit
IsFree sep (c ∷ s) = (c ≢ sep) × IsFree sep s

pub split_free :
    (sep : ℕ) (p q s t : Str)
    → IsFree sep p
    → IsFree sep q
    → p ++ (sep ∷ s) ≡ q ++ (sep ∷ t)
    → (p ≡ q) × (s ≡ t)
split_free sep [] [] s t fp fq e = (refl, cc)
split_free sep [] (d ∷ q) s t fp fq e = absurd (fq.0 (cc))
split_free sep (c ∷ p) [] s t fp fq e = absurd (fp.0 (cc))
split_free sep (c ∷ p) (d ∷ q) s t fp fq e =
    let (heads, rest) = split_free sep p q s t fp.1 fq.1 (cc) in (cc, rest)

pub IsFree-append : (sep : ℕ) (p q : Str) → IsFree sep p → IsFree sep q → IsFree sep (p ++ q)
IsFree-append sep [] q fp fq = fq
IsFree-append sep (c ∷ p) q fp fq = (fp.0, IsFree-append sep p q fp.1 fq)

differs : (c sep : ℕ) → c ≢ sep → nat_beq c sep ≡ false
differs c sep h = ground arith

pub split_parts-free : (sep : ℕ) (p : Str) → IsFree sep p → split_parts sep p ≡ (p, [])
unfolding split_parts
split_parts-free sep [] h = refl
split_parts-free sep (c ∷ p) h = rw (differs c sep h.0, split_parts-free sep p h.1) refl

pub split_parts-cut :
    (sep : ℕ) (p s : Str) → IsFree sep p → split_parts sep (p ++ (sep ∷ s)) ≡ (p, split sep s)
unfolding split_parts split
split_parts-cut sep [] s h = ground arith
split_parts-cut sep (c ∷ p) s h = rw (differs c sep h.0, split_parts-cut sep p s h.1) refl

pub all-IsFree : (sep : ℕ) (s : Str) → all (λ c. not (nat_beq c sep)) s ≡ true → IsFree sep s
unfolding all
all-IsFree sep [] h = tt
all-IsFree sep (c ∷ s) h = (λ e. ground arith, all-IsFree sep s (ground arith))

not-free : (sep : ℕ) (p q s : Str) → IsFree sep p → p ≢ q ++ (sep ∷ s)
not-free sep [] [] s h e = absurd cc
not-free sep [] (d ∷ q) s h e = absurd cc
not-free sep (c ∷ p) [] s h e = h.0 (cc)
not-free sep (c ∷ p) (d ∷ q) s h e = not-free sep p q s h.1 (cc)

-- The last separator of a text.
pub split_last :
    (sep : ℕ) (a b p q : Str)
    → IsFree sep p
    → IsFree sep q
    → a ++ (sep ∷ p) ≡ b ++ (sep ∷ q)
    → (a ≡ b) × (p ≡ q)
split_last sep [] [] p q fp fq e = (refl, cc)
split_last sep [] (d ∷ b) p q fp fq e = absurd (not-free sep p b q fp (cc))
split_last sep (c ∷ a) [] p q fp fq e = absurd (not-free sep q a p fq (cc))
split_last sep (c ∷ a) (d ∷ b) p q fp fq e =
    let (heads, rest) = split_last sep a b p q fp fq (cc) in (cc, rest)
