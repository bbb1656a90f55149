-- ===== src/Storage/Cuts.antt =====
-- testing.py: what the reader of a definition cuts off.
use tqtk_price_streaming.Prelude.{
  ℕ, ◌+◌, ◌≡◌, ◌≢◌, refl, ap, true, false, Bool-cases, inl, inr, none, some, [], ◌∷◌, ◌++◌, length,
  list_beq, nat_beq, ◌==◌, ==_iff, arith,
}
use tqtk_price_streaming.Prelude.Text.{Str, lit, str_eq, starts_with}
use tqtk_price_streaming.Prelude.Parts.{IsFree}
use tqtk_price_streaming.Storage.Reader.{cut_word, drop_comma, cut_end, cut_default, after_nine}

pub cut_word-first :
    (word rest : Str) → IsFree 32 word → cut_word (word ++ (32 ∷ rest)) ≡ (word, rest)
unfolding cut_word
cut_word-first [] rest free = refl
cut_word-first (c ∷ word) rest free =
    let other : nat_beq c 32 ≡ false = ground (arith, free.0) in
    rw (other, cut_word-first word rest free.1) refl

pub drop_comma-comma : (text : Str) → drop_comma (text ++ lit ",") ≡ text
unfolding drop_comma
drop_comma-comma [] = refl
drop_comma-comma (c ∷ []) = refl
drop_comma-comma (c ∷ d ∷ text) = ap (◌∷◌ c) (drop_comma-comma (d ∷ text))

pub drop_comma-end :
    (text end : Str) (c : ℕ) → drop_comma (text ++ (c ∷ end)) ≡ text ++ drop_comma (c ∷ end)
unfolding drop_comma
drop_comma-end [] end c = refl
drop_comma-end (d ∷ []) end c = refl
drop_comma-end (d ∷ e ∷ text) end c = ap (◌∷◌ d) (drop_comma-end (e ∷ text) end c)

length-append : (xs ys : Str) → length (xs ++ ys) ≡ length xs + length ys
length-append [] ys = omega arith
length-append (x ∷ xs) ys = let rest = length-append xs ys in omega (arith, rest)

longer_ne : (c : ℕ) (text end : Str) → ((c ∷ text) ++ end == end) ≡ false
longer_ne c text end = elim (Bool-cases ((c ∷ text) ++ end == end)) [
  | inr e ↦ e
  | inl e ↦
      let same : (c ∷ text) ++ end ≡ end = (==_iff ((c ∷ text) ++ end) end).0 e in
      let lengths : length ((c ∷ text) ++ end) ≡ length end = ap length same in
      let sum = length-append (c ∷ text) end in absurd (omega (arith, lengths, sum))
]

pub cut_end-found :
    (before : Str) → cut_end (lit " NOT NULL") (before ++ lit " NOT NULL") ≡ (before, true)
unfolding cut_end list_beq
cut_end-found [] = refl
cut_end-found (c ∷ before) = rw (longer_ne c before (lit " NOT NULL"), cut_end-found before) refl

other_start :
    (c d : ℕ) (text : Str) → d ≢ b'D' → starts_with (lit " DEFAULT ") (c ∷ d ∷ text) ≡ false
unfolding starts_with
other_start c d text other = ground (arith, other)

pub cut_default-found :
    (type default : Str)
    → IsFree b'D' type
    → cut_default (type ++ (lit " DEFAULT " ++ default)) ≡ (type, some default)
unfolding cut_default starts_with after_nine
cut_default-found [] default free = refl
cut_default-found (c ∷ []) default free =
    rw (other_start c 32 (lit "DEFAULT " ++ default) (λ e. absurd (omega (arith, e)))) refl
cut_default-found (c ∷ d ∷ type) default free =
    rw
      (
        other_start c d (type ++ (lit " DEFAULT " ++ default)) free.1.0,
        cut_default-found (d ∷ type) default free.1,
      )
      refl

pub cut_default-none : (type : Str) → IsFree b'D' type → cut_default type ≡ (type, none)
unfolding cut_default starts_with
cut_default-none [] free = refl
cut_default-none (c ∷ []) free = ground arith
cut_default-none (c ∷ d ∷ type) free =
    rw (other_start c d type free.1.0, cut_default-none (d ∷ type) free.1) refl
