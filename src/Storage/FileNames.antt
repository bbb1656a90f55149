-- ===== src/Storage/FileNames.antt =====
-- testing.py: the files that hold the versions of the tables.
use mathlib.Core.List.{append_assoc, append_cancel_right}
use tqtk_price_streaming.Prelude.{
  ℕ, zero, suc, ◌+◌, ◌-◌, ◌*◌, ◌/◌, ◌%◌, ◌<◌, ◌≤◌, true, false, ◌≡◌, sym, ap, ◌∙◌, [], ◌∷◌, ◌++◌,
  ltb, arith, Bool-cases, inl, inr,
}
use tqtk_price_streaming.Prelude.Text.{Str, lit}
use tqtk_price_streaming.Prelude.Parts.{IsFree, split_last}
use tqtk_price_streaming.Storage.{digits, shown, file_name}

-- The number that decimal digits show.
unfoldable number : ℕ → Str → ℕ
number so_far [] = so_far
number so_far (c ∷ s) = number (so_far * 10 + (c - 48)) s

one_digit : (n : ℕ) → ltb n 10 ≡ true → 0 * 10 + (48 + n % 10 - 48) ≡ n
one_digit n h = let small : n < 10 = ground arith in omega arith

last_digit : (n : ℕ) → n / 10 * 10 + (48 + n % 10 - 48) ≡ n
last_digit n = omega arith

smaller : (n fuel : ℕ) → ltb n 10 ≡ false → n < suc fuel → n / 10 < fuel
smaller n fuel large h = let big : 10 ≤ n = ground arith in omega arith

number-digits :
    (fuel n : ℕ) (after : Str) → n < fuel → number 0 (digits fuel n after) ≡ number n after
unfolding digits number
number-digits zero n after h = absurd (omega arith)
number-digits (suc fuel) n after h = elim (Bool-cases (ltb n 10)) [
  | inl small ↦ rw small (ap (λ k. number k after) (one_digit n small))
  | inr large ↦ rw large (
      number-digits fuel (n / 10) ((48 + n % 10) ∷ after) (smaller n fuel large h)
      ∙ ap (λ k. number k after) (last_digit n))
]

number-shown : (n : ℕ) → number 0 (shown n) ≡ n
unfolding shown number
number-shown n = number-digits (suc n) n [] (omega arith)

digits-IsFree : (fuel n : ℕ) (after : Str) → IsFree 118 after → IsFree 118 (digits fuel n after)
unfolding digits
digits-IsFree zero n after h = h
digits-IsFree (suc fuel) n after h =
    let one : IsFree 118 ((48 + n % 10) ∷ after) = (λ e. absurd (omega arith), h) in
    elim (Bool-cases (ltb n 10)) [
      | inl small ↦ rw small one
      | inr large ↦ rw large (digits-IsFree fuel (n / 10) _ one)
    ]

shown-IsFree : (n : ℕ) → IsFree 118 (shown n)
unfolding shown
shown-IsFree n = digits-IsFree (suc n) n [] tt

file_name_injective : (t u : Str) (m n : ℕ) → file_name t m ≡ file_name u n → (t ≡ u) × (m ≡ n)
unfolding file_name
file_name_injective t u m n h =
    let cut =
      append_cancel_right (t ++ (lit ".v" ++ shown m)) (u ++ (lit ".v" ++ shown n)) (lit ".json") (
        append_assoc t (lit ".v" ++ shown m) (lit ".json")
        ∙ h
        ∙ sym (append_assoc u (lit ".v" ++ shown n) (lit ".json"))) in
    let (tables, numbers) =
      split_last 118 (t ++ lit ".") (u ++ lit ".") (shown m) (shown n) (shown-IsFree m)
        (shown-IsFree n)
        (append_assoc t (lit ".") (lit "v" ++ shown m)
          ∙ cut
          ∙ sym (append_assoc u (lit ".") (lit "v" ++ shown n))) in
    (
      append_cancel_right t u (lit ".") tables,
      sym (number-shown m) ∙ ap (number 0) numbers ∙ number-shown n,
    )
