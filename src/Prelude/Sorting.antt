-- ===== src/Prelude/Sorting.antt =====
-- Python's `sorted`, by an order given as a test. What is sorted here is compared by its whole
-- value, so that of the sort only the order of the result matters.
use Prim.Native.Nat.{suc}
use mathlib.Core.Path.{◌≡◌, refl, ap, ◌∙◌}
use mathlib.Core.Logic.{inl, inr}
use mathlib.Core.Bool.{Bool, true, false, ◌||◌}
use mathlib.Core.List.{List, [], ◌∷◌}
use native.Mathlib.Omega.{arith}
use tqtk_price_streaming.Prelude.Tests.{if◌then◌else◌, Bool-cases}
use tqtk_price_streaming.Prelude.Equality.{Eq, ◌==◌, ==_iff}
use tqtk_price_streaming.Prelude.Lists.{All, length}

module _ {ℓ} {A : Type ℓ} (le : A → A → Bool) where
  unfoldable pub insert : A → List A → List A
  insert x [] = x ∷ []
  insert x (y ∷ ys) = if le x y then x ∷ y ∷ ys else y ∷ insert x ys

  unfoldable pub sorted : List A → List A
  unfolding insert
  sorted [] = []
  sorted (x ∷ xs) = insert x (sorted xs)

  -- Each element is before all that follow it.
  abbrev pub IsSorted : List A → Type ℓ
  IsSorted [] = Unit
  IsSorted (x ∷ xs) = All (λ y. le x y ≡ true) xs × IsSorted xs

  pub length-sorted : (xs : List A) → length (sorted xs) ≡ length xs
  unfolding sorted
  length-sorted [] = refl
  length-sorted (x ∷ xs) = length-insert x (sorted xs) ∙ ap suc (length-sorted xs)
    where
      length-insert : (x : A) (ys : List A) → length (insert x ys) ≡ suc (length ys)
      length-insert x [] = refl
      length-insert x (y ∷ ys) = ground (arith, length-insert x ys)

  module _ (total : (a b : A) → (le a b || le b a) ≡ true)
      (trans : (a b c : A) → le a b ≡ true → le b c ≡ true → le a c ≡ true) where
    All-above :
        (a b : A) (xs : List A)
        → le a b ≡ true
        → All (λ y. le b y ≡ true) xs
        → All (λ y. le a y ≡ true) xs
    All-above a b [] h all_b = tt
    All-above a b (x ∷ xs) h all_b = (trans a b x h all_b.0, All-above a b xs h all_b.1)

    All-insert : (P : A → Type 0) (x : A) (ys : List A) → P x → All P ys → All P (insert x ys)
    unfolding insert
    All-insert P x [] p ps = (p, tt)
    All-insert P x (y ∷ ys) p ps = elim (Bool-cases (le x y)) [
      | inl below ↦ rw below (p, ps)
      | inr above ↦ rw above (ps.0, All-insert P x ys p ps.1)
    ]

    insert-IsSorted : (x : A) (ys : List A) → IsSorted ys → IsSorted (insert x ys)
    unfolding insert
    insert-IsSorted x [] h = (tt, tt)
    insert-IsSorted x (y ∷ ys) h = elim (Bool-cases (le x y)) [
      | inl below ↦ rw below ((below, All-above x y ys below h.0), h)
      | inr above ↦ rw above (
        All-insert (λ z. le y z ≡ true) x ys (ground (arith, total x y)) h.0,
        insert-IsSorted x ys h.1,
      )
    ]

    pub sorted-IsSorted : (xs : List A) → IsSorted (sorted xs)
    unfolding sorted
    sorted-IsSorted [] = tt
    sorted-IsSorted (x ∷ xs) = insert-IsSorted x (sorted xs) (sorted-IsSorted xs)

module _ {ℓ} {A : Type ℓ} ⦃e : Eq A⦄ where
  -- `a in xs`
  unfoldable pub contains : A → List A → Bool
  contains a [] = false
  contains a (x ∷ xs) = x == a || contains a xs

  contains-insert :
      (le : A → A → Bool) (a x : A) (ys : List A)
      → contains a (insert le x ys) ≡ (x == a || contains a ys)
  unfolding contains insert
  contains-insert le a x [] = refl
  contains-insert le a x (y ∷ ys) = ground (arith, contains-insert le a x ys)

  pub contains-sorted :
      (le : A → A → Bool) (a : A) (xs : List A) → contains a (sorted le xs) ≡ contains a xs
  unfolding contains sorted
  contains-sorted le a [] = refl
  contains-sorted le a (x ∷ xs) =
      ground (arith, contains-insert le a x (sorted le xs), contains-sorted le a xs)

module _ {ℓ} {A : Type ℓ} ⦃e : Eq A⦄ where
  -- No element stands twice.
  abbrev pub AllDistinct : List A → Type 0
  AllDistinct [] = Unit
  AllDistinct (x ∷ xs) = (contains x xs ≡ false) × AllDistinct xs

  AllDistinct-insert :
      (le : A → A → Bool) (x : A) (ys : List A)
      → contains x ys ≡ false
      → AllDistinct ys
      → AllDistinct (insert le x ys)
  unfolding contains insert
  AllDistinct-insert le x [] h d = (refl, tt)
  AllDistinct-insert le x (y ∷ ys) h d = elim (Bool-cases (le x y)) [
    | inl below ↦ rw below (h, d)
    | inr above ↦
        let other : contains x ys ≡ false = ground arith in
        let apart : (x == y) ≡ false = ground (arith, ==_iff x y, ==_iff y x) in
        rw above
          (ground (arith, contains-insert le y x ys, d.0), AllDistinct-insert le x ys other d.1)
  ]

  -- A list without repetitions has none when it is sorted.
  pub sorted-AllDistinct :
      (le : A → A → Bool) (xs : List A) → AllDistinct xs → AllDistinct (sorted le xs)
  unfolding sorted
  sorted-AllDistinct le [] h = tt
  sorted-AllDistinct le (x ∷ xs) h =
      AllDistinct-insert le x (sorted le xs) (contains-sorted le x xs ∙ h.0)
        (sorted-AllDistinct le xs h.1)
