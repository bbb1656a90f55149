-- ===== src/Ci/Released/Exit.antt =====
-- additive_only.py: when the check exits with 0.
use tqtk_price_streaming.Prelude.{
  ◌≡◌, ◌≢◌, ◌↔◌, inl, inr, refl, ap, true, false, not, Option, none, some, List, [], ◌∷◌, ◌++◌, All,
  map, keep, length, Result, ok, err, ◌>>=◌, Bool-cases, Option-cases, arith,
}
use tqtk_price_streaming.Prelude.Text.{Str, str_eq, str_leb}
use tqtk_price_streaming.Prelude.Sorting.{contains, sorted, length-sorted}
use tqtk_price_streaming.Ci.Additive.{Violation}
use tqtk_price_streaming.Ci.Additive.Sound.{append-nil_iff}
use tqtk_price_streaming.Ci.Released.{
  Contract, equals, strip_prose, check_immutability, check_deletion, lineages, check_lineages,
  CheckCannotRun, base, check_edits, check_missing, check_released, released_violations, exit_of,
  exit_after, main,
}

-- The file is new, or its content is that of the base ref but for its prose.
abbrev pub IsUnedited : List Str → Option Contract → Contract → Type 0
IsUnedited released none c = contains c.path released ≡ false
IsUnedited released (some committed) c =
    equals (strip_prose committed.content) (strip_prose c.content) ≡ true

abbrev pub paths_of : List Contract → List Str
paths_of = map (λ c. c.path)

-- Two checks in a row find nothing only if each does.
append-ok_iff :
    (a b : Result CheckCannotRun (List Violation))
    → ((a >>= λ xs. b >>= λ ys. ok (xs ++ ys)) ≡ ok []) ↔ ((a ≡ ok []) × (b ≡ ok []))
append-ok_iff (err e) b = (λ h. cc, λ h. cc (h.0))
append-ok_iff (ok xs) (err e) = (λ h. cc, λ h. cc (h.1))
append-ok_iff (ok xs) (ok ys) = (
  λ h. let (p, q) = (append-nil_iff xs ys).0 (ground arith) in (ap ok p, ap ok q),
  λ h. ap ok ((append-nil_iff xs ys).1 (ground (arith, h.0), ground (arith, h.1))),
)

cons-ok_iff :
    (xs : List Violation) (b : Result CheckCannotRun (List Violation))
    → ((b >>= λ ys. ok (xs ++ ys)) ≡ ok []) ↔ ((xs ≡ []) × (b ≡ ok []))
cons-ok_iff xs (err e) = (λ h. cc, λ h. cc (h.1))
cons-ok_iff xs (ok ys) = (
  λ h. let (p, q) = (append-nil_iff xs ys).0 (ground arith) in (p, ap ok q),
  λ h. ap ok ((append-nil_iff xs ys).1 (h.0, ground (arith, h.1))),
)

immutability-nil_iff :
    (committed c : Contract)
    → (check_immutability committed c ≡ [])
      ↔ (equals (strip_prose committed.content) (strip_prose c.content) ≡ true)
unfolding check_immutability
immutability-nil_iff committed c = (λ h. ground arith, λ h. ground arith)

module _ (released : List Str) (at_ref : Str → Option Contract) where
  abbrev pub AllUnedited : List Contract → Type 0
  AllUnedited = All (λ c. IsUnedited released (at_ref c.path) c)

  check_edits_iff :
      (paths : List Contract) → (check_edits released at_ref paths ≡ ok []) ↔ AllUnedited paths
  unfolding check_edits
  check_edits_iff [] = (λ _. tt, λ _. refl)
  check_edits_iff (c ∷ paths) = elim (Option-cases (at_ref c.path)) [
    | inl new ↦
        rw (new, check_edits)
          (
            λ h. (ground arith, (check_edits_iff paths).0 (ground arith)),
            λ h. ground (arith, h.0, (check_edits_iff paths).1 h.1),
          )
    | inr (committed, old) ↦
        let step =
          cons-ok_iff (check_immutability committed c) (check_edits released at_ref paths) in
        rw (old, check_edits)
          (
            λ h.
                let (p, q) = step.0 h in
                ((immutability-nil_iff committed c).0 p, (check_edits_iff paths).0 q),
            λ h. step.1 ((immutability-nil_iff committed c).1 h.0, (check_edits_iff paths).1 h.1),
          )
  ]

  check_missing_iff :
      (missing : List Str) → (check_missing released at_ref missing ≡ ok []) ↔ (missing ≡ [])
  unfolding check_missing check_deletion
  check_missing_iff [] = (λ _. refl, λ _. refl)
  check_missing_iff (m ∷ missing) = elim (Option-cases (at_ref m)) [
    | inl gone ↦ rw (gone, check_missing) (λ h. cc, λ h. cc)
    | inr (old, shown) ↦
        rw (shown, check_missing)
          (
            λ h. absurd (
                ground (
                  arith,
                  (cons-ok_iff (check_deletion old) (check_missing released at_ref missing)).0 h,
                )),
            λ h. cc,
          )
  ]

sorted-nil_iff : (xs : List Str) → (sorted str_leb xs ≡ []) ↔ (xs ≡ [])
unfolding sorted
sorted-nil_iff [] = (λ _. refl, λ _. refl)
sorted-nil_iff (x ∷ xs) =
    (λ h. absurd (ground (arith, length-sorted str_leb (x ∷ xs), ap length h)), λ h. cc)

keep-nil_iff :
    (disk released : List Str)
    → (keep (λ p. not (contains p disk)) released ≡ []) ↔ All (λ p. contains p disk ≡ true) released
unfolding keep
keep-nil_iff disk [] = (λ _. tt, λ _. refl)
keep-nil_iff disk (p ∷ released) = elim (Bool-cases (contains p disk)) [
  | inl here ↦
      rw (here, keep)
        (λ h. (refl, (keep-nil_iff disk released).0 h), λ h. (keep-nil_iff disk released).1 h.1)
  | inr gone ↦ rw (gone, keep) (λ h. cc, λ h. absurd (ground (arith, h.0)))
]

exit-zero_iff :
    (violations : List Violation) (more : Result CheckCannotRun (List Violation))
    → (exit_after violations more ≡ 0) ↔ ((violations ≡ []) × (more ≡ ok []))
unfolding exit_after exit_of
exit-zero_iff violations (err e) = (λ h. absurd (ground arith), λ h. cc (h.1))
exit-zero_iff [] (ok []) = (λ h. (refl, refl), λ h. refl)
exit-zero_iff [] (ok (v ∷ more)) = (λ h. absurd (ground arith), λ h. absurd (ground (arith, h.1)))
exit-zero_iff (v ∷ violations) (ok more) =
    (λ h. absurd (ground arith), λ h. absurd (ground (arith, h.0)))

check_released_iff :
    (released : List Str) (at_ref : Str → Option Contract) (paths : List Contract)
    → (check_released released at_ref paths ≡ ok [])
      ↔ (AllUnedited released at_ref paths × All (λ p. contains p (paths_of paths) ≡ true) released)
unfolding check_released
check_released_iff released at_ref paths =
    let gone = keep (λ p. not (contains p (paths_of paths))) released in
    let both =
      append-ok_iff (check_edits released at_ref paths)
        (check_missing released at_ref (sorted str_leb gone)) in
    let missing = check_missing_iff released at_ref (sorted str_leb gone) in
    let order = sorted-nil_iff gone in
    let disk = keep-nil_iff (paths_of paths) released in
    let edits = check_edits_iff released at_ref paths in
    (
      λ h. let (p, q) = both.0 h in (edits.0 p, disk.0 (order.0 (missing.0 q))),
      λ h. both.1 (edits.1 h.0, missing.1 (order.1 (disk.1 h.1))),
    )

-- Against a base ref whose files git lists, the check exits with 0 exactly when there is a file
-- on disk, the lineages have no violation, every file on disk is new or has the content of the
-- base ref but for its prose, and every file that git lists is on disk.
pub main-zero_iff :
    (paths : List Contract) (released : List Str) (at_ref : Str → Option Contract)
    → (main paths (base (ok released) at_ref) ≡ 0) ↔ (
        (paths ≢ [])
        × (check_lineages (lineages paths) ≡ [])
        × AllUnedited released at_ref paths
        × All (λ p. contains p (paths_of paths) ≡ true) released)
unfolding main released_violations
main-zero_iff [] released at_ref = (λ h. absurd (ground arith), λ h. absurd (h.0 refl))
main-zero_iff (c ∷ paths) released at_ref =
    let exit =
      exit-zero_iff (check_lineages (lineages (c ∷ paths)))
        (check_released released at_ref (c ∷ paths)) in
    let kept = check_released_iff released at_ref (c ∷ paths) in
    (
      λ h.
          let (p, q) = exit.0 h in
          let (unedited, present) = kept.0 q in (λ e. cc, p, unedited, present),
      λ h. exit.1 (h.1, kept.1 (h.2, h.3)),
    )
