-- ===== src/Ci/Released/Git/Vouched.antt =====
-- additive_only.py: what a success without a warning stands on.
use tqtk_price_streaming.Prelude.{
  ◌≡◌, refl, sym, subst, ap, ◌∙◌, inl, inr, Bool, true, false, Option, none, some, List, [], ◌∷◌,
  All, nat_eq, Result, ok, err, Bool-cases, if◌then◌else◌, arith,
}
use tqtk_price_streaming.Prelude.Text.{Str, lit, str_eq}
use tqtk_price_streaming.Prelude.Sorting.{contains}
use tqtk_price_streaming.Ci.Released.{
  Contract, CheckCannotRun, base, equals, strip_prose, lineages, check_lineages, main,
  released_violations, exit_after,
}
use tqtk_price_streaming.Ci.Released.Exit.{IsUnedited, AllUnedited, paths_of, main-zero_iff}
use tqtk_price_streaming.Ci.Released.Git.{
  Git, Paths, Completed, succeeded, base_unresolved, git_root, ref_exists, at_ref, listed,
  artifact_paths_at_ref, base_of, report_in, report,
}

-- The artifact is as git shows it at the ref, but for its prose.
abbrev pub IsKept : Option Contract → Contract → Type 0
IsKept shown c =
    (committed : Contract) × (shown ≡ some committed)
    × (equals (strip_prose committed.content) (strip_prose c.content) ≡ true)

IsUnedited-IsKept :
    (names : List Str) (shown : Option Contract) (c : Contract)
    → IsUnedited names shown c
    → contains c.path names ≡ true
    → IsKept shown c
IsUnedited-IsKept names none c new released = absurd (ground (arith, new))
IsUnedited-IsKept names (some committed) c same released = (committed, refl, same)

AllUnedited-All :
    (names : List Str) (shown : Str → Option Contract) (paths : List Contract)
    → AllUnedited names shown paths
    → All (λ c. contains c.path names ≡ true → IsKept (shown c.path) c) paths
AllUnedited-All names shown [] h = tt
AllUnedited-All names shown (c ∷ paths) h =
    (IsUnedited-IsKept names (shown c.path) c h.0, AllUnedited-All names shown paths h.1)

main_listed :
    (paths : List Contract) (listing : Result CheckCannotRun (List Str))
    (shown : Str → Option Contract)
    → main paths (base listing shown) ≡ 0
    → (names : List Str) × (listing ≡ ok names)
unfolding main released_violations exit_after
main_listed paths (ok names) shown h = (names, refl)
main_listed [] (err e) shown h = absurd (ground arith)
main_listed (c ∷ paths) (err e) shown h = absurd (ground arith)

module _ (git : Git) (os : Paths) (loads : Str → Str → Contract) where
  warned : (exists : Bool) → (if exists then none else some base_unresolved) ≡ none → exists ≡ true
  warned true h = refl
  warned false h = cc

  report-main :
      (paths : List Contract) (ref contracts_dir project_root root : Str)
      → git_root git os loads project_root ≡ some root
      → report git os loads paths ref contracts_dir project_root
        ≡ record { warning = none; exit = 0 }
      → main paths (base_of git os loads ref contracts_dir root true) ≡ 0
  unfolding report report_in
  report-main [] ref contracts_dir project_root root found h =
      absurd (ground (arith, ap (λ r. r.exit) h))
  report-main (c ∷ paths) ref contracts_dir project_root root found h =
      let here =
        subst
          (λ o.
            report_in git os loads (c ∷ paths) ref contracts_dir o
            ≡ record { warning = none; exit = 0 })
          found h in
      let resolves = warned (ref_exists git os loads ref root) (ap (λ r. r.warning) here) in
      subst (λ b. main (c ∷ paths) (base_of git os loads ref contracts_dir root b) ≡ 0) resolves
        (ap (λ r. r.exit) here)

  listed-succeeded :
      (root : Str) (result : Completed) (names : List Str)
      → listed git os loads root result ≡ ok names
      → succeeded result ≡ true
  unfolding listed
  listed-succeeded root result names h = elim (Bool-cases (succeeded result)) [
    | inl e ↦ e
    | inr e ↦ absurd (ground arith)
  ]

  artifact_paths-inside :
      (ref contracts_dir root relative : Str)
      → os.relative_to contracts_dir root ≡ some relative
      → artifact_paths_at_ref git os loads ref contracts_dir root
        ≡ listed git os loads root (git.ls_tree root ref (os.join relative (lit "storage")))
  unfolding artifact_paths_at_ref
  artifact_paths-inside ref contracts_dir root relative inside =
      rw (inside, artifact_paths_at_ref) refl

  -- If the project and the contracts lie in a repository and the check exits with 0 and no
  -- warning, git listed the artifacts at the base ref without an error, every one listed is
  -- still on disk, those on disk that are listed are as git shows them there but for their
  -- prose, and the lineages have no violation.
  pub report-IsKept :
      (paths : List Contract) (ref contracts_dir project_root root relative : Str)
      → git_root git os loads project_root ≡ some root
      → os.relative_to contracts_dir root ≡ some relative
      → report git os loads paths ref contracts_dir project_root
        ≡ record { warning = none; exit = 0 }
      → (names : List Str) × (succeeded (git.ls_tree root ref (os.join relative (lit "storage")))
          ≡ true)
        × (artifact_paths_at_ref git os loads ref contracts_dir root ≡ ok names)
        × All (λ p. contains p (paths_of paths) ≡ true) names
        × All
            (λ c. contains c.path names ≡ true → IsKept (at_ref git os loads ref root c.path) c)
            paths
        × (check_lineages (lineages paths) ≡ [])
  unfolding base_of
  report-IsKept paths ref contracts_dir project_root root relative found inside h =
      let zero = report-main paths ref contracts_dir project_root root found h in
      let (names, listing) = main_listed paths _ _ zero in
      let shown = at_ref git os loads ref root in
      let zero' = subst (λ l. main paths (base l shown) ≡ 0) listing zero in
      let (some_file, lineage, unedited, present) = (main-zero_iff paths names shown).0 zero' in
      let asked = artifact_paths-inside ref contracts_dir root relative inside in
      (
        names,
        listed-succeeded root _ names (sym asked ∙ listing),
        listing,
        present,
        AllUnedited-All names shown paths unedited,
        lineage,
      )
