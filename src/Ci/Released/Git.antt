-- ===== src/Ci/Released/Git.antt =====
-- additive_only.py: what the check asks of git, and what it reports. What git answers, pathlib,
-- `fnmatch` and `str.splitlines` are parameters; what git shows of an artifact is taken to be JSON.
pub mod Vouched
use tqtk_price_streaming.Prelude.{
  ℕ, ◌≡◌, ◌≢◌, refl, sym, ap, ◌∙◌, inl, inr, Bool, true, false, Option, none, some, List, [], ◌∷◌,
  All, map, keep, nat_beq, nat_eq, ◌==◌, Result, ok, err, Result-cases, Option-cases, Bool-cases,
  if◌then◌else◌, arith,
}
use tqtk_price_streaming.Prelude.Text.{Str, lit, str_eq}
use tqtk_price_streaming.Prelude.Sorting.{contains}
use tqtk_price_streaming.Ci.Released.{
  Contract, CheckCannotRun, listing_failed, Base, no_base, base, equals, strip_prose, lineages,
  check_lineages, main,
}
use tqtk_price_streaming.Ci.Released.Exit.{IsUnedited, AllUnedited, paths_of, main-zero_iff}

-- A finished process.
pub record Completed : Type 0 where
  pub returncode : ℕ
  pub stdout : Str

-- `git rev-parse --show-toplevel` in a directory, and in a repository `git rev-parse --verify` of a
-- ref's commit, `git show` of a path at a ref and `git ls-tree` of a directory at a ref.
pub record Git : Type 0 where
  pub show_toplevel : Str → Completed
  pub verify : Str → Str → Completed
  pub show : Str → Str → Str → Completed
  pub ls_tree : Str → Str → Str → Completed

-- `relative_to`, if the path is below the other; `path / name`; the last part of a path; a path that
-- git prints, stripped and resolved.
pub record Paths : Type 0 where
  pub relative_to : Str → Str → Option Str
  pub join : Str → Str → Str
  pub name : Str → Str
  pub resolved : Str → Str
  pub splitlines : Str → List Str
  pub fnmatch : Str → Str → Bool

unfoldable pub succeeded : Completed → Bool
succeeded c = c.returncode == 0

pub data Reason : Type 0 where
  no_repository base_unresolved : Reason

-- What `main` prints and returns: the warning, if only the lineages were checked, and the exit code.
pub record Report : Type 0 where
  pub warning : Option Reason
  pub exit : ℕ

module _ (git : Git) (os : Paths) (loads : Str → Str → Contract) where
  unfoldable pub git_root : Str → Option Str
  unfolding succeeded
  git_root start =
      let result = git.show_toplevel start in
      if succeeded result then some (os.resolved result.stdout) else none

  unfoldable pub ref_exists : Str → Str → Bool
  unfolding succeeded
  ref_exists ref repo_root = succeeded (git.verify repo_root ref)

  -- An artifact that git shows, at a path.
  unfoldable pub shown : Str → Completed → Option Contract
  unfolding succeeded
  shown path result = if succeeded result then some (loads path result.stdout) else none

  unfoldable pub at_ref : Str → Str → Str → Option Contract
  unfolding shown
  at_ref ref repo_root path = elim (os.relative_to path repo_root) [
    | none ↦ none
    | some relative ↦ shown path (git.show repo_root ref relative)
  ]

  unfoldable pub listed : Str → Completed → Result CheckCannotRun (List Str)
  unfolding succeeded
  listed repo_root result =
      if succeeded result
      then ok (
          map (os.join repo_root) (
            keep (λ line. os.fnmatch (os.name line) (lit "*.v*.json"))
              (os.splitlines result.stdout)))
      else err listing_failed

  unfoldable pub artifact_paths_at_ref : Str → Str → Str → Result CheckCannotRun (List Str)
  unfolding listed
  artifact_paths_at_ref ref contracts_dir repo_root =
      elim (os.relative_to contracts_dir repo_root) [
        | none ↦ ok []
        | some relative ↦
            listed repo_root (git.ls_tree repo_root ref (os.join relative (lit "storage")))
      ]

  -- The `if` of `main`, by what git knows of the repository and the ref.
  unfoldable pub base_of : Str → Str → Str → Bool → Base
  unfolding artifact_paths_at_ref at_ref
  base_of ref contracts_dir repo_root true =
      base (artifact_paths_at_ref ref contracts_dir repo_root) (at_ref ref repo_root)
  base_of ref contracts_dir repo_root false = no_base

  unfoldable pub report_in : List Contract → Str → Str → Option Str → Report
  unfolding ref_exists base_of
  report_in paths ref contracts_dir none = record {
    warning = some no_repository;
    exit = main paths no_base;
  }
  report_in paths ref contracts_dir (some repo_root) =
      let exists = ref_exists ref repo_root in
      record {
        warning = if exists then none else some base_unresolved;
        exit = main paths (base_of ref contracts_dir repo_root exists);
      }

  -- `main`, for the artifacts on disk, the base ref, the directories of the contracts and the project.
  -- Without an artifact it returns before any warning.
  unfoldable pub report : List Contract → Str → Str → Str → Report
  unfolding git_root report_in
  report [] ref contracts_dir project_root = record { warning = none; exit = 2 }
  report (c ∷ paths) ref contracts_dir project_root =
      report_in (c ∷ paths) ref contracts_dir (git_root project_root)
