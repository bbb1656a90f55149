-- ===== src/Tests/Git.antt =====
-- additive_only.py: a repository whose base ref has the one contract that is on disk.
use tqtk_price_streaming.Prelude.Dict.{get, put}
use tqtk_price_streaming.Ci.Additive.{check_versions}
use tqtk_price_streaming.Prelude.{
  ◌≡◌, refl, true, Option, none, some, List, [], ◌∷◌, ◌++◌, All, ok, list_beq, ◌==◌, keep,
  if◌then◌else◌,
}
use tqtk_price_streaming.Prelude.Text.{Str, lit, str_eq, starts_with, split}
use tqtk_price_streaming.Prelude.Int.{pos}
use tqtk_price_streaming.Prelude.Sorting.{sorted, contains}
use tqtk_price_streaming.Ci.Released.{
  check_edits, check_missing, equals, strip_prose, is_prose, lineages_from, released_violations,
  main, text, number, object, end, field, Contract, lineages, check_lineages,
}
use tqtk_price_streaming.Ci.Released.Exit.{paths_of}
use tqtk_price_streaming.Ci.Released.Git.{
  Git, Paths, Completed, succeeded, base_unresolved, report, git_root, at_ref,
  artifact_paths_at_ref,
}
use tqtk_price_streaming.Ci.Released.Git.Vouched.{IsKept, report-IsKept}

program : Unit {0}
unfolding report list_beq main released_violations starts_with check_edits check_missing sorted keep
    split contains check_lineages lineages lineages_from put check_versions get equals strip_prose
    is_prose
program = tt

abbrev answered : Str → Completed
answered stdout = record { returncode = 0; stdout = stdout }

abbrev refused : Completed
refused = record { returncode = 128; stdout = [] }

-- A repository at "repo" with the base ref "main" and one contract there.
abbrev git : Git
git = record {
  show_toplevel = λ start. answered (lit "repo");
  verify = λ root ref. if ref == lit "main" then answered [] else refused;
  show = λ root ref path.
      if path == lit "contracts/storage/ticks.v1.json" then answered (lit "old") else refused;
  ls_tree = λ root ref directory. answered (lit "contracts/storage/ticks.v1.json");
}

abbrev after_prefix : Str → Str → Option Str
after_prefix [] s = some s
after_prefix (c ∷ p) [] = none
after_prefix (c ∷ p) (d ∷ s) = after_prefix p s

abbrev os : Paths
os = record {
  relative_to = λ path root.
      if starts_with (root ++ lit "/") path then after_prefix (root ++ lit "/") path else none;
  join = λ path name. path ++ (lit "/" ++ name);
  name = λ path. path;
  resolved = λ path. path;
  splitlines = split 10;
  fnmatch = λ name pattern. starts_with (lit "contracts/storage/ticks.v") name;
}

-- The content by the text; the path is the one that is asked for.
abbrev loads : Str → Str → Contract
loads path stdout = record {
  path = path;
  content =
      object (
        field (lit "description") (text stdout)
          (field (lit "schema_version") (number (pos 1)) end));
  artifact = record { table = lit "ticks"; schema_version = 1; columns = [] };
}

abbrev on_disk : List Contract
on_disk = loads (lit "repo/contracts/storage/ticks.v1.json") (lit "new") ∷ []

no_warning :
    report git os loads on_disk (lit "main") (lit "repo/contracts") (lit "repo")
    ≡ record { warning = none; exit = 0 }
unfolding program
no_warning = refl

unresolved :
    report git os loads on_disk (lit "mian") (lit "repo/contracts") (lit "repo")
    ≡ record { warning = some base_unresolved; exit = 0 }
unfolding report list_beq main released_violations check_lineages lineages lineages_from put
    check_versions sorted get
unresolved = refl

root_found : git_root git os loads (lit "repo") ≡ some (lit "repo")
unfolding git_root
root_found = refl

inside : os.relative_to (lit "repo/contracts") (lit "repo") ≡ some (lit "contracts")
unfolding starts_with
inside = refl

report-IsKept_example :
    (names : List Str) × (succeeded
        (git.ls_tree (lit "repo") (lit "main") (lit "contracts/storage"))
      ≡ true)
    × (artifact_paths_at_ref git os loads (lit "main") (lit "repo/contracts") (lit "repo")
        ≡ ok names)
    × All (λ p. contains p (paths_of on_disk) ≡ true) names
    × All
        (λ c.
          contains c.path names ≡ true
          → IsKept (at_ref git os loads (lit "main") (lit "repo") c.path) c)
        on_disk
    × (check_lineages (lineages on_disk) ≡ [])
report-IsKept_example =
    report-IsKept git os loads on_disk (lit "main") (lit "repo/contracts") (lit "repo") (lit "repo")
      (lit "contracts") root_found inside no_warning
