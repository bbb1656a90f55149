-- ===== src/Ci/Released.antt =====
-- tools/ci/additive_only.py: what a released contract version may do to itself, and the exit code of
-- the whole check. The files on disk and what git shows of the base ref are arguments. A JSON number
-- is an integer, as those of the contracts are.
pub mod Exit
pub mod Prose
pub mod Git
use tqtk_price_streaming.Prelude.{
  ℕ, suc, Bool, true, false, not, ◌&&◌, Option, none, some, List, [], ◌∷◌, ◌++◌, map, keep, leb,
  nat_beq, nat_eq, ◌==◌, Result, ok, err, ◌>>=◌, if◌then◌else◌,
}
use tqtk_price_streaming.Prelude.Text.{Str, lit, str_eq, str_leb}
use tqtk_price_streaming.Prelude.Int.{ℤ, pos, negsuc}
use tqtk_price_streaming.Prelude.Dict.{Dict, get, put, keys}
use tqtk_price_streaming.Prelude.Sorting.{contains, sorted}
use tqtk_price_streaming.Ci.Additive.{
  Artifact, Violation, check_lineage, check_versions, version_edited, version_deleted,
}

mutual
  pub data Json : Type 0 where
    null : Json
    boolean : Bool → Json
    number : ℤ → Json
    text : Str → Json
    array : Items → Json
    object : Fields → Json

  pub data Items : Type 0 where
    nil : Items
    item : Json → Items → Items

  pub data Fields : Type 0 where
    end : Fields
    field : Str → Json → Fields → Fields

-- PROSE_KEYS
unfoldable pub is_prose : Str → Bool
unfolding contains
is_prose key = contains key (lit "description" ∷ lit "notes" ∷ lit "rationale" ∷ lit "$schema" ∷ [])

unfoldable mutual
  pub strip_prose : Json → Json
  strip_prose (object fields) = object (strip_fields fields)
  strip_prose (array items) = array (strip_items items)
  strip_prose null = null
  strip_prose (boolean b) = boolean b
  strip_prose (number n) = number n
  strip_prose (text s) = text s

  pub strip_items : Items → Items
  strip_items nil = nil
  strip_items (item j items) = item (strip_prose j) (strip_items items)

  pub strip_fields : Fields → Fields
  strip_fields end = end
  strip_fields (field key j fields) = elim (is_prose key) [
    | true ↦ strip_fields fields
    | false ↦ field key (strip_prose j) (strip_fields fields)
  ]

unfoldable pub lookup : Str → Fields → Option Json
lookup key end = none
lookup key (field k j fields) = if k == key then some j else lookup key fields

unfoldable pub count : Fields → ℕ
count end = 0
count (field _ _ fields) = suc (count fields)

-- Python compares a Boolean as the number 0 or 1.
unfoldable pub as_number : Json → Option ℤ
as_number (number n) = some n
as_number (boolean true) = some (pos 1)
as_number (boolean false) = some (pos 0)
as_number _ = none

unfoldable pub is_number : ℤ → Option ℤ → Bool
is_number (pos a) (some (pos b)) = nat_beq a b
is_number (negsuc a) (some (negsuc b)) = nat_beq a b
is_number _ _ = false

-- Python's `==`: lists in order, dictionaries by key.
unfoldable mutual
  unfolding lookup count as_number is_number

  pub equals : Json → Json → Bool
  equals null null = true
  equals null _ = false
  equals (boolean true) j = is_number (pos 1) (as_number j)
  equals (boolean false) j = is_number (pos 0) (as_number j)
  equals (number n) j = is_number n (as_number j)
  equals (text s) (text t) = s == t
  equals (text s) _ = false
  equals (array xs) (array ys) = equal_items xs ys
  equals (array xs) _ = false
  equals (object xs) (object ys) = nat_beq (count xs) (count ys) && within_fields xs ys
  equals (object xs) _ = false

  pub equal_items : Items → Items → Bool
  equal_items nil nil = true
  equal_items (item x xs) (item y ys) = equals x y && equal_items xs ys
  equal_items _ _ = false

  pub within_fields : Fields → Fields → Bool
  within_fields end ys = true
  within_fields (field key x xs) ys =
      (elim (lookup key ys) [ none ↦ false | some y ↦ equals x y ]) && within_fields xs ys

-- One file: its path, its whole content, and the typed part of it.
pub record Contract : Type 0 where
  pub path : Str
  pub content : Json
  pub artifact : Artifact

unfoldable pub check_immutability : Contract → Contract → List Violation
check_immutability committed current =
    if equals (strip_prose committed.content) (strip_prose current.content)
    then []
    else record {
      table = current.artifact.table;
      rule = version_edited current.artifact.schema_version;
    }
      ∷ []

unfoldable pub check_deletion : Contract → List Violation
check_deletion released =
    record {
      table = released.artifact.table;
      rule = version_deleted released.artifact.schema_version;
    }
    ∷ []

-- `found.setdefault(table, {})`
unfoldable pub versions_of : Option (Dict ℕ Artifact) → Dict ℕ Artifact
versions_of none = []
versions_of (some versions) = versions

unfoldable pub lineages_from :
    Dict Str (Dict ℕ Artifact) → List Contract → Dict Str (Dict ℕ Artifact)
unfolding versions_of
lineages_from found [] = found
lineages_from found (c ∷ paths) =
    let a = c.artifact in
    lineages_from (put a.table (put a.schema_version a (versions_of (get a.table found))) found)
      paths

unfoldable pub lineages : List Contract → Dict Str (Dict ℕ Artifact)
lineages paths = lineages_from [] paths

-- `versions[v] for v in sorted(versions)`
unfoldable pub in_order : Dict ℕ Artifact → List ℕ → List Artifact
in_order versions [] = []
in_order versions (v ∷ vs) = elim (get v versions) [
  | none ↦ in_order versions vs
  | some a ↦ a ∷ in_order versions vs
]

unfoldable pub check_lineages : Dict Str (Dict ℕ Artifact) → List Violation
unfolding in_order
check_lineages [] = []
check_lineages ((_, versions) ∷ by_table) =
    check_versions (in_order versions (sorted leb (keys versions))) ++ check_lineages by_table

pub data CheckCannotRun : Type 0 where
  unreadable_at_ref : Str → CheckCannotRun
  listing_failed : CheckCannotRun

-- What git shows of the base ref, if there is a repository and the ref resolves.
pub data Base : Type 0 where
  no_base : Base
  base : Result CheckCannotRun (List Str) → (Str → Option Contract) → Base

module _ (released : List Str) (at_ref : Str → Option Contract) where
  unfoldable pub check_edits : List Contract → Result CheckCannotRun (List Violation)
  unfolding check_immutability
  check_edits [] = ok []
  check_edits (c ∷ paths) =
      let rest = check_edits paths in
      elim (at_ref c.path) [
        | none ↦ if contains c.path released then err (unreadable_at_ref c.path) else rest
        | some committed ↦ do more ← rest; ok (check_immutability committed c ++ more)
      ]

  unfoldable pub check_missing : List Str → Result CheckCannotRun (List Violation)
  unfolding check_deletion
  check_missing [] = ok []
  check_missing (missing ∷ paths) =
      let rest = check_missing paths in
      elim (at_ref missing) [
        | none ↦ err (unreadable_at_ref missing)
        | some gone ↦ do more ← rest; ok (check_deletion gone ++ more)
      ]

  -- The `try` of `main`, after the listing.
  unfoldable pub check_released : List Contract → Result CheckCannotRun (List Violation)
  check_released paths = do
    edits ← check_edits paths
    missing ←
        check_missing
          (sorted str_leb (keep (λ p. not (contains p (map (λ c. c.path) paths))) released))
    ok (edits ++ missing)

unfoldable pub released_violations : List Contract → Base → Result CheckCannotRun (List Violation)
unfolding check_released
released_violations paths no_base = ok []
released_violations paths (base listing at_ref) = do
  released ← listing
  check_released released at_ref paths

unfoldable pub exit_of : List Violation → ℕ
exit_of [] = 0
exit_of (_ ∷ _) = 1

unfoldable pub exit_after : List Violation → Result CheckCannotRun (List Violation) → ℕ
unfolding exit_of
exit_after violations (err _) = 2
exit_after violations (ok more) = exit_of (violations ++ more)

-- `main`: the exit code, for the artifacts that the glob finds.
unfoldable pub main : List Contract → Base → ℕ
unfolding exit_after
main [] base_ref = 2
main (c ∷ paths) base_ref =
    exit_after (check_lineages (lineages (c ∷ paths))) (released_violations (c ∷ paths) base_ref)
