-- ===== src/Ci/Additive.antt =====
-- tools/ci/additive_only.py: what one version of a storage contract may do to the version before it.
-- An artifact is read as its typed content: `json.loads` and the schema of the files are not
-- modelled. A violation keeps the data that its message shows.
pub mod Sound
pub mod Chains
use tqtk_price_streaming.Prelude.{
  ℕ, Bool, true, false, not, ◌&&◌, ◌||◌, Option, none, some, List, [], ◌∷◌, ◌++◌, keep, leb, ◌==◌,
  if◌then◌else◌,
}
use tqtk_price_streaming.Prelude.Text.{Str, lit, str_eq, str_leb}
use tqtk_price_streaming.Prelude.Dict.{Dict, get, put, keys}
use tqtk_price_streaming.Prelude.Sorting.{contains, sorted}

-- `defaulted`: the key "default" is there.
pub record Column : Type 0 where
  pub name : Str
  pub type : Str
  pub nullable : Bool
  pub defaulted : Bool

pub record Artifact : Type 0 where
  pub table : Str
  pub schema_version : ℕ
  pub columns : List Column

pub data Rule : Type 0 where
  column_dropped : Str → Rule
  type_narrowed : Str → Str → Str → Rule
  nullability_tightened : Str → Rule
  added_without_default : Str → Rule
  version_not_incremented : ℕ → ℕ → Rule
  version_edited : ℕ → Rule
  version_deleted : ℕ → Rule

pub record Violation : Type 0 where
  pub table : Str
  pub rule : Rule

-- `{column["name"]: column for column in columns}`
unfoldable pub by_name_from : Dict Str Column → List Column → Dict Str Column
by_name_from d [] = d
by_name_from d (c ∷ columns) = by_name_from (put c.name c d) columns

unfoldable pub columns_by_name : Artifact → Dict Str Column
unfolding by_name_from
columns_by_name a = by_name_from [] a.columns

-- SAFE_WIDENINGS
unfoldable pub is_safe_widening : Str → Str → Bool
is_safe_widening old new = old == lit "integer" && new == lit "bigint"

-- `for x in xs: violations.extend(f(x))`
unfoldable pub for_each : (Str → List Violation) → List Str → List Violation
for_each f [] = []
for_each f (x ∷ xs) = f x ++ for_each f xs

-- What is said of a column that both versions have.
unfoldable pub changed : Str → Str → Column → Column → List Violation
unfolding is_safe_widening
changed table name old new =
    (if old.type == new.type || is_safe_widening old.type new.type
      then []
      else record { table = table; rule = type_narrowed name old.type new.type } ∷ [])
    ++ (if old.nullable && not new.nullable
        then record { table = table; rule = nullability_tightened name } ∷ []
        else [])

-- What is said of a name that only the newer version has.
unfoldable pub introduced : Str → Str → Column → List Violation
introduced table name column =
    if not column.nullable && not column.defaulted
    then record { table = table; rule = added_without_default name } ∷ []
    else []

unfoldable pub check_changed : Str → Dict Str Column → Dict Str Column → Str → List Violation
unfolding changed
check_changed table before after name = elim (get name before) [
  | none ↦ []
  | some old ↦ (elim (get name after) [ none ↦ [] | some new ↦ changed table name old new ])
]

unfoldable pub check_introduced : Str → Dict Str Column → Str → List Violation
unfolding introduced
check_introduced table after name = elim (get name after) [
  | none ↦ []
  | some column ↦ introduced table name column
]

-- `sorted(a.keys() - b.keys())` and `sorted(a.keys() & b.keys())`
unfoldable pub keys_minus : Dict Str Column → Dict Str Column → List Str
keys_minus a b = sorted str_leb (keep (λ k. not (contains k (keys b))) (keys a))

unfoldable pub keys_both : Dict Str Column → Dict Str Column → List Str
keys_both a b = sorted str_leb (keep (λ k. contains k (keys b)) (keys a))

unfoldable pub check_version : Artifact → Artifact → List Violation
check_version older newer =
    if leb newer.schema_version older.schema_version
    then record {
      table = newer.table;
      rule = version_not_incremented newer.schema_version older.schema_version;
    }
      ∷ []
    else []

unfoldable pub check_lineage : Artifact → Artifact → List Violation
unfolding check_version
check_lineage older newer =
    let before = columns_by_name older in
    let after = columns_by_name newer in
    for_each (λ name. record { table = newer.table; rule = column_dropped name } ∷ [])
      (keys_minus before after)
    ++ (for_each (check_changed newer.table before after) (keys_both before after)
        ++ (for_each (check_introduced newer.table after) (keys_minus after before)
            ++ check_version older newer))

-- `pairwise` over the versions of one table, in their order.
unfoldable pub check_versions : List Artifact → List Violation
check_versions [] = []
check_versions (a ∷ []) = []
check_versions (a ∷ b ∷ rest) = check_lineage a b ++ check_versions (b ∷ rest)
