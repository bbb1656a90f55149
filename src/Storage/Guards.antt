-- ===== src/Storage/Guards.antt =====
-- testing.py: each statement carries its test for what is there already.
use tqtk_price_streaming.Prelude.{
  ◌≡◌, refl, ◌==◌, ◌++◌, arith, Bool-cases, inl, inr, Bool, true, false, ◌&&◌, ◌||◌, List, [], ◌∷◌,
  map, All, All-append, list_beq, if◌then◌else◌,
}
use tqtk_price_streaming.Prelude.Text.{Str, lit, str_eq, starts_with}
use tqtk_price_streaming.Storage.{StorageContract, Index}
use tqtk_price_streaming.Storage.Ddl.{create_table, create_hypertable, create_index, render_ddl}

unfoldable pub ends_with : Str → Str → Bool
ends_with end [] = end == []
ends_with end (c ∷ text) = (c ∷ text) == end || ends_with end text

ends_with-append :
    (end text after : Str) → ends_with end after ≡ true → ends_with end (text ++ after) ≡ true
unfolding ends_with
ends_with-append end [] after h = h
ends_with-append end (c ∷ text) after h = ground (arith, ends_with-append end text after h)

-- The statements that PostgreSQL and TimescaleDB execute as no-ops where their object exists.
unfoldable pub creates_missing : Str → Bool
unfolding starts_with
creates_missing statement =
    starts_with (lit "CREATE TABLE IF NOT EXISTS ") statement
    || starts_with (lit "CREATE INDEX IF NOT EXISTS ") statement
    || starts_with (lit "CREATE UNIQUE INDEX IF NOT EXISTS ") statement

unfoldable pub calls_guarded : Str → Bool
unfolding starts_with ends_with
calls_guarded statement =
    starts_with (lit "SELECT create_hypertable(") statement
    && ends_with (lit ", if_not_exists => TRUE)") statement

unfoldable pub is_guarded : Str → Bool
unfolding creates_missing calls_guarded
is_guarded statement = calls_guarded statement || creates_missing statement

index-is_guarded :
    (contract : StorageContract) (index : Index) → is_guarded (create_index contract index) ≡ true
unfolding is_guarded calls_guarded creates_missing create_index starts_with
index-is_guarded contract index = elim (Bool-cases index.unique) [
  | inl e ↦ rw e refl
  | inr e ↦ rw e refl
]

abbrev guard_clause : Str
guard_clause = lit ", if_not_exists => TRUE)"

guard_clause-ends : ends_with guard_clause guard_clause ≡ true
unfolding ends_with list_beq
guard_clause-ends = refl

hypertable-starts :
    (contract : StorageContract)
    → starts_with (lit "SELECT create_hypertable(") (create_hypertable contract) ≡ true
unfolding create_hypertable starts_with
hypertable-starts contract = refl

hypertable-ends :
    (contract : StorageContract) → ends_with guard_clause (create_hypertable contract) ≡ true
unfolding create_hypertable
hypertable-ends contract =
    let up = ends_with-append guard_clause in
    up (lit "SELECT create_hypertable('") _ (
      up contract.table _ (
        up (lit "', by_range('") _ (
          up contract.hypertable.time_column _ (
            up (lit "', INTERVAL '") _ (
              up contract.hypertable.chunk_interval _
                (up (lit "')") guard_clause guard_clause-ends))))))

hypertable-is_guarded :
    (contract : StorageContract) → is_guarded (create_hypertable contract) ≡ true
unfolding is_guarded
hypertable-is_guarded contract =
    rw (calls_guarded, hypertable-starts contract, hypertable-ends contract) refl

abbrev pub IsGuarded : Str → Type 0
IsGuarded statement = is_guarded statement ≡ true

indexes-IsGuarded :
    (contract : StorageContract) (indexes : List Index)
    → All IsGuarded (map (create_index contract) indexes)
indexes-IsGuarded contract [] = tt
indexes-IsGuarded contract (index ∷ indexes) =
    (index-is_guarded contract index, indexes-IsGuarded contract indexes)

hypertable-IsGuarded :
    (contract : StorageContract) (hypertable : Bool)
    → All IsGuarded (if hypertable then create_hypertable contract ∷ [] else [])
hypertable-IsGuarded contract true = (hypertable-is_guarded contract, tt)
hypertable-IsGuarded contract false = tt

table-is_guarded : (contract : StorageContract) → is_guarded (create_table contract) ≡ true
unfolding is_guarded calls_guarded creates_missing create_table starts_with
table-is_guarded contract = refl

pub render_ddl-IsGuarded :
    (contract : StorageContract) (hypertable : Bool)
    → All IsGuarded (render_ddl contract hypertable)
unfolding render_ddl
render_ddl-IsGuarded contract hypertable = (
  table-is_guarded contract,
  All-append IsGuarded (if hypertable then create_hypertable contract ∷ [] else []) _
      (hypertable-IsGuarded contract hypertable) (indexes-IsGuarded contract contract.indexes),
)
