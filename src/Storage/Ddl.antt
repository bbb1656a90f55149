-- ===== src/Storage/Ddl.antt =====
-- testing.py: the statements that build a contract's schema, and their execution by a cursor.
use tqtk_price_streaming.Prelude.{Bool, Option, none, some, List, [], ◌∷◌, ◌++◌, map, if◌then◌else◌}
use tqtk_price_streaming.Prelude.Text.{Str, lit}
use tqtk_price_streaming.Storage.{Column, Index, Check, StorageContract}

-- `sep.join(parts)`
unfoldable pub join : Str → List Str → Str
join sep [] = []
join sep (part ∷ []) = part
join sep (part ∷ next ∷ parts) = part ++ (sep ++ join sep (next ∷ parts))

unfoldable pub default_clause : Option Str → Str
default_clause none = []
default_clause (some default) = lit " DEFAULT " ++ default

unfoldable pub define_column : Column → Str
unfolding default_clause
define_column column =
    lit "    "
    ++ (column.name
        ++ (lit " "
            ++ (column.type
                ++ (default_clause column.default
                    ++ (if column.nullable then [] else lit " NOT NULL")))))

unfoldable pub define_key : Str → Option (List Str) → List Str
define_key table none = []
define_key table (some primary_key) =
    (lit "    CONSTRAINT "
      ++ (table ++ (lit "_pkey PRIMARY KEY (" ++ (join (lit ", ") primary_key ++ lit ")"))))
    ∷ []

unfoldable pub define_check : Check → Str
define_check check =
    lit "    CONSTRAINT " ++ (check.name ++ (lit " CHECK (" ++ (check.expression ++ lit ")")))

unfoldable pub definitions : StorageContract → List Str
definitions contract =
    map define_column contract.columns
    ++ (define_key contract.table contract.primary_key ++ map define_check contract.checks)

unfoldable pub create_table : StorageContract → Str
create_table contract =
    lit "CREATE TABLE IF NOT EXISTS "
    ++ (contract.table ++ (lit " (\n" ++ (join (lit ",\n") (definitions contract) ++ lit "\n)")))

unfoldable pub create_hypertable : StorageContract → Str
create_hypertable contract =
    lit "SELECT create_hypertable('"
    ++ (contract.table
        ++ (lit "', by_range('"
            ++ (contract.hypertable.time_column
                ++ (lit "', INTERVAL '"
                    ++ (contract.hypertable.chunk_interval ++ lit "'), if_not_exists => TRUE)")))))

unfoldable pub create_index : StorageContract → Index → Str
create_index contract index =
    lit "CREATE "
    ++ ((if index.unique then lit "UNIQUE " else [])
        ++ (lit "INDEX IF NOT EXISTS "
            ++ (index.name
                ++ (lit " ON "
                    ++ (contract.table
                        ++ (lit " (" ++ (join (lit ", ") index.columns ++ lit ")")))))))

unfoldable pub render_ddl : StorageContract → Bool → List Str
render_ddl contract hypertable =
    create_table contract
    ∷ ((if hypertable then create_hypertable contract ∷ [] else [])
        ++ map (create_index contract) contract.indexes)

-- `cursor.execute(statement)` on a database: what it leaves there, and what it raises.
pub record Cursor (Database E : Type 0) : Type 0 where
  pub execute : Str → Database → Database × Option E

module _ {Database E : Type 0} (cursor : Cursor Database E) where
  -- What follows one statement: nothing if it raises, the rest of the loop otherwise.
  unfoldable pub proceed :
      Database × Option E → (Database → Database × Option E) → Database × Option E
  proceed (db, some e) rest = (db, some e)
  proceed (db, none) rest = rest db

  unfoldable pub execute_all : List Str → Database → Database × Option E
  unfolding proceed
  execute_all [] db = (db, none)
  execute_all (statement ∷ statements) db =
      proceed (cursor.execute statement db) (execute_all statements)

  unfoldable pub create_schema : StorageContract → Bool → Database → Database × Option E
  unfolding execute_all
  create_schema contract hypertable = execute_all (render_ddl contract hypertable)
