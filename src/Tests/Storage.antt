-- ===== src/Tests/Storage.antt =====
-- testing.py: a checkout with one contract, and databases that keep what they have executed.
use tqtk_price_streaming.Prelude.{
  ℕ, ◌≡◌, ◌↔◌, refl, Bool, true, false, none, some, List, [], ◌∷◌, list_beq, ◌==◌, ==_refl, list_eq,
  Result, ok, err, if◌then◌else◌, arith, all, subst,
}
use tqtk_price_streaming.Prelude.Parts.{IsFree, all-IsFree}
use tqtk_price_streaming.Prelude.Text.{Str, lit, str_eq, starts_with}
use tqtk_price_streaming.Prelude.Sorting.{contains}
use tqtk_price_streaming.Storage.{
  Column, StorageContract, Files, file_name, load_contract, holds_storage,
}
use tqtk_price_streaming.Storage.Binding.{IsBound, load_contract_iff}
use tqtk_price_streaming.Storage.Ddl.{
  Cursor, create_table, create_schema, render_ddl, create_index, create_hypertable, join,
  default_clause,
}
use tqtk_price_streaming.Storage.Reader.{
  column_item, constraint_item, cut_end, drop_comma, read_table,
}
use tqtk_price_streaming.Storage.ReadBack.{IsPlain, IsPlainContract, read_table-create_table}
use tqtk_price_streaming.Storage.Schema.{BuildsOnce, create_schema_again}

abbrev symbol : Column
symbol = record {
  name = lit "symbol";
  type = lit "text";
  nullable = false;
  default = none;
  wire_field = some (lit "symbol");
}

abbrev size : Column
size = record {
  name = lit "size";
  type = lit "double precision";
  nullable = true;
  default = some (lit "0");
  wire_field = none;
}

abbrev ticks : StorageContract
ticks = record {
  table = lit "ticks";
  schema_version = 12;
  owner = lit "persistence";
  hypertable = record { time_column = lit "ts"; chunk_interval = lit "1 day" };
  columns = symbol ∷ size ∷ [];
  primary_key = some (lit "symbol" ∷ lit "size" ∷ []);
  indexes = record { name = lit "by_size"; columns = lit "size" ∷ []; unique = true } ∷ [];
  checks = record { name = lit "known"; expression = lit "symbol <> ''" } ∷ [];
}

-- Paths by their parts, the last first.
abbrev Location : Type 0
Location = List Str

abbrev parents : Location → List Location
parents [] = []
parents (part ∷ path) = path ∷ parents path

abbrev is_repo : Location → Bool
is_repo path = path == (lit "storage" ∷ lit "contracts" ∷ lit "repo" ∷ [])

abbrev is_ticks : Location → Bool
is_ticks path = path == (lit "ticks.v12.json" ∷ lit "storage" ∷ lit "contracts" ∷ lit "repo" ∷ [])

abbrev checkout : Files Location Str
checkout = record {
  parents = parents;
  join = λ path name. name ∷ path;
  is_dir = is_repo;
  is_file = is_ticks;
  read_text = λ path. if is_ticks path then ok (lit "ticks") else err (lit "missing");
}

abbrev loads : Str → Result Str Str
loads text = ok text

abbrev model_validate : Str → Result Str StorageContract
model_validate text = if text == lit "ticks" then ok ticks else err (lit "invalid")

abbrev twelve : ℕ
twelve = 12

abbrev source : Location
source = lit "testing.py" ∷ lit "libs" ∷ lit "repo" ∷ []

loaded : load_contract checkout loads model_validate source (lit "ticks") 12 none ≡ ok ticks
unfolding load_contract holds_storage list_beq file_name
loaded = refl

load_contract_iff_example :
    (load_contract checkout loads model_validate source (lit "ticks") 12 none ≡ ok ticks)
    ↔ IsBound checkout loads model_validate source (lit "ticks") 12 none ticks
load_contract_iff_example =
    load_contract_iff checkout loads model_validate source (lit "ticks") 12 none ticks

-- A database that keeps each statement once.
abbrev keeping : Cursor (List Str) Str
keeping = record { execute = λ s db. if contains s db then (db, none) else (s ∷ db, none) }

-- One without the extension.
abbrev plain_postgres : Cursor (List Str) Str
plain_postgres = record {
  execute = λ s db.
      if starts_with (lit "SELECT") s then (db, some (lit "no extension")) else (s ∷ db, none);
}

keeping-BuildsOnce : BuildsOnce keeping
unfolding contains
keeping-BuildsOnce = record {
  IsBuilt = λ db s. contains s db ≡ true;
  built = λ db s g fine. ground (arith, ==_refl s);
  kept = λ db s t g fine h. ground (arith, h);
  again = λ db s g h. rw h refl;
}

-- The schema in an empty one.
abbrev built_ticks : List Str
built_ticks = (create_schema keeping ticks true []).0

create_schema_again_example : create_schema keeping ticks true built_ticks ≡ (built_ticks, none)
unfolding create_schema render_ddl contains list_beq create_table create_hypertable create_index
create_schema_again_example =
    create_schema_again keeping keeping-BuildsOnce ticks true [] built_ticks refl

stopped :
    create_schema plain_postgres ticks true []
    ≡ (create_table ticks ∷ [], some (lit "no extension"))
unfolding create_schema render_ddl starts_with create_table create_hypertable
stopped = refl

symbol-IsPlain : IsPlain symbol
unfolding all default_clause
symbol-IsPlain = record {
  word = (all-IsFree 32 (lit "symbol") refl, all-IsFree 10 (lit "symbol") refl, λ e. cc);
  type = (all-IsFree 10 (lit "text") refl, all-IsFree b'D' (lit "text") refl);
  default = tt;
  open_ended = λ e. absurd cc;
}

size-IsPlain : IsPlain size
unfolding all default_clause cut_end drop_comma list_beq
size-IsPlain = record {
  word = (all-IsFree 32 (lit "size") refl, all-IsFree 10 (lit "size") refl, λ e. cc);
  type =
      (all-IsFree 10 (lit "double precision") refl, all-IsFree b'D' (lit "double precision") refl);
  default = all-IsFree 10 (lit " DEFAULT 0") refl;
  open_ended = λ _. (refl, refl);
}

key_names-IsFree :
    (names : List Str) → ticks.primary_key ≡ some names → IsFree 10 (join (lit ", ") names)
unfolding all join
key_names-IsFree names h =
    let same : (lit "symbol" ∷ lit "size" ∷ []) ≡ names = cc h in
    subst (λ ns. IsFree 10 (join (lit ", ") ns)) same (all-IsFree 10 (lit "symbol, size") refl)

ticks-IsPlainContract : IsPlainContract ticks
unfolding all join
ticks-IsPlainContract = record {
  table = (all-IsFree 10 (lit "ticks") refl, all-IsFree 32 (lit "ticks") refl);
  columns = (symbol-IsPlain, (size-IsPlain, tt));
  key = key_names-IsFree;
  checks = (
    (
      all-IsFree 32 (lit "known") refl,
      all-IsFree 10 (lit "known") refl,
      all-IsFree 10 (lit "symbol <> ''") refl,
    ),
    tt,
  );
}

read_table-create_table_example :
    read_table (create_table ticks)
    ≡ column_item (lit "symbol") (lit "text") none false
      ∷ column_item (lit "size") (lit "double precision") (some (lit "0")) true
      ∷ constraint_item (lit "ticks_pkey") (lit "PRIMARY KEY (symbol, size)")
      ∷ constraint_item (lit "known") (lit "CHECK (symbol <> '')")
      ∷ []
unfolding join
read_table-create_table_example = read_table-create_table ticks ticks-IsPlainContract
