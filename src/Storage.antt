-- ===== src/Storage.antt =====
-- testing.py: the storage contracts that tests are bound to, found in a checkout and read from it.
-- Paths, the file system, `json.loads` and pydantic's `model_validate` are parameters.
pub mod FileNames
pub mod Binding
pub mod Ddl
pub mod Reader
pub mod Cuts
pub mod ReadBack
pub mod Guards
pub mod Schema
use tqtk_price_streaming.Prelude.{
  ℕ, zero, suc, ◌+◌, ◌/◌, ◌%◌, Bool, Option, none, some, List, [], ◌∷◌, ◌++◌, map, ltb, ◌==◌,
  nat_eq, Result, ok, err, ◌>>=◌, ◌>>◌, guard, if◌then◌else◌,
}
use tqtk_price_streaming.Prelude.Text.{Str, lit}

pub record Column : Type 0 where
  pub name : Str
  pub type : Str
  pub nullable : Bool
  pub default : Option Str
  pub wire_field : Option Str

pub record Index : Type 0 where
  pub name : Str
  pub columns : List Str
  pub unique : Bool

pub record Check : Type 0 where
  pub name : Str
  pub expression : Str

pub record Hypertable : Type 0 where
  pub time_column : Str
  pub chunk_interval : Str

pub record StorageContract : Type 0 where
  pub table : Str
  pub schema_version : ℕ
  pub owner : Str
  pub hypertable : Hypertable
  pub columns : List Column
  pub primary_key : Option (List Str)
  pub indexes : List Index
  pub checks : List Check

unfoldable pub column_names : StorageContract → List Str
column_names contract = map (λ column. column.name) contract.columns

-- `str(n)`, on fuel; the digits that come after are the last argument.
unfoldable pub digits : ℕ → ℕ → Str → Str
digits zero n after = after
digits (suc fuel) n after =
    let shown = (48 + n % 10) ∷ after in
    let longer = digits fuel (n / 10) shown in if ltb n 10 then shown else longer

unfoldable pub shown : ℕ → Str
unfolding digits
shown n = digits (suc n) n []

-- f"{table}.v{schema_version}.json"
unfoldable pub file_name : Str → ℕ → Str
unfolding shown
file_name table schema_version = table ++ (lit ".v" ++ (shown schema_version ++ lit ".json"))

-- pathlib and the file system: `path.parents`, nearest first, `path / name`, `is_dir`, `is_file` and
-- `read_text`, which may raise.
pub record Files (Location E : Type 0) : Type 0 where
  pub parents : Location → List Location
  pub join : Location → Str → Location
  pub is_dir : Location → Bool
  pub is_file : Location → Bool
  pub read_text : Location → Result E Str

-- What reading a contract raises; `raised` is an exception of the libraries.
pub data LoadError (E : Type 0) : Type 0 where
  no_contracts_dir : LoadError E
  no_contract : Str → ℕ → LoadError E
  other_version : ℕ → ℕ → LoadError E
  raised : E → LoadError E

abbrev pub lift : {E A : Type 0} → Result E A → Result (LoadError E) A
lift (ok a) = ok a
lift (err e) = err (raised e)

module _ {Location E : Type 0} (files : Files Location E) where
  unfoldable pub holds_storage : Location → Bool
  holds_storage candidate =
      files.is_dir (files.join (files.join candidate (lit "contracts")) (lit "storage"))

  -- The loop over the parents.
  unfoldable pub first_contracts : List Location → Result (LoadError E) Location
  first_contracts [] = err no_contracts_dir
  first_contracts (candidate ∷ rest) =
      if holds_storage candidate
      then ok (files.join candidate (lit "contracts"))
      else first_contracts rest

  -- `source` is the module's own path, resolved.
  unfoldable pub find_contracts_dir : Location → Option Location → Result (LoadError E) Location
  unfolding first_contracts
  find_contracts_dir source none = first_contracts (files.parents source)
  find_contracts_dir source (some start) = first_contracts (files.parents start)

  -- `contracts_dir or find_contracts_dir()`
  unfoldable pub directory_of : Location → Option Location → Result (LoadError E) Location
  unfolding find_contracts_dir
  directory_of source none = find_contracts_dir source none
  directory_of source (some contracts_dir) = ok contracts_dir

  unfoldable pub path_of : Location → Str → ℕ → Location
  path_of directory table schema_version =
      files.join (files.join directory (lit "storage")) (file_name table schema_version)

  module _ {Value : Type 0} (loads : Str → Result E Value)
      (model_validate : Value → Result E StorageContract) where
    -- StorageContract.from_dict(json.loads(text))
    unfoldable pub from_text : Str → Result E StorageContract
    from_text text = do artifact ← loads text; model_validate artifact

    unfoldable pub load_contract :
        Location → Str → ℕ → Option Location → Result (LoadError E) StorageContract
    unfolding directory_of path_of from_text
    load_contract source table schema_version contracts_dir = do
      directory ← directory_of source contracts_dir
      let path = path_of directory table schema_version
      guard (files.is_file path) (no_contract table schema_version)
      text ← lift (files.read_text path)
      contract ← lift (from_text text)
      guard (contract.schema_version == schema_version)
          (other_version contract.schema_version schema_version)
      ok contract
