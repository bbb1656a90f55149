-- ===== src/Storage/Binding.antt =====
-- testing.py: which contract a load is bound to.
use tqtk_price_streaming.Prelude.{
  ℕ, ◌≡◌, ◌↔◌, inl, inr, refl, Bool, true, false, Option, none, some, List, [], ◌∷◌, ◌++◌, All,
  ◌==◌, nat_eq, ==_iff, ==_refl, Result, ok, err, >>=-eq-ok, Bool-cases, guard, arith,
}
use tqtk_price_streaming.Prelude.Text.{Str, lit}
use tqtk_price_streaming.Storage.{
  StorageContract, Files, lift, holds_storage, first_contracts, find_contracts_dir, directory_of,
  path_of, from_text, load_contract,
}

guard-eq-ok : {E : Type 0} (b : Bool) (e : E) {u : Unit {0}} → guard b e ≡ ok u → b ≡ true
guard-eq-ok true e h = refl
guard-eq-ok false e h = cc

lift-eq-ok : {E A : Type 0} (r : Result E A) {a : A} → lift r ≡ ok a → r ≡ ok a
lift-eq-ok (ok a) h = cc
lift-eq-ok (err e) h = cc

module _ {Location E : Type 0} (files : Files Location E) where
  -- The `contracts` of the first candidate that has a `contracts/storage`.
  pub record IsNearest (candidates : List Location) (directory : Location) : Type 0 where
    pub nearer : List Location
    pub candidate : Location
    pub farther : List Location
    pub order : candidates ≡ nearer ++ (candidate ∷ farther)
    pub passed : All (λ c. holds_storage files c ≡ false) nearer
    pub holds : holds_storage files candidate ≡ true
    pub found : directory ≡ files.join candidate (lit "contracts")

  first_contracts-IsNearest :
      (candidates : List Location) (directory : Location)
      → first_contracts files candidates ≡ ok directory
      → IsNearest candidates directory
  unfolding first_contracts
  first_contracts-IsNearest [] directory h = cc
  first_contracts-IsNearest (c ∷ rest) directory h = elim (Bool-cases (holds_storage files c)) [
    | inl held ↦ record {
      nearer = [];
      candidate = c;
      farther = rest;
      order = refl;
      passed = tt;
      holds = held;
      found = ground arith;
    }
    | inr lacks ↦
        let n = first_contracts-IsNearest rest directory (ground arith) in
        record {
          nearer = c ∷ n.nearer;
          candidate = n.candidate;
          farther = n.farther;
          order = cc n.order;
          passed = (lacks, n.passed);
          holds = n.holds;
          found = n.found;
        }
  ]

  nearest-first_contracts :
      (nearer : List Location) (candidate : Location) (farther : List Location)
      → All (λ c. holds_storage files c ≡ false) nearer
      → holds_storage files candidate ≡ true
      → first_contracts files (nearer ++ (candidate ∷ farther))
        ≡ ok (files.join candidate (lit "contracts"))
  unfolding first_contracts
  nearest-first_contracts [] candidate farther passed holds = rw holds refl
  nearest-first_contracts (c ∷ nearer) candidate farther passed holds =
      rw passed.0 (nearest-first_contracts nearer candidate farther passed.1 holds)

  -- The directory that a load reads: the one given, or the nearest above the source.
  abbrev pub IsDirectory : Location → Option Location → Location → Type 0
  IsDirectory source none directory = IsNearest (files.parents source) directory
  IsDirectory source (some given) directory = directory ≡ given

  directory_of_iff :
      (source : Location) (given : Option Location) (directory : Location)
      → (directory_of files source given ≡ ok directory) ↔ IsDirectory source given directory
  unfolding directory_of find_contracts_dir
  directory_of_iff source none directory = (
    first_contracts-IsNearest (files.parents source) directory,
    λ n.
        rw (n.order, n.found)
          (nearest-first_contracts n.nearer n.candidate n.farther n.passed n.holds),
  )
  directory_of_iff source (some given) directory = (λ h. ground arith, λ h. ground arith)

  module _ {Value : Type 0} (loads : Str → Result E Value)
      (model_validate : Value → Result E StorageContract) where
    -- What a load that returns has read.
    pub record IsBound (source : Location) (table : Str) (schema_version : ℕ)
        (given : Option Location) (contract : StorageContract) : Type 0 where
      pub directory : Location
      pub text : Str
      pub where_from : IsDirectory source given directory
      pub there : files.is_file (path_of files directory table schema_version) ≡ true
      pub read : files.read_text (path_of files directory table schema_version) ≡ ok text
      pub parsed : from_text files loads model_validate text ≡ ok contract
      pub version : contract.schema_version ≡ schema_version

    load_contract-IsBound :
        (source : Location) (table : Str) (schema_version : ℕ) (given : Option Location)
        (contract : StorageContract)
        → load_contract files loads model_validate source table schema_version given ≡ ok contract
        → IsBound source table schema_version given contract
    unfolding load_contract
    load_contract-IsBound source table v given contract h =
        let (directory, d, h1) = >>=-eq-ok (directory_of files source given) _ h in
        let (_, there, h2) =
          >>=-eq-ok (guard (files.is_file (path_of files directory table v)) _) _ h1 in
        let (text, read, h3) =
          >>=-eq-ok (lift (files.read_text (path_of files directory table v))) _ h2 in
        let (c, parsed, h4) = >>=-eq-ok (lift (from_text files loads model_validate text)) _ h3 in
        let (_, same, h5) = >>=-eq-ok (guard (c.schema_version == v) _) _ h4 in
        record {
          directory = directory;
          text = text;
          where_from = (directory_of_iff source given directory).0 d;
          there = guard-eq-ok _ _ there;
          read = lift-eq-ok _ read;
          parsed = ground (arith, lift-eq-ok _ parsed, h5);
          version = ground (arith, guard-eq-ok _ _ same, ==_iff c.schema_version v, h5);
        }

    bound-load_contract :
        (source : Location) (table : Str) (v : ℕ) (given : Option Location)
        (contract : StorageContract)
        → IsBound source table v given contract
        → load_contract files loads model_validate source table v given ≡ ok contract
    unfolding load_contract
    bound-load_contract source table v given contract b =
        rw
          (
            (directory_of_iff source given b.directory).1 b.where_from,
            b.there,
            b.read,
            b.parsed,
            b.version,
            ==_refl v,
          )
          refl

    -- A contract is loaded exactly when it is what the file of its table and version holds, in
    -- the directory given or else in that of the nearest parent which has one, and it declares
    -- the version that was asked for.
    pub load_contract_iff :
        (source : Location) (table : Str) (schema_version : ℕ) (given : Option Location)
        (contract : StorageContract)
        → (load_contract files loads model_validate source table schema_version given ≡ ok contract)
          ↔ IsBound source table schema_version given contract
    load_contract_iff source table v given contract = (
      load_contract-IsBound source table v given contract,
      bound-load_contract source table v given contract,
    )
