-- ===== src/Storage/ReadBack.antt =====
-- testing.py: what a reader of the CREATE TABLE statement finds in it.
use mathlib.Core.List.{append-nil, append_assoc}
use tqtk_price_streaming.Prelude.{
  ◌≡◌, ◌≢◌, refl, sym, ap, subst, all, ◌∙◌, Bool, true, false, not, Option, none, some, List, [],
  ◌∷◌, ◌++◌, map, All, All-append, list_beq, ◌==◌, ==_iff, if◌then◌else◌, arith,
}
use tqtk_price_streaming.Prelude.Text.{Str, lit, str_eq, split}
use tqtk_price_streaming.Prelude.Parts.{IsFree, IsFree-append, all-IsFree}
use tqtk_price_streaming.Storage.{Column, Check, StorageContract}
use tqtk_price_streaming.Storage.Ddl.{
  join, default_clause, define_column, define_key, define_check, definitions, create_table,
}
use tqtk_price_streaming.Storage.Reader.{
  Item, column_item, constraint_item, cut_word, drop_comma, cut_end, cut_default, column_from,
  constraint_from, read_item, read_definition, read_line, read_lines, read_table, IsLine,
  read_lines-append, split_cut, read_lines-join,
}
use tqtk_price_streaming.Storage.Cuts.{
  cut_word-first, drop_comma-comma, drop_comma-end, cut_end-found, cut_default-found,
  cut_default-none,
}

-- What the reading needs of a column: that its name is one word and no keyword, that its texts are
-- on one line, that its type has no D, as in DEFAULT, and, if it may be null, that it does not end
-- with NOT NULL or a comma itself.
pub record IsPlain (column : Column) : Type 0 where
  pub word : IsFree 32 column.name × IsFree 10 column.name × (column.name ≢ lit "CONSTRAINT")
  pub type : IsFree 10 column.type × IsFree b'D' column.type
  pub default : IsFree 10 (default_clause column.default)
  pub open_ended :
      column.nullable ≡ true
      → let base = column.type ++ default_clause column.default in
        (cut_end (lit " NOT NULL") base ≡ (base, false)) × (drop_comma (32 ∷ base) ≡ 32 ∷ base)

abbrev pub item_of : Column → Item
item_of column = column_item column.name column.type column.default column.nullable

ending-IsFree : (nullable : Bool) → IsFree 10 (if nullable then [] else lit " NOT NULL")
unfolding all
ending-IsFree true = tt
ending-IsFree false = all-IsFree 10 (lit " NOT NULL") refl

closing :
    (base : Str) (nullable : Bool)
    → (nullable ≡ true
        → (cut_end (lit " NOT NULL") base ≡ (base, false)) × (drop_comma (32 ∷ base) ≡ 32 ∷ base))
    → let whole = base ++ (if nullable then [] else lit " NOT NULL") in
      (cut_end (lit " NOT NULL") whole ≡ (base, not nullable))
      × (drop_comma (32 ∷ whole) ≡ 32 ∷ whole)
unfolding drop_comma
closing base true h = rw (append-nil base) (h refl)
closing base false h = (cut_end-found base, drop_comma-end (32 ∷ base) (lit "NOT NULL") 32)

defaulted :
    (type : Str) (default : Option Str)
    → IsFree b'D' type
    → cut_default (type ++ default_clause default) ≡ (type, default)
unfolding default_clause
defaulted type none free = rw (append-nil type) (cut_default-none type free)
defaulted type (some default) free = cut_default-found type default free

module _ (column : Column) (plain : IsPlain column) where
  abbrev base : Str
  base = column.type ++ default_clause column.default

  abbrev ending : Str
  ending = if column.nullable then [] else lit " NOT NULL"

  abbrev text : Str
  text = column.name ++ (32 ∷ (base ++ ending))

  text-eq :
      column.name ++ (lit " " ++ (column.type ++ (default_clause column.default ++ ending))) ≡ text
  text-eq =
      ap (λ clauses. column.name ++ (32 ∷ clauses))
        (sym (append_assoc column.type (default_clause column.default) ending))

  column_from-eq : column_from column.name (base ++ ending) ≡ item_of column
  unfolding column_from
  column_from-eq =
      rw
        (
          (closing base column.nullable plain.open_ended).0,
          defaulted column.type column.default plain.type.1,
        )
        (double column.nullable)
    where
      double :
          (b : Bool)
          → column_item column.name column.type column.default (not (not b))
            ≡ column_item column.name column.type column.default b
      double true = refl
      double false = refl

  read_item-column : read_item text ≡ item_of column
  unfolding read_item
  read_item-column =
      let other : (column.name == lit "CONSTRAINT") ≡ false =
        ground (arith, plain.word.2, ==_iff column.name (lit "CONSTRAINT")) in
      rw (cut_word-first column.name (base ++ ending) plain.word.0, other) column_from-eq

  read_column : read_definition text ≡ item_of column ∷ []
  unfolding read_definition
  read_column =
      ap (λ t. read_item t ∷ [])
        (drop_comma-end column.name (base ++ ending) 32
          ∙ ap (◌++◌ column.name) (closing base column.nullable plain.open_ended).1)
      ∙ ap (λ i. i ∷ []) read_item-column

  read_column_comma : read_definition (text ++ lit ",") ≡ item_of column ∷ []
  unfolding read_definition
  read_column_comma =
      ap (λ t. read_item t ∷ []) (drop_comma-comma text) ∙ ap (λ i. i ∷ []) read_item-column

  define_column-eq : read_line (define_column column) ≡ item_of column ∷ []
  unfolding define_column read_line list_beq
  define_column-eq = ap read_definition text-eq ∙ read_column

  define_column-IsLine : IsLine (define_column column)
  unfolding define_column read_line list_beq all
  define_column-IsLine = (
    IsFree-append 10 (lit "    ") _ (all-IsFree 10 (lit "    ") refl) (
        subst (IsFree 10) (sym text-eq) (
          IsFree-append 10 column.name (32 ∷ (base ++ ending)) plain.word.1 (
            (λ e. absurd (omega (arith, e))),
            IsFree-append 10 base ending
                (IsFree-append 10 column.type (default_clause column.default) plain.type.0
                  plain.default)
                (ending-IsFree column.nullable),
          ))),
    ap (λ t. read_definition (t ++ lit ",")) text-eq
        ∙ read_column_comma
        ∙ sym (ap read_definition text-eq ∙ read_column),
  )

-- A constraint whose name is one word, and whose text ends with a parenthesis.
abbrev constraint_line : Str → Str → Str
constraint_line name body = lit "    CONSTRAINT " ++ (name ++ (32 ∷ (body ++ lit ")")))

module _ (name body : Str) (word : IsFree 32 name) where
  abbrev constraint_text : Str
  constraint_text = lit "CONSTRAINT " ++ (name ++ (32 ∷ (body ++ lit ")")))

  read_item-constraint : read_item constraint_text ≡ constraint_item name (body ++ lit ")")
  unfolding read_item constraint_from cut_word list_beq
  read_item-constraint =
      ap (λ p. constraint_item p.0 p.1) (cut_word-first name (body ++ lit ")") word)

  constraint-quiet : drop_comma constraint_text ≡ constraint_text
  unfolding drop_comma
  constraint-quiet =
      let e : constraint_text ≡ (lit "CONSTRAINT " ++ (name ++ (32 ∷ body))) ++ lit ")" =
        ap (◌++◌ (lit "CONSTRAINT ")) (sym (append_assoc name (32 ∷ body) (lit ")"))) in
      ap drop_comma e ∙ drop_comma-end (lit "CONSTRAINT " ++ (name ++ (32 ∷ body))) [] b')' ∙ sym e

  constraint-eq :
      read_line (constraint_line name body) ≡ constraint_item name (body ++ lit ")") ∷ []
  unfolding read_line read_definition list_beq
  constraint-eq =
      ap (λ t. read_item t ∷ []) constraint-quiet ∙ ap (λ i. i ∷ []) read_item-constraint

  constraint-IsLine : IsFree 10 name → IsFree 10 body → IsLine (constraint_line name body)
  unfolding read_line read_definition list_beq all
  constraint-IsLine fn fb = (
    IsFree-append 10 (lit "    CONSTRAINT ") _ (all-IsFree 10 (lit "    CONSTRAINT ") refl) (
        IsFree-append 10 name _ fn (
          (λ e. absurd (omega (arith, e))),
          IsFree-append 10 body (lit ")") fb (all-IsFree 10 (lit ")") refl),
        )),
    ap (λ t. read_item t ∷ []) (drop_comma-comma constraint_text ∙ sym constraint-quiet),
  )

-- The names of the constraints are words, and no text of the contract breaks a line.
pub record IsPlainContract (contract : StorageContract) : Type 0 where
  pub table : IsFree 10 contract.table × IsFree 32 contract.table
  pub columns : All IsPlain contract.columns
  pub key :
      (names : List Str) → contract.primary_key ≡ some names → IsFree 10 (join (lit ", ") names)
  pub checks :
      All
        (λ check. IsFree 32 check.name × IsFree 10 check.name × IsFree 10 check.expression)
        contract.checks

abbrev pub key_items : Str → Option (List Str) → List Item
key_items table none = []
key_items table (some names) =
    constraint_item (table ++ lit "_pkey")
      (lit "PRIMARY KEY (" ++ (join (lit ", ") names ++ lit ")"))
    ∷ []

abbrev pub check_item : Check → Item
check_item check = constraint_item check.name (lit "CHECK (" ++ (check.expression ++ lit ")"))

-- Lines that give the items.
abbrev Gives : List Str → List Item → Type 0
Gives lines items = All IsLine lines × (read_lines lines ≡ items)

Gives-append :
    (xs ys : List Str) (is js : List Item) → Gives xs is → Gives ys js → Gives (xs ++ ys) (is ++ js)
Gives-append xs ys is js (f, g) (h, k) = (
  All-append IsLine xs ys f h,
  read_lines-append xs ys ∙ ap (λ r. r ++ read_lines ys) g ∙ ap (◌++◌ is) k,
)

Gives-cons :
    (line : Str) (item : Item) (lines : List Str) (items : List Item)
    → IsLine line
    → read_line line ≡ item ∷ []
    → Gives lines items
    → Gives (line ∷ lines) (item ∷ items)
unfolding read_lines
Gives-cons line item lines items h e (f, g) = ((h, f), rw (e, g) refl)

columns-Gives :
    (columns : List Column)
    → All IsPlain columns
    → Gives (map define_column columns) (map item_of columns)
unfolding read_lines
columns-Gives [] h = (tt, refl)
columns-Gives (c ∷ columns) h =
    Gives-cons (define_column c) (item_of c) _ _ (define_column-IsLine c h.0)
      (define_column-eq c h.0) (columns-Gives columns h.1)

key-Gives :
    (table : Str) (key : Option (List Str))
    → IsFree 10 table × IsFree 32 table
    → ((names : List Str) → key ≡ some names → IsFree 10 (join (lit ", ") names))
    → Gives (define_key table key) (key_items table key)
unfolding define_key read_lines all
key-Gives table none word lines = (tt, refl)
key-Gives table (some names) word lines =
    let name = table ++ lit "_pkey" in
    let body = lit "PRIMARY KEY (" ++ join (lit ", ") names in
    let one_word = IsFree-append 32 table (lit "_pkey") word.1 (all-IsFree 32 (lit "_pkey") refl) in
    subst (λ line. Gives (line ∷ []) (key_items table (some names)))
      (ap (◌++◌ (lit "    CONSTRAINT "))
        (append_assoc table (lit "_pkey") (32 ∷ (body ++ lit ")"))))
      (Gives-cons (constraint_line name body) (constraint_item name (body ++ lit ")")) [] []
        (constraint-IsLine name body one_word
          (IsFree-append 10 table (lit "_pkey") word.0 (all-IsFree 10 (lit "_pkey") refl))
          (IsFree-append 10 (lit "PRIMARY KEY (") _ (all-IsFree 10 (lit "PRIMARY KEY (") refl)
            (lines names refl)))
        (constraint-eq name body one_word) (tt, refl))

checks-Gives :
    (checks : List Check)
    → All (λ check. IsFree 32 check.name × IsFree 10 check.name × IsFree 10 check.expression) checks
    → Gives (map define_check checks) (map check_item checks)
unfolding define_check read_lines all
checks-Gives [] h = (tt, refl)
checks-Gives (c ∷ checks) h =
    let body = lit "CHECK (" ++ c.expression in
    Gives-cons (constraint_line c.name body) (check_item c) _ _
      (constraint-IsLine c.name body h.0.0 h.0.1
        (IsFree-append 10 (lit "CHECK (") c.expression (all-IsFree 10 (lit "CHECK (") refl) h.0.2))
      (constraint-eq c.name body h.0.0) (checks-Gives checks h.1)

-- Everything that the statement defines.
abbrev pub items_of : StorageContract → List Item
items_of contract =
    map item_of contract.columns
    ++ (key_items contract.table contract.primary_key ++ map check_item contract.checks)

definitions-Gives :
    (contract : StorageContract)
    → IsPlainContract contract
    → Gives (definitions contract) (items_of contract)
unfolding definitions
definitions-Gives contract plain =
    Gives-append _ _ _ _ (columns-Gives contract.columns plain.columns) (
      Gives-append _ _ _ _ (key-Gives contract.table contract.primary_key plain.table plain.key)
        (checks-Gives contract.checks plain.checks))

header-read : (rest : Str) → read_line (lit "CREATE TABLE IF NOT EXISTS " ++ rest) ≡ []
unfolding read_line list_beq
header-read rest = refl

header-IsFree :
    (table : Str)
    → IsFree 10 table
    → IsFree 10 (lit "CREATE TABLE IF NOT EXISTS " ++ (table ++ lit " ("))
unfolding all
header-IsFree table free =
    IsFree-append 10 (lit "CREATE TABLE IF NOT EXISTS ") _
      (all-IsFree 10 (lit "CREATE TABLE IF NOT EXISTS ") refl)
      (IsFree-append 10 table (lit " (") free (all-IsFree 10 (lit " (") refl))

-- A reader of the CREATE TABLE statement finds in it every column of the contract, in order,
-- with its name, type, default and nullability, and then the primary key and every check with
-- their names and bodies, and nothing else, if no text breaks a line, the names are single
-- words, and no column is called CONSTRAINT, has a D in its type, or may be null and ends with
-- NOT NULL or a comma.
pub read_table-create_table :
    (contract : StorageContract)
    → IsPlainContract contract
    → read_table (create_table contract) ≡ items_of contract
unfolding read_table create_table read_lines
read_table-create_table contract plain =
    let (lines, given) = definitions-Gives contract plain in
    ap (λ text. read_lines (split 10 (lit "CREATE TABLE IF NOT EXISTS " ++ text)))
      (sym (
        append_assoc contract.table (lit " (")
          (lit "\n" ++ (join (lit ",\n") (definitions contract) ++ lit "\n)"))))
    ∙ ap read_lines (
        split_cut (lit "CREATE TABLE IF NOT EXISTS " ++ (contract.table ++ lit " (")) _
          (header-IsFree contract.table plain.table.0))
    ∙ ap (λ r. r ++ read_lines (split 10 (join (lit ",\n") (definitions contract) ++ lit "\n)")))
        (header-read (contract.table ++ lit " ("))
    ∙ read_lines-join (definitions contract) lines
    ∙ given
