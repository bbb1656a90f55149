-- ===== src/Storage/Reader.antt =====
-- testing.py: a reader of the CREATE TABLE statement, line by line.
use mathlib.Core.List.{append_assoc}
use tqtk_price_streaming.Prelude.{
  ◌≡◌, refl, sym, ap, ◌∙◌, Bool, true, false, not, Option, none, some, List, [], ◌∷◌, ◌++◌, All,
  nat_beq, nat_eq, ◌==◌, if◌then◌else◌, arith,
}
use tqtk_price_streaming.Prelude.Text.{Str, lit, str_eq, starts_with, split}
use tqtk_price_streaming.Prelude.Parts.{IsFree, IsFree-append, split_parts-cut}
use tqtk_price_streaming.Storage.Ddl.{join}

-- What a definition gives: a column's name, type, default and whether it may be null; a
-- constraint's name and body.
pub data Item : Type 0 where
  column_item : Str → Str → Option Str → Bool → Item
  constraint_item : Str → Str → Item

-- The text before its first blank, and the text after it.
unfoldable pub cut_word : Str → Str × Str
cut_word [] = ([], [])
cut_word (c ∷ text) =
    let (word, rest) = cut_word text in if nat_beq c 32 then ([], text) else (c ∷ word, rest)

-- A last comma is left out.
unfoldable pub drop_comma : Str → Str
drop_comma [] = []
drop_comma (c ∷ []) = if nat_beq c b',' then [] else c ∷ []
drop_comma (c ∷ d ∷ text) = c ∷ drop_comma (d ∷ text)

-- The text without the end, and whether it had it.
unfoldable pub cut_end : Str → Str → Str × Bool
cut_end end [] = ([], false)
cut_end end (c ∷ text) =
    let (before, found) = cut_end end text in
    if (c ∷ text) == end then ([], true) else (c ∷ before, found)

-- What follows a keyword of nine characters.
unfoldable pub after_nine : Str → Str
after_nine (_ ∷ _ ∷ _ ∷ _ ∷ _ ∷ _ ∷ _ ∷ _ ∷ _ ∷ text) = text
after_nine _ = []

-- The text before the first DEFAULT, and the text after it.
unfoldable pub cut_default : Str → Str × Option Str
unfolding after_nine
cut_default [] = ([], none)
cut_default (c ∷ text) =
    let (before, default) = cut_default text in
    if starts_with (lit " DEFAULT ") (c ∷ text)
    then ([], some (after_nine (c ∷ text)))
    else (c ∷ before, default)

unfoldable pub column_from : Str → Str → Item
unfolding cut_end cut_default
column_from name rest =
    let (clauses, not_null) = cut_end (lit " NOT NULL") rest in
    let (type, default) = cut_default clauses in column_item name type default (not not_null)

unfoldable pub constraint_from : Str → Item
unfolding cut_word
constraint_from rest = let (name, body) = cut_word rest in constraint_item name body

unfoldable pub read_item : Str → Item
unfolding cut_word column_from constraint_from
read_item text =
    let (word, rest) = cut_word text in
    if word == lit "CONSTRAINT" then constraint_from rest else column_from word rest

unfoldable pub read_definition : Str → List Item
unfolding drop_comma read_item
read_definition text = read_item (drop_comma text) ∷ []

-- A definition is a line with four spaces before it.
unfoldable pub read_line : Str → List Item
unfolding read_definition
read_line (a ∷ b ∷ c ∷ d ∷ text) =
    let indent : Str = a ∷ b ∷ c ∷ d ∷ [] in
    if indent == lit "    " then read_definition text else []
read_line _ = []

unfoldable pub read_lines : List Str → List Item
unfolding read_line
read_lines [] = []
read_lines (line ∷ lines) = read_line line ++ read_lines lines

unfoldable pub read_table : Str → List Item
unfolding split
read_table statement = read_lines (split 10 statement)

-- A line that reads the same with a comma after it.
abbrev pub IsLine : Str → Type 0
IsLine line = IsFree 10 line × (read_line (line ++ lit ",") ≡ read_line line)

pub read_lines-append : (xs ys : List Str) → read_lines (xs ++ ys) ≡ read_lines xs ++ read_lines ys
unfolding read_lines
read_lines-append [] ys = refl
read_lines-append (x ∷ xs) ys =
    ap (λ r. read_line x ++ r) (read_lines-append xs ys)
    ∙ sym (append_assoc (read_line x) (read_lines xs) (read_lines ys))

pub split_cut :
    (line rest : Str) → IsFree 10 line → split 10 (line ++ (10 ∷ rest)) ≡ line ∷ split 10 rest
unfolding split
split_cut line rest free = rw (split_parts-cut 10 line rest free) refl

pub read_lines-join :
    (lines : List Str)
    → All IsLine lines
    → read_lines (split 10 (join (lit ",\n") lines ++ lit "\n)")) ≡ read_lines lines
unfolding join read_lines split
read_lines-join [] h = refl
read_lines-join (x ∷ []) h = ap read_lines (split_cut x (lit ")") h.0.0)
read_lines-join (x ∷ y ∷ lines) h =
    let rest = join (lit ",\n") (y ∷ lines) ++ lit "\n)" in
    ap (λ text. read_lines (split 10 text))
      (append_assoc x (lit ",\n" ++ join (lit ",\n") (y ∷ lines)) (lit "\n)")
        ∙ sym (append_assoc x (lit ",") (10 ∷ rest)))
    ∙ ap read_lines (
        split_cut (x ++ lit ",") rest
          (IsFree-append 10 x (lit ",") h.0.0 (λ e. absurd (omega arith), tt)))
    ∙ ap (◌++◌ (read_line (x ++ lit ","))) (read_lines-join (y ∷ lines) h.1)
    ∙ ap (λ r. r ++ read_lines (y ∷ lines)) h.0.1
