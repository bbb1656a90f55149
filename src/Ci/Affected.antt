-- ===== src/Ci/Affected.antt =====
-- tools/ci/affected_members.py: a set of changed paths onto the members to build and test. The
-- directory tree is a parameter of `discover_members`.
pub mod Selection
pub mod Output
pub mod Discovery
pub mod Ownership
use tqtk_price_streaming.Prelude.{
  ℕ, suc, ◌≡◌, ◌↔◌, Bool, true, false, ◌&&◌, ◌||◌, Option, none, some, List, [], ◌∷◌, ◌++◌, map,
  keep, any, nat_beq, Eq, ◌==◌, ==_iff, arith, if◌then◌else◌,
}
use tqtk_price_streaming.Prelude.Text.{
  Str, lit, str_eq, starts_with, str_leb, strip, is_space, split,
}
use tqtk_price_streaming.Prelude.TextOrder.{lex}
use tqtk_price_streaming.Prelude.Dict.{Dict, get, put}
use tqtk_price_streaming.Prelude.Sorting.{contains, sorted}

pub record Member : Type 0 where
  pub name : Str
  pub path : Str
  pub kind : Str

-- The equality and the order of the dataclass: field by field.
unfoldable pub member_beq : Member → Member → Bool
member_beq a b = a.name == b.name && a.path == b.path && a.kind == b.kind

pub member_beq_iff : (a b : Member) → (member_beq a b ≡ true) ↔ (a ≡ b)
unfolding member_beq
member_beq_iff a b =
    ground (arith, ==_iff a.name b.name, ==_iff a.path b.path, ==_iff a.kind b.kind)

instance abbrev pub member_eq : Eq Member
member_eq = record { same = member_beq; same_iff = member_beq_iff }

unfoldable pub member_leb : Member → Member → Bool
member_leb a b = lex a.name b.name (lex a.path b.path (str_leb a.kind b.kind))

abbrev pub member_roots : Dict Str Str
member_roots = (lit "libs", lit "lib") ∷ (lit "services", lit "service") ∷ []

abbrev pub global_paths : List Str
global_paths = lit "pyproject.toml" ∷ lit "uv.lock" ∷ lit ".dockerignore" ∷ []

abbrev pub global_prefixes : List Str
global_prefixes = lit ".github/" ∷ lit "contracts/" ∷ lit "tools/" ∷ []

abbrev pub ignored_paths : List Str
ignored_paths = lit ".gitignore" ∷ lit "LICENSE" ∷ lit "README.md" ∷ []

abbrev pub ignored_prefixes : List Str
ignored_prefixes =
    lit ".claude/" ∷ lit ".idea/" ∷ lit "data/" ∷ lit "deploy/" ∷ lit "docs/" ∷ lit "openspec/" ∷ []

-- `path in paths or path.startswith(prefixes)`
unfoldable pub falls_under : List Str → List Str → Str → Bool
unfolding contains any starts_with
falls_under paths prefixes path = contains path paths || any (λ p. starts_with p path) prefixes

-- What lies below a root: the names, and whether each holds a pyproject.toml.
abbrev pub Tree : Type 0
Tree = Str → List (Str × Bool)

unfoldable pub members_below : Str → Str → List (Str × Bool) → List Member
members_below root kind [] = []
members_below root kind ((name, is_member) ∷ rest) =
    let found : Member = record { name = name; path = root ++ (b'/' ∷ name); kind = kind } in
    let others = members_below root kind rest in if is_member then found ∷ others else others

unfoldable pub members_of_roots : Tree → Dict Str Str → List Member
unfolding members_below
members_of_roots tree [] = []
members_of_roots tree ((root, kind) ∷ roots) =
    members_below root kind (tree root) ++ members_of_roots tree roots

unfoldable pub discover_members : Tree → List Member
unfolding members_of_roots
discover_members tree = sorted member_leb (members_of_roots tree member_roots)

-- `{member.path: member for member in members}`: a later member takes the place of an earlier one.
unfoldable pub by_path_from : Dict Str Member → List Member → Dict Str Member
unfolding put
by_path_from d [] = d
by_path_from d (m ∷ members) = by_path_from (put m.path m d) members

unfoldable pub owner_of_parts : List Str → Dict Str Member → Option Member
unfolding get
owner_of_parts (root ∷ name ∷ below ∷ rest) by_path = elim (get root member_roots) [
  | none ↦ none
  | some _ ↦ get (root ++ (b'/' ∷ name)) by_path
]
owner_of_parts _ by_path = none

unfoldable pub owning_member : Str → Dict Str Member → Option Member
owning_member path by_path = owner_of_parts (split b'/' path) by_path

-- What one changed path does to the loop: `continue`, `return sorted(members)`, or an addition.
pub data Verdict : Type 0 where
  skip everything : Verdict
  touch : Member → Verdict

-- `raw.strip().strip('"')`
unfoldable pub stripped : Str → Str
unfolding strip is_space
stripped raw = strip (λ c. nat_beq c 34) (strip is_space raw)

unfoldable pub judge_path : Dict Str Member → Str → Verdict
judge_path by_path path =
    if path == []
    then skip
    else if falls_under global_paths global_prefixes path
    then everything
    else if falls_under ignored_paths ignored_prefixes path
    then skip
    else (elim (owning_member path by_path) [ none ↦ everything | some m ↦ touch m ])

unfoldable pub judge : Dict Str Member → Str → Verdict
judge by_path raw = judge_path by_path (stripped raw)

-- `affected.add(member)`
unfoldable pub add : Member → List Member → List Member
unfolding contains
add m affected = if contains m affected then affected else m ∷ affected

-- `affected.update(members)`
unfoldable pub update : List Member → List Member → List Member
unfolding add
update [] affected = affected
update (m ∷ ms) affected = update ms (add m affected)

abbrev pub is_lib : Member → Bool
is_lib m = m.kind == lit "lib"

abbrev pub is_service : Member → Bool
is_service m = m.kind == lit "service"

-- One round of the loop, with the rest of it as a function of the set so far.
unfoldable pub round :
    List Member → (List Member → List Member) → List Member → Verdict → List Member
round members rest affected skip = rest affected
round members rest affected everything = sorted member_leb members
round members rest affected (touch m) =
    rest (if is_lib m then update (keep is_service members) (add m affected) else add m affected)

-- The loop over the changed paths; `affected` is the set so far.
unfoldable pub collect : List Member → Dict Str Member → List Str → List Member → List Member
unfolding round
collect members by_path [] affected = sorted member_leb affected
collect members by_path (raw ∷ changed) affected =
    round members (collect members by_path changed) affected (judge by_path raw)

unfoldable pub affected_members : List Str → List Member → List Member
affected_members changed members = collect members (by_path_from [] members) changed []

-- `main`: the lines of the input and the JSON of the members are parameters.
unfoldable pub main : (Str → List Str) → (List Member → Str) → Tree → Str → Str
main splitlines dump tree stdin =
    dump (affected_members (splitlines stdin) (discover_members tree)) ++ lit "\n"
