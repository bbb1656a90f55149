-- ===== src/Ci/Affected/Ownership.antt =====
-- affected_members.py: a change below the directory of a member that is found on disk.
use tqtk_price_streaming.Prelude.{
  ◌≡◌, ◌⊎◌, refl, sym, subst, ap, ◌∙◌, Bool, true, false, some, List, [], ◌∷◌, ◌++◌, All, any,
  list_beq, ◌==◌, ==_iff, inl, inr, Bool-cases, arith, if◌then◌else◌,
}
use tqtk_price_streaming.Prelude.Text.{Str, str_eq, starts_with, split}
use tqtk_price_streaming.Prelude.Parts.{IsFree, split_parts-cut}
use tqtk_price_streaming.Prelude.Dict.{Dict, get}
use tqtk_price_streaming.Prelude.Sorting.{contains}
use tqtk_price_streaming.Ci.Affected.{
  Member, member_eq, member_roots, Tree, discover_members, touch, is_lib, is_service, falls_under,
  global_paths, global_prefixes, ignored_paths, ignored_prefixes, judge, judge_path, stripped,
  by_path_from, owner_of_parts, owning_member, affected_members,
}
use tqtk_price_streaming.Ci.Affected.Selection.{wants, wanted, touches_all, affected_members_iff}
use tqtk_price_streaming.Ci.Affected.Discovery.{
  member_at, IsTree, IsRoot, by_path_from-get, IsRoot-cases, discovered-has, root-IsFree, one_path,
}

-- A path below either root is neither global nor ignored.
unclaimed :
    (root kind rest : Str)
    → IsRoot root kind
    → (falls_under global_paths global_prefixes (root ++ (b'/' ∷ rest)) ≡ false)
      × (falls_under ignored_paths ignored_prefixes (root ++ (b'/' ∷ rest)) ≡ false)
unfolding falls_under contains any starts_with list_beq
unclaimed root kind rest (inl (a, b)) = rw a (refl, refl)
unclaimed root kind rest (inr (a, b)) = rw a (refl, refl)

known_root : (root kind : Str) → IsRoot root kind → get root member_roots ≡ some kind
unfolding get list_beq
known_root root kind (inl (a, b)) = rw (a, b) refl
known_root root kind (inr (a, b)) = rw (a, b) refl

nonempty : (root kind rest : Str) → IsRoot root kind → ((root ++ (b'/' ∷ rest)) == []) ≡ false
unfolding list_beq
nonempty root kind rest (inl (a, b)) = rw a refl
nonempty root kind rest (inr (a, b)) = rw a refl

owner-below :
    (by_path : Dict Str Member) (root kind name below : Str) (m : Member)
    → IsRoot root kind
    → IsFree b'/' name
    → get (root ++ (b'/' ∷ name)) by_path ≡ some m
    → owning_member (root ++ (b'/' ∷ (name ++ (b'/' ∷ below)))) by_path ≡ some m
unfolding owning_member split owner_of_parts
owner-below by_path root kind name below m at plain held =
    let cut = split_parts-cut b'/' root (name ++ (b'/' ∷ below)) (root-IsFree root kind at) in
    let cut' = split_parts-cut b'/' name below plain in
    ap (λ parts. owner_of_parts (parts.0 ∷ parts.1) by_path) cut
    ∙ ap (λ parts. owner_of_parts (root ∷ parts.0 ∷ parts.1) by_path) cut'
    ∙ rw (known_root root kind at, owner_of_parts) held

judge-below :
    (by_path : Dict Str Member) (root kind name below raw : Str) (m : Member)
    → IsRoot root kind
    → IsFree b'/' name
    → get (root ++ (b'/' ∷ name)) by_path ≡ some m
    → stripped raw ≡ root ++ (b'/' ∷ (name ++ (b'/' ∷ below)))
    → judge by_path raw ≡ touch m
unfolding judge judge_path
judge-below by_path root kind name below raw m at plain held path =
    let rest = name ++ (b'/' ∷ below) in
    let (free, kept) = unclaimed root kind rest at in
    rw
      (
        path,
        nonempty root kind rest at,
        free,
        kept,
        owner-below by_path root kind name below m at plain held,
      )
      refl

wanted-touch :
    (members : List Member) (by_path : Dict Str Member) (m x : Member) (raw : Str)
    (changed : List Str)
    → contains raw changed ≡ true
    → judge by_path raw ≡ touch m
    → wants members x (touch m) ≡ true
    → wanted members by_path x changed ≡ true
unfolding wanted contains
wanted-touch members by_path m x raw [] there e w = absurd cc
wanted-touch members by_path m x raw (r ∷ changed) there e w = elim (Bool-cases (r == raw)) [
  | inl same ↦
      let same_judged = ap (judge by_path) ((==_iff r raw).0 same) ∙ e in rw (same_judged, w) refl
  | inr other ↦ ground (arith, wanted-touch members by_path m x raw changed (ground arith) e w)
]

name-IsFree :
    (tree : Tree) (root kind name : Str) (before after : List (Str × Bool))
    → IsTree tree
    → IsRoot root kind
    → tree root ≡ before ++ ((name, true) ∷ after)
    → IsFree b'/' name
name-IsFree tree root kind name before after free at here =
    All-at before after (subst (All (λ e. IsFree b'/' e.0)) here (by_root root kind at))
  where
    by_root : (r k : Str) → IsRoot r k → All (λ e. IsFree b'/' e.0) (tree r)
    by_root r k (inl (a, b)) = subst (λ x. All (λ e. IsFree b'/' e.0) (tree x)) (sym a) free.0
    by_root r k (inr (a, b)) = subst (λ x. All (λ e. IsFree b'/' e.0) (tree x)) (sym a) free.1

    All-at :
        (before after : List (Str × Bool))
        → All (λ e. IsFree b'/' e.0) (before ++ ((name, true) ∷ after))
        → IsFree b'/' name
    All-at [] after h = h.0
    All-at (e ∷ before) after h = All-at before after h.1

-- The member itself, or a service that is found where the member is a library.
abbrev pub IsRebuilt : List Member → Member → Member → Type 0
IsRebuilt members m x =
    (x ≡ m) ⊎ ((is_lib m ≡ true) × (is_service x ≡ true) × (contains x members ≡ true))

rebuilt-wants :
    (members : List Member) (m x : Member)
    → IsRebuilt members m x
    → wants members x (touch m) ≡ true
unfolding wants
rebuilt-wants members m x (inl same) = ground (arith, ==_iff m x, sym same)
rebuilt-wants members m x (inr (lib, service, there)) = ground (arith, lib, service, there)

rebuilt-member :
    (members : List Member) (m x : Member)
    → contains m members ≡ true
    → IsRebuilt members m x
    → contains x members ≡ true
rebuilt-member members m x found (inl same) =
    subst (λ y. contains y members ≡ true) (sym same) found
rebuilt-member members m x found (inr (lib, service, there)) = there

-- A changed path below the directory of a member that is found on disk selects that member, and
-- every service found there if the member is a library, if no name under the two roots has a
-- slash.
pub affected_members_below :
    (tree : Tree) (root kind name : Str) (before after : List (Str × Bool)) (raw below : Str)
    (changed : List Str) (x : Member)
    → IsTree tree
    → get root member_roots ≡ some kind
    → tree root ≡ before ++ ((name, true) ∷ after)
    → contains raw changed ≡ true
    → stripped raw ≡ root ++ (b'/' ∷ (name ++ (b'/' ∷ below)))
    → IsRebuilt (discover_members tree) (member_at root kind name) x
    → contains x (affected_members changed (discover_members tree)) ≡ true
affected_members_below tree root kind name before after raw below changed x free known here there
      path rebuilt =
    let at = IsRoot-cases root kind known in
    let members = discover_members tree in
    let m = member_at root kind name in
    let found = discovered-has tree root kind name before after at here in
    let plain = name-IsFree tree root kind name before after free at here in
    let held =
      by_path_from-get m members [] (one_path tree root kind name free at plain) (inr found) in
    let judged =
      judge-below (by_path_from [] members) root kind name below raw m at plain held path in
    let wanted_x =
      wanted-touch members (by_path_from [] members) m x raw changed there judged
        (rebuilt-wants members m x rebuilt) in
    affected_members_iff changed members x
    ∙ both (touches_all (by_path_from [] members) changed)
        (rebuilt-member members m x found rebuilt) wanted_x
  where
    both :
        (all_of_them : Bool) {a b : Bool}
        → a ≡ true
        → b ≡ true
        → (if all_of_them then a else b) ≡ true
    both true h k = h
    both false h k = k
