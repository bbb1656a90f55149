-- ===== src/Ci/Affected/Discovery.antt =====
-- affected_members.py: the members that are found on disk, and that a path has one of them.
use tqtk_price_streaming.Prelude.{
  ◌≡◌, ◌⊎◌, refl, sym, subst, ap, ◌∙◌, Bool, true, false, ◌||◌, some, List, [], ◌∷◌, ◌++◌, All, all,
  ◌==◌, ==_iff, ==_refl, inl, inr, Bool-cases, arith,
}
use tqtk_price_streaming.Prelude.Text.{Str, lit, str_eq}
use tqtk_price_streaming.Prelude.Parts.{IsFree, split_free, all-IsFree}
use tqtk_price_streaming.Prelude.Dict.{Dict, get, put, get-put}
use tqtk_price_streaming.Prelude.Sorting.{contains, contains-sorted}
use tqtk_price_streaming.Ci.Affected.{
  Member, member_eq, member_leb, member_roots, Tree, members_below, members_of_roots,
  discover_members, by_path_from,
}

-- Members of one path are one.
pub by_path_from-get :
    (m : Member) (xs : List Member) (d : Dict Str Member)
    → ((x : Member) → contains x xs ≡ true → x.path ≡ m.path → x ≡ m)
    → (get m.path d ≡ some m) ⊎ (contains m xs ≡ true)
    → get m.path (by_path_from d xs) ≡ some m
unfolding by_path_from contains
by_path_from-get m [] d one (inl h) = h
by_path_from-get m [] d one (inr h) = absurd cc
by_path_from-get m (x ∷ xs) d one h =
    by_path_from-get m xs (put x.path x d) (λ y there same. one y (ground (arith, there)) same)
      (elim (Bool-cases (x.path == m.path)) [
        | inl same ↦ inl (
            get-put x.path m.path x d
            ∙ rw same (ap some (one x (ground (arith, ==_refl x)) ((==_iff x.path m.path).0 same))))
        | inr other ↦ elim h [
          | inl held ↦ inl (get-put x.path m.path x d ∙ rw other held)
          | inr there ↦ elim (Bool-cases (x == m)) [
            | inl e ↦
                absurd (ground (arith, ==_iff x.path m.path, ap (λ y. y.path) ((==_iff x m).0 e)))
            | inr e ↦ inr (ground arith)
          ]
        ]
      ])

-- What is below a root is found.
abbrev pub member_at : Str → Str → Str → Member
member_at root kind name = record { name = name; path = root ++ (b'/' ∷ name); kind = kind }

members_below-has :
    (root kind name : Str) (before after : List (Str × Bool))
    → contains
        (member_at root kind name)
        (members_below root kind (before ++ ((name, true) ∷ after)))
      ≡ true
unfolding members_below contains
members_below-has root kind name [] after = rw (==_refl (member_at root kind name)) refl
members_below-has root kind name ((other, true) ∷ before) after =
    ground (arith, members_below-has root kind name before after)
members_below-has root kind name ((other, false) ∷ before) after =
    members_below-has root kind name before after

-- And nothing else is.
members_below-only :
    (root kind : Str) (entries : List (Str × Bool)) (x : Member)
    → All (λ e. IsFree b'/' e.0) entries
    → contains x (members_below root kind entries) ≡ true
    → (name : Str) × IsFree b'/' name × (x ≡ member_at root kind name)
unfolding members_below contains
members_below-only root kind [] x free h = absurd cc
members_below-only root kind ((name, true) ∷ entries) x free h =
    elim (Bool-cases (member_at root kind name == x)) [
      | inl e ↦ (name, free.0, sym ((==_iff (member_at root kind name) x).0 e))
      | inr e ↦ members_below-only root kind entries x free.1 (ground arith)
    ]
members_below-only root kind ((name, false) ∷ entries) x free h =
    members_below-only root kind entries x free.1 h

contains-append :
    (x : Member) (xs ys : List Member) → contains x (xs ++ ys) ≡ (contains x xs || contains x ys)
unfolding contains
contains-append x [] ys = refl
contains-append x (y ∷ xs) ys = ground (arith, contains-append x xs ys)

or_false : (b : Bool) → (b || false) ≡ b
or_false b = ground arith

-- The names below either root have no slash.
abbrev pub IsTree : Tree → Type 0
IsTree tree =
    All (λ e. IsFree b'/' e.0) (tree (lit "libs"))
    × All (λ e. IsFree b'/' e.0) (tree (lit "services"))

abbrev pub IsRoot : Str → Str → Type 0
IsRoot root kind =
    ((root ≡ lit "libs") × (kind ≡ lit "lib")) ⊎ ((root ≡ lit "services") × (kind ≡ lit "service"))

pub IsRoot-cases : (root kind : Str) → get root member_roots ≡ some kind → IsRoot root kind
unfolding get
IsRoot-cases root kind h = ground (arith, ==_iff (lit "libs") root, ==_iff (lit "services") root)

discovered-parts :
    (tree : Tree) (x : Member)
    → contains x (discover_members tree) ≡ (
        contains x (members_below (lit "libs") (lit "lib") (tree (lit "libs")))
        || contains x (members_below (lit "services") (lit "service") (tree (lit "services"))))
unfolding discover_members members_of_roots contains
discovered-parts tree x =
    let libs = members_below (lit "libs") (lit "lib") (tree (lit "libs")) in
    let services = members_below (lit "services") (lit "service") (tree (lit "services")) in
    contains-sorted member_leb x (libs ++ (services ++ []))
    ∙ contains-append x libs (services ++ [])
    ∙ ap (λ b. contains x libs || b)
        (contains-append x services [] ∙ or_false (contains x services))

pub discovered-has :
    (tree : Tree) (root kind name : Str) (before after : List (Str × Bool))
    → IsRoot root kind
    → tree root ≡ before ++ ((name, true) ∷ after)
    → contains (member_at root kind name) (discover_members tree) ≡ true
discovered-has tree root kind name before after at here =
    let found : contains (member_at root kind name) (members_below root kind (tree root)) ≡ true =
      rw here (members_below-has root kind name before after) in
    discovered-parts tree (member_at root kind name) ∙ by_root root kind at found
  where
    by_root :
        (r k : Str)
        → IsRoot r k
        → contains (member_at root kind name) (members_below r k (tree r)) ≡ true
        → (contains
              (member_at root kind name)
              (members_below (lit "libs") (lit "lib") (tree (lit "libs")))
            || contains
                (member_at root kind name)
                (members_below (lit "services") (lit "service") (tree (lit "services"))))
          ≡ true
    by_root r k (inl (a, b)) h = ground (arith, h, a, b)
    by_root r k (inr (a, b)) h = ground (arith, h, a, b)

discovered-only :
    (tree : Tree) (x : Member)
    → IsTree tree
    → contains x (discover_members tree) ≡ true
    → (root : Str) × (kind : Str) × (name : Str) × IsRoot root kind
      × IsFree b'/' name
      × (x ≡ member_at root kind name)
discovered-only tree x free h =
    let libs = contains x (members_below (lit "libs") (lit "lib") (tree (lit "libs"))) in
    elim (Bool-cases libs) [
      | inl e ↦
          let (name, plain, same) =
            members_below-only (lit "libs") (lit "lib") (tree (lit "libs")) x free.0 e in
          (lit "libs", lit "lib", name, inl (refl, refl), plain, same)
      | inr e ↦
          let there : contains x
                (members_below (lit "services") (lit "service") (tree (lit "services")))
              ≡ true =
            ground (arith, discovered-parts tree x) in
          let (name, plain, same) =
            members_below-only (lit "services") (lit "service") (tree (lit "services")) x free.1
              there in
          (lit "services", lit "service", name, inr (refl, refl), plain, same)
    ]

pub root-IsFree : (root kind : Str) → IsRoot root kind → IsFree b'/' root
unfolding all
root-IsFree root kind (inl (a, b)) = subst (IsFree b'/') (sym a) (all-IsFree b'/' (lit "libs") refl)
root-IsFree root kind (inr (a, b)) =
    subst (IsFree b'/') (sym a) (all-IsFree b'/' (lit "services") refl)

kind_unique :
    (root root' kind kind' : Str)
    → IsRoot root kind
    → IsRoot root' kind'
    → root ≡ root'
    → kind ≡ kind'
kind_unique root root' kind kind' (inl (a, b)) (inl (c, d)) e = b ∙ sym d
kind_unique root root' kind kind' (inr (a, b)) (inr (c, d)) e = b ∙ sym d
kind_unique root root' kind kind' (inl (a, b)) (inr (c, d)) e = absurd cc
kind_unique root root' kind kind' (inr (a, b)) (inl (c, d)) e = absurd cc

pub one_path :
    (tree : Tree) (root kind name : Str)
    → IsTree tree
    → IsRoot root kind
    → IsFree b'/' name
    → (x : Member) → contains x (discover_members tree) ≡ true
    → x.path ≡ root ++ (b'/' ∷ name)
    → x ≡ member_at root kind name
one_path tree root kind name free at plain x there path =
    let (root', kind', name', at', plain', same) = discovered-only tree x free there in
    let (roots, names) =
      split_free b'/' root' root name' name (root-IsFree root' kind' at') (root-IsFree root kind at)
        (sym (ap (λ y. y.path) same) ∙ path) in
    same ∙ cc (roots, names, kind_unique root' root kind' kind at' at roots)
