-- ===== src/Ci/Affected/Output.antt =====
-- affected_members.py: the list that is returned.
use tqtk_price_streaming.Prelude.{
  ◌⊎◌, ◌++◌, ◌≡◌, refl, true, ◌||◌, some, List, [], ◌∷◌, ==_iff, Option-cases, inl, inr, arith,
}
use tqtk_price_streaming.Prelude.Text.{Str, str_eq, split}
use tqtk_price_streaming.Prelude.TextOrder.{str_leb-total, str_leb_trans, lex-total, lex_trans}
use tqtk_price_streaming.Prelude.Dict.{Dict, get, put, get-put}
use tqtk_price_streaming.Prelude.Sorting.{contains, sorted, IsSorted, sorted-IsSorted}
use tqtk_price_streaming.Ci.Affected.{
  Member, member_eq, member_leb, Verdict, skip, everything, touch, judge, by_path_from,
  owner_of_parts, owning_member, judge_path, stripped, round, collect, affected_members,
}
use tqtk_price_streaming.Ci.Affected.Selection.{wants, wanted, affected_members_iff}

member_leb-total : (a b : Member) → (member_leb a b || member_leb b a) ≡ true
unfolding member_leb
member_leb-total a b =
    lex-total a.name b.name _ _ (lex-total a.path b.path _ _ (str_leb-total a.kind b.kind))

member_leb_trans :
    (a b c : Member) → member_leb a b ≡ true → member_leb b c ≡ true → member_leb a c ≡ true
unfolding member_leb
member_leb_trans a b c =
    lex_trans a.name b.name c.name _ _ _
      (lex_trans a.path b.path c.path _ _ _ (str_leb_trans a.kind b.kind c.kind))

sorted_members : (ms : List Member) → IsSorted member_leb (sorted member_leb ms)
sorted_members = sorted-IsSorted member_leb member_leb-total member_leb_trans

round-IsSorted :
    (members : List Member) (rest : List Member → List Member) (affected : List Member)
    (v : Verdict)
    → ((so_far : List Member) → IsSorted member_leb (rest so_far))
    → IsSorted member_leb (round members rest affected v)
unfolding round
round-IsSorted members rest affected skip h = h affected
round-IsSorted members rest affected everything h = sorted_members members
round-IsSorted members rest affected (touch m) h = h _

collect-IsSorted :
    (members : List Member) (by_path : Dict Str Member) (changed : List Str)
    (affected : List Member)
    → IsSorted member_leb (collect members by_path changed affected)
unfolding collect
collect-IsSorted members by_path [] affected = sorted_members affected
collect-IsSorted members by_path (raw ∷ changed) affected =
    round-IsSorted members (collect members by_path changed) affected (judge by_path raw)
      (collect-IsSorted members by_path changed)

-- The selected members are in the order of names, paths and kinds.
affected_members-IsSorted :
    (changed : List Str) (members : List Member)
    → IsSorted member_leb (affected_members changed members)
unfolding affected_members
affected_members-IsSorted changed members =
    collect-IsSorted members (by_path_from [] members) changed []

by_path_from_sound :
    (xs : List Member) (d : Dict Str Member) (k : Str) (t : Member)
    → get k (by_path_from d xs) ≡ some t
    → (get k d ≡ some t) ⊎ (contains t xs ≡ true)
unfolding by_path_from contains
by_path_from_sound [] d k t h = inl h
by_path_from_sound (x ∷ xs) d k t h = elim (by_path_from_sound xs (put x.path x d) k t h) [
  | inl held ↦ ground (arith, get-put x.path k x d, held, ==_iff x t)
  | inr later ↦ inr (ground arith)
]

owner_of_parts-get :
    (parts : List Str) (by_path : Dict Str Member) (t : Member)
    → owner_of_parts parts by_path ≡ some t
    → (k : Str) × (get k by_path ≡ some t)
unfolding owner_of_parts
owner_of_parts-get [] by_path t h = cc
owner_of_parts-get (root ∷ []) by_path t h = cc
owner_of_parts-get (root ∷ name ∷ []) by_path t h = cc
owner_of_parts-get (root ∷ name ∷ below ∷ rest) by_path t h = (root ++ (b'/' ∷ name), ground arith)

judge_path-touch :
    (members : List Member) (path : Str) (t : Member)
    → judge_path (by_path_from [] members) path ≡ touch t
    → contains t members ≡ true
unfolding judge_path owning_member
judge_path-touch members path t h =
    let by_path = by_path_from [] members in
    elim (Option-cases (owner_of_parts (split b'/' path) by_path)) [
      | inl e ↦ absurd (ground arith)
      | inr (m, e) ↦
          let same : m ≡ t = ground arith in
          let (k, found) = owner_of_parts-get (split b'/' path) by_path t (cc (e, same)) in
          elim (by_path_from_sound members [] k t found) [
            | inl empty ↦ absurd (unfold get in cc empty)
            | inr there ↦ there
          ]
    ]

wants-member :
    (members : List Member) (m : Member) (raw : Str) (v : Verdict)
    → judge (by_path_from [] members) raw ≡ v
    → wants members m v ≡ true
    → contains m members ≡ true
unfolding wants judge
wants-member members m raw skip e h = cc
wants-member members m raw everything e h = cc
wants-member members m raw (touch t) e h =
    ground (arith, judge_path-touch members (stripped raw) t e, ==_iff t m)

wanted-member :
    (members : List Member) (m : Member) (changed : List Str)
    → wanted members (by_path_from [] members) m changed ≡ true
    → contains m members ≡ true
unfolding wanted
wanted-member members m [] h = cc
wanted-member members m (raw ∷ changed) h = ground (
  arith,
  wants-member members m raw (judge (by_path_from [] members) raw) refl,
  wanted-member members m changed,
)

-- Only members are selected.
affected_members-member :
    (changed : List Str) (members : List Member) (m : Member)
    → contains m (affected_members changed members) ≡ true
    → contains m members ≡ true
affected_members-member changed members m h =
    ground (arith, affected_members_iff changed members m, wanted-member members m changed)
