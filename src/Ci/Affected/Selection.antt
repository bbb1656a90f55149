-- ===== src/Ci/Affected/Selection.antt =====
-- affected_members.py: which members are selected.
use tqtk_price_streaming.Prelude.{
  ◌≡◌, refl, ap, Bool, true, false, ◌&&◌, ◌||◌, List, [], ◌∷◌, keep, ◌==◌, ==_iff, arith,
  if◌then◌else◌,
}
use tqtk_price_streaming.Prelude.Text.{Str, str_eq}
use tqtk_price_streaming.Prelude.Dict.{Dict}
use tqtk_price_streaming.Prelude.Sorting.{contains, contains-sorted}
use tqtk_price_streaming.Ci.Affected.{
  Member, member_eq, member_leb, Verdict, skip, everything, touch, judge, add, update, is_lib,
  is_service, by_path_from, collect, affected_members,
}

unfoldable pub is_everything : Verdict → Bool
is_everything v = elim v [ everything ↦ true | _ ↦ false ]

-- The member is the owner, or a service below the library that is.
unfoldable pub wants : List Member → Member → Verdict → Bool
wants members m (touch t) = t == m || (is_lib t && (is_service m && contains m members))
wants members m skip = false
wants members m everything = false

-- Some changed path may touch anything.
unfoldable pub touches_all : Dict Str Member → List Str → Bool
touches_all by_path [] = false
touches_all by_path (raw ∷ changed) =
    is_everything (judge by_path raw) || touches_all by_path changed

unfoldable pub wanted : List Member → Dict Str Member → Member → List Str → Bool
wanted members by_path m [] = false
wanted members by_path m (raw ∷ changed) =
    wants members m (judge by_path raw) || wanted members by_path m changed

contains-add :
    (m x : Member) (affected : List Member)
    → contains m (add x affected) ≡ (x == m || contains m affected)
unfolding add contains
contains-add m x affected = ground (arith, ==_iff x m)

contains-update :
    (m : Member) (xs affected : List Member)
    → contains m (update xs affected) ≡ (contains m xs || contains m affected)
unfolding update contains
contains-update m [] affected = refl
contains-update m (x ∷ xs) affected =
    ground (arith, contains-update m xs (add x affected), contains-add m x affected)

contains-keep :
    (m : Member) (p : Member → Bool) (xs : List Member)
    → contains m (keep p xs) ≡ (p m && contains m xs)
unfolding contains keep
contains-keep m p [] = ground arith
contains-keep m p (x ∷ xs) = ground (arith, contains-keep m p xs, ==_iff x m, ap p)

-- One addition of the loop.
contains-touched :
    (members : List Member) (m t : Member) (affected : List Member)
    → contains m
        (if is_lib t then update (keep is_service members) (add t affected) else add t affected)
      ≡ (contains m affected || wants members m (touch t))
unfolding wants
contains-touched members m t affected = ground (
  arith,
  contains-update m (keep is_service members) (add t affected),
  contains-add m t affected,
  contains-keep m is_service members,
)

-- What the loop selects, from a set of members so far.
abbrev Selects : List Member → Dict Str Member → Member → List Str → List Member → Type 0
Selects members by_path m changed affected =
    contains m (collect members by_path changed affected) ≡ (
      if touches_all by_path changed
      then contains m members
      else contains m affected || wanted members by_path m changed)

Selects-next :
    (members : List Member) (by_path : Dict Str Member) (m : Member) (raw : Str)
    (changed : List Str) (affected : List Member) (v : Verdict)
    → judge by_path raw ≡ v
    → ((so_far : List Member) → Selects members by_path m changed so_far)
    → Selects members by_path m (raw ∷ changed) affected
unfolding collect touches_all wanted is_everything
Selects-next members by_path m raw changed affected skip e rest =
    unfold wants in ground (arith, rest affected)
Selects-next members by_path m raw changed affected everything e rest =
    ground (arith, contains-sorted member_leb m members)
Selects-next members by_path m raw changed affected (touch t) e rest =
    let more : List Member =
      if is_lib t then update (keep is_service members) (add t affected) else add t affected in
    ground (arith, rest more, contains-touched members m t affected)

contains-collect :
    (members : List Member) (by_path : Dict Str Member) (m : Member) (changed : List Str)
    (affected : List Member)
    → Selects members by_path m changed affected
unfolding collect touches_all wanted
contains-collect members by_path m [] affected =
    ground (arith, contains-sorted member_leb m affected)
contains-collect members by_path m (raw ∷ changed) affected =
    Selects-next members by_path m raw changed affected (judge by_path raw) refl
      (contains-collect members by_path m changed)

-- A member is selected exactly when some changed path may touch anything and it is a member, or
-- when none may and it owns a changed path or is a service where a library owns one.
pub affected_members_iff :
    (changed : List Str) (members : List Member) (m : Member)
    → contains m (affected_members changed members) ≡ (
        if touches_all (by_path_from [] members) changed
        then contains m members
        else wanted members (by_path_from [] members) m changed)
unfolding affected_members contains
affected_members_iff changed members m =
    contains-collect members (by_path_from [] members) m changed []
