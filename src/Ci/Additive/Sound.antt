-- ===== src/Ci/Additive/Sound.antt =====
-- additive_only.py: what `check_lineage` says of two versions.
use tqtk_price_streaming.Prelude.{
  ◌<◌, ◌≡◌, ◌↔◌, ◌⊎◌, inl, inr, refl, ap, ◌∙◌, Bool, true, false, not, ◌&&◌, ◌||◌, none, some, List,
  [], ◌∷◌, ◌++◌, keep, ◌==◌, ==_iff, Option-cases, Bool-cases, arith,
}
use tqtk_price_streaming.Prelude.Text.{Str, lit, str_eq, str_leb}
use tqtk_price_streaming.Prelude.Dict.{Dict, get, keys}
use tqtk_price_streaming.Prelude.Sorting.{contains, contains-sorted}
use tqtk_price_streaming.Ci.Additive.{
  Column, Artifact, Violation, column_dropped, columns_by_name, for_each, changed, check_changed,
  check_introduced, keys_minus, keys_both, check_version, check_lineage,
}

-- Every value of the old column can be read at the new one.
pub record SafeChange (old new : Column) : Type 0 where
  pub type : (old.type ≡ new.type) ⊎ ((old.type ≡ lit "integer") × (new.type ≡ lit "bigint"))
  pub nullable : old.nullable ≡ true → new.nullable ≡ true

pub record IsAdditive (older newer : Artifact) : Type 0 where
  pub kept :
      (name : Str) (old : Column)
      → get name (columns_by_name older) ≡ some old
      → (new : Column) × (get name (columns_by_name newer) ≡ some new) × SafeChange old new
  pub optional :
      (name : Str) (new : Column)
      → get name (columns_by_name older) ≡ none
      → get name (columns_by_name newer) ≡ some new
      → (new.nullable || new.defaulted) ≡ true
  pub later : older.schema_version < newer.schema_version

pub append-nil_iff : {A : Type 0} (xs ys : List A) → ((xs ++ ys) ≡ []) ↔ ((xs ≡ []) × (ys ≡ []))
append-nil_iff [] ys = (λ h. (refl, h), λ h. h.1)
append-nil_iff (x ∷ xs) ys = (λ h. absurd (ground arith), λ h. absurd (ground (arith, h.0)))

for_each-nil :
    (f : Str → List Violation) (xs : List Str)
    → for_each f xs ≡ []
    → (x : Str) → contains x xs ≡ true
    → f x ≡ []
unfolding for_each contains
for_each-nil f [] h x m = cc
for_each-nil f (y ∷ xs) h x m =
    let (here, rest) = (append-nil_iff (f y) (for_each f xs)).0 h in
    elim (Bool-cases (y == x)) [
      | inl same ↦ cc ((==_iff y x).0 same, here)
      | inr other ↦ for_each-nil f xs rest x (ground arith)
    ]

nil-for_each :
    (f : Str → List Violation) (xs : List Str)
    → ((x : Str) → contains x xs ≡ true → f x ≡ [])
    → for_each f xs ≡ []
unfolding for_each contains
nil-for_each f [] h = refl
nil-for_each f (y ∷ xs) h =
    (append-nil_iff (f y) (for_each f xs)).1
      (h y (ground (arith, ==_iff y y)), nil-for_each f xs (λ x m. h x (ground arith)))

contains-keys :
    (k : Str) (d : Dict Str Column)
    → contains k (keys d) ≡ (elim (get k d) as (λ _. Bool) [ none ↦ false | some _ ↦ true ])
unfolding contains get
contains-keys k [] = refl
contains-keys k ((j, c) ∷ d) = ground (arith, contains-keys k d)

contains-keep :
    (x : Str) (p : Str → Bool) (xs : List Str) → contains x (keep p xs) ≡ (p x && contains x xs)
unfolding contains keep
contains-keep x p [] = ground arith
contains-keep x p (y ∷ xs) = ground (arith, contains-keep x p xs, ==_iff y x, ap p)

contains-keys_minus :
    (k : Str) (a b : Dict Str Column)
    → contains k (keys_minus a b) ≡ (not (contains k (keys b)) && contains k (keys a))
unfolding keys_minus
contains-keys_minus k a b =
    contains-sorted str_leb k (keep (λ j. not (contains j (keys b))) (keys a))
    ∙ contains-keep k (λ j. not (contains j (keys b))) (keys a)

contains-keys_both :
    (k : Str) (a b : Dict Str Column)
    → contains k (keys_both a b) ≡ (contains k (keys b) && contains k (keys a))
unfolding keys_both
contains-keys_both k a b =
    contains-sorted str_leb k (keep (λ j. contains j (keys b)) (keys a))
    ∙ contains-keep k (λ j. contains j (keys b)) (keys a)

changed-nil_iff :
    (table name : Str) (old new : Column) → (changed table name old new ≡ []) ↔ SafeChange old new
unfolding changed
changed-nil_iff table name old new = (
  λ h. record {
    type = ground (
      arith,
      ==_iff old.type new.type,
      ==_iff old.type (lit "integer"),
      ==_iff new.type (lit "bigint"),
    );
    nullable = λ n. ground arith;
  },
  λ s. ground (
    arith,
    s.type,
    s.nullable,
    ==_iff old.type new.type,
    ==_iff old.type (lit "integer"),
    ==_iff new.type (lit "bigint"),
  ),
)

has_key :
    (k : Str) (d : Dict Str Column) {c : Column} → get k d ≡ some c → contains k (keys d) ≡ true
has_key k d h = rw (contains-keys k d, h)

has_no_key : (k : Str) (d : Dict Str Column) → get k d ≡ none → contains k (keys d) ≡ false
has_no_key k d h = rw (contains-keys k d, h)

check_changed-nil_iff :
    (table name : Str) (before after : Dict Str Column) (old new : Column)
    → get name before ≡ some old
    → get name after ≡ some new
    → (check_changed table before after name ≡ []) ↔ SafeChange old new
unfolding check_changed
check_changed-nil_iff table name before after old new h k =
    rw (h, check_changed) (rw k (changed-nil_iff table name old new))

check_introduced-nil_iff :
    (table name : Str) (after : Dict Str Column) (new : Column)
    → get name after ≡ some new
    → (check_introduced table after name ≡ []) ↔ ((new.nullable || new.defaulted) ≡ true)
unfolding check_introduced
check_introduced-nil_iff table name after new h = (λ e. ground arith, λ e. ground arith)

module _ (older newer : Artifact) where
  drops : Str → List Violation
  drops name = record { table = newer.table; rule = column_dropped name } ∷ []

  check_lineage-parts :
      (check_lineage older newer ≡ [])
      → (for_each drops (keys_minus (columns_by_name older) (columns_by_name newer)) ≡ [])
        × (for_each
              (check_changed newer.table (columns_by_name older) (columns_by_name newer))
              (keys_both (columns_by_name older) (columns_by_name newer))
            ≡ [])
        × (for_each
              (check_introduced newer.table (columns_by_name newer))
              (keys_minus (columns_by_name newer) (columns_by_name older))
            ≡ [])
        × (check_version older newer ≡ [])
  unfolding check_lineage drops
  check_lineage-parts h =
      let (a, bcd) = (append-nil_iff _ _).0 h in
      let (b, cd) = (append-nil_iff _ _).0 bcd in
      let (c, d) = (append-nil_iff _ _).0 cd in (a, b, c, d)

  check_lineage-IsAdditive : check_lineage older newer ≡ [] → IsAdditive older newer
  unfolding drops check_version
  check_lineage-IsAdditive h =
      let (no_drop, no_change, no_new, version) = check_lineage-parts h in
      record {
        kept = λ name old was. elim (Option-cases (get name after)) [
          | inl gone ↦ absurd (
              ground (
                arith,
                for_each-nil drops (keys_minus before after) no_drop name (
                    rw (
                      contains-keys_minus name before after,
                      has_key name before was,
                      has_no_key name after gone,
                    )),
              ))
          | inr (new, is) ↦ (
            new,
            is,
            (check_changed-nil_iff newer.table name before after old new was is).0 (
                for_each-nil (check_changed newer.table before after) (keys_both before after)
                  no_change name
                  (rw (
                    contains-keys_both name before after,
                    has_key name before was,
                    has_key name after is,
                  ))),
          )
        ];
        optional = λ name new was is. (check_introduced-nil_iff newer.table name after new is).0 (
            for_each-nil (check_introduced newer.table after) (keys_minus after before) no_new name
              (rw (
                contains-keys_minus name after before,
                has_no_key name before was,
                has_key name after is,
              )));
        later = ground arith;
      }
    where
      before : Dict Str Column
      before = columns_by_name older

      after : Dict Str Column
      after = columns_by_name newer

  IsAdditive-check_lineage : IsAdditive older newer → check_lineage older newer ≡ []
  unfolding check_lineage check_version drops
  IsAdditive-check_lineage s = (append-nil_iff _ _).1 (
    nil-for_each drops (keys_minus before after) no_drop,
    (append-nil_iff _ _).1 (
      nil-for_each (check_changed newer.table before after) (keys_both before after) no_change,
      (append-nil_iff _ _).1 (
        nil-for_each (check_introduced newer.table after) (keys_minus after before) no_new,
        ground (arith, s.later),
      ),
    ),
  )
    where
      before : Dict Str Column
      before = columns_by_name older

      after : Dict Str Column
      after = columns_by_name newer

      no_drop : (x : Str) → contains x (keys_minus before after) ≡ true → drops x ≡ []
      no_drop x m = elim (Option-cases (get x before)) [
        | inl e ↦ absurd (ground (arith, contains-keys_minus x before after, has_no_key x before e))
        | inr (old, e) ↦
            let (new, f, _) = s.kept x old e in
            absurd (ground (arith, contains-keys_minus x before after, has_key x after f))
      ]

      no_change :
          (x : Str)
          → contains x (keys_both before after) ≡ true
          → check_changed newer.table before after x ≡ []
      no_change x m = elim (Option-cases (get x before)) [
        | inl e ↦ absurd (ground (arith, contains-keys_both x before after, has_no_key x before e))
        | inr (old, e) ↦
            let (new, f, safe) = s.kept x old e in
            (check_changed-nil_iff newer.table x before after old new e f).1 safe
      ]

      no_new :
          (x : Str)
          → contains x (keys_minus after before) ≡ true
          → check_introduced newer.table after x ≡ []
      no_new x m = elim (Option-cases (get x after)) [
        | inl e ↦ absurd (ground (arith, contains-keys_minus x after before, has_no_key x after e))
        | inr (new, f) ↦ elim (Option-cases (get x before)) [
          | inl e ↦ (check_introduced-nil_iff newer.table x after new f).1 (s.optional x new e f)
          | inr (old, e) ↦
              absurd (ground (arith, contains-keys_minus x after before, has_key x before e))
        ]
      ]

-- The check of two versions finds nothing exactly when every column is kept with a type that is
-- the same or widened from integer to bigint and stays nullable if it was, every new column is
-- nullable or has a default, and the version number rises.
pub check_lineage_iff :
    (older newer : Artifact) → (check_lineage older newer ≡ []) ↔ IsAdditive older newer
check_lineage_iff older newer =
    (check_lineage-IsAdditive older newer, IsAdditive-check_lineage older newer)
