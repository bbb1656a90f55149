-- ===== src/Ci/Additive/Chains.antt =====
-- additive_only.py: the versions of one table, each checked against the one before it.
use tqtk_price_streaming.Prelude.{◌<◌, ◌≡◌, ◌↔◌, ◌||◌, true, none, some, List, [], ◌∷◌, arith}
use tqtk_price_streaming.Prelude.Text.{Str, str_eq}
use tqtk_price_streaming.Prelude.Dict.{get}
use tqtk_price_streaming.Ci.Additive.{
  Column, Artifact, columns_by_name, check_lineage, check_versions,
}
use tqtk_price_streaming.Ci.Additive.Sound.{SafeChange, append-nil_iff, check_lineage_iff}

SafeChange-trans : (a b c : Column) → SafeChange a b → SafeChange b c → SafeChange a c
SafeChange-trans a b c s t = record {
  type = ground (arith, s.type, t.type);
  nullable = λ n. t.nullable (s.nullable n);
}

-- The columns of the one stand in the other, and none is narrowed.
abbrev pub Keeps : Artifact → Artifact → Type 0
Keeps a b =
    (name : Str) (old : Column)
    → get name (columns_by_name a) ≡ some old
    → (new : Column) × (get name (columns_by_name b) ≡ some new) × SafeChange old new

Keeps-trans : (a b c : Artifact) → Keeps a b → Keeps b c → Keeps a c
Keeps-trans a b c f g name old h =
    let (mid, there, s) = f name old h in
    let (new, last, t) = g name mid there in (new, last, SafeChange-trans old mid new s t)

-- Of all versions after the first.
abbrev pub KeptBy : Artifact → List Artifact → Type 0
KeptBy a [] = Unit
KeptBy a (b ∷ rest) = Keeps a b × (a.schema_version < b.schema_version) × KeptBy a rest

KeptBy-step :
    (a b : Artifact) (rest : List Artifact)
    → Keeps a b
    → a.schema_version < b.schema_version
    → KeptBy b rest
    → KeptBy a rest
KeptBy-step a b [] f lt k = tt
KeptBy-step a b (c ∷ rest) f lt k =
    (Keeps-trans a b c f k.0, omega (arith, k.1), KeptBy-step a b rest f lt k.2)

-- If the check of a table's versions finds nothing, every later version keeps the columns of
-- the first, none narrowed or made NOT NULL, and has a higher number, however many versions lie
-- between.
pub check_versions-KeptBy :
    (a : Artifact) (rest : List Artifact) → check_versions (a ∷ rest) ≡ [] → KeptBy a rest
unfolding check_versions
check_versions-KeptBy a [] h = tt
check_versions-KeptBy a (b ∷ rest) h =
    let (here, there) = (append-nil_iff (check_lineage a b) (check_versions (b ∷ rest))).0 h in
    let s = (check_lineage_iff a b).0 here in
    (s.kept, s.later, KeptBy-step a b rest s.kept s.later (check_versions-KeptBy b rest there))

-- The columns that are new may be left out by a writer of the one.
abbrev pub FillsNew : Artifact → Artifact → Type 0
FillsNew a c =
    (name : Str) (new : Column)
    → get name (columns_by_name a) ≡ none
    → get name (columns_by_name c) ≡ some new
    → (new.nullable || new.defaulted) ≡ true

-- If three versions pass the check of a table's versions, the third passes against the first
-- exactly when each column that the first lacks may be null or has a default in the third:
-- nothing else is lost by comparing neighbours only.
pub check_lineage-skipped_iff :
    (a b c : Artifact)
    → check_versions (a ∷ b ∷ c ∷ []) ≡ []
    → (check_lineage a c ≡ []) ↔ FillsNew a c
unfolding check_versions
check_lineage-skipped_iff a b c h =
    let (first, rest) = (append-nil_iff (check_lineage a b) _).0 h in
    let (second, _) = (append-nil_iff (check_lineage b c) []).0 rest in
    let s = (check_lineage_iff a b).0 first in
    let t = (check_lineage_iff b c).0 second in
    (
      λ clean. ((check_lineage_iff a c).0 clean).optional,
      λ fills. (check_lineage_iff a c).1 (record {
        kept = Keeps-trans a b c s.kept t.kept;
        optional = fills;
        later = omega (arith, s.later, t.later);
      }),
    )
