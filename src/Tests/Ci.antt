-- ===== src/Tests/Ci.antt =====
-- affected_members.py and additive_only.py: a small workspace, and three versions of a table.
use tqtk_price_streaming.Ci.Additive.{check_introduced}
use tqtk_price_streaming.Prelude.{
  Bool, length, ℕ, ◌≡◌, ◌↔◌, refl, true, false, List, [], ◌∷◌, keep, list_beq, if◌then◌else◌,
}
use tqtk_price_streaming.Prelude.Text.{Str, lit, str_eq, split}
use tqtk_price_streaming.Prelude.Dict.{get, put}
use tqtk_price_streaming.Prelude.Sorting.{contains, sorted}
use tqtk_price_streaming.Ci.Affected.{
  add, owner_of_parts, stripped, collect, Member, member_eq, member_beq, by_path_from, falls_under,
  owning_member, judge, judge_path, affected_members,
}
use tqtk_price_streaming.Ci.Affected.Selection.{touches_all, wanted, affected_members_iff}
use tqtk_price_streaming.Ci.Additive.{
  Column, keys_both, columns_by_name, keys_minus, for_each, Artifact, check_lineage, check_versions,
  check_changed,
}
use tqtk_price_streaming.Ci.Additive.Sound.{IsAdditive, check_lineage_iff}
use tqtk_price_streaming.Ci.Additive.Chains.{
  KeptBy, check_versions-KeptBy, FillsNew, check_lineage-skipped_iff,
}

abbrev common : Member
common = record { name = lit "tqtk-common"; path = lit "libs/tqtk-common"; kind = lit "lib" }

abbrev feed : Member
feed = record { name = lit "feed"; path = lit "services/feed"; kind = lit "service" }

abbrev members : List Member
members = common ∷ feed ∷ []

abbrev paths : List Str
paths = lit "docs/adr.md" ∷ lit "services/feed/main.py" ∷ []

affected_members_iff_example : contains feed (affected_members paths members) ≡ (
    if touches_all (by_path_from [] members) paths
    then contains feed members
    else wanted members (by_path_from [] members) feed paths)
affected_members_iff_example = affected_members_iff paths members feed

only_feed : affected_members paths members ≡ feed ∷ []
unfolding affected_members collect judge judge_path list_beq stripped falls_under owning_member
    owner_of_parts split by_path_from sorted add
only_feed = refl

feed_selected : contains feed (affected_members paths members) ≡ true
unfolding affected_members contains collect judge judge_path list_beq stripped falls_under
    owning_member owner_of_parts split by_path_from sorted add member_beq
feed_selected = refl

abbrev bars : ℕ → Str → Artifact
bars version type = record {
  table = lit "bars";
  schema_version = version;
  columns =
      record { name = lit "tick_count"; type = type; nullable = false; defaulted = false } ∷ [];
}

widened : check_versions (bars 1 (lit "integer") ∷ bars 2 (lit "bigint") ∷ []) ≡ []
unfolding check_versions check_lineage for_each keys_minus sorted keep columns_by_name put contains
    list_beq keys_both check_changed get
widened = refl

check_lineage_iff_example :
    (check_lineage (bars 1 (lit "integer")) (bars 2 (lit "bigint")) ≡ [])
    ↔ IsAdditive (bars 1 (lit "integer")) (bars 2 (lit "bigint"))
check_lineage_iff_example = check_lineage_iff (bars 1 (lit "integer")) (bars 2 (lit "bigint"))

check_versions-KeptBy_example : KeptBy (bars 1 (lit "integer")) (bars 2 (lit "bigint") ∷ [])
check_versions-KeptBy_example =
    check_versions-KeptBy (bars 1 (lit "integer")) (bars 2 (lit "bigint") ∷ []) widened

-- Versions of one table: without the column, with it and a default, and without the default.
abbrev version : ℕ → List Column → Artifact
version n columns = record { table = lit "bars"; schema_version = n; columns = columns }

abbrev spread : Bool → Column
spread defaulted = record {
  name = lit "spread";
  type = lit "bigint";
  nullable = false;
  defaulted = defaulted;
}

chain_passes :
    check_versions
      (version 1 [] ∷ version 2 (spread true ∷ []) ∷ version 3 (spread false ∷ []) ∷ [])
    ≡ []
unfolding check_versions check_lineage for_each keys_minus sorted keep columns_by_name keys_both put
    contains check_introduced get list_beq check_changed
chain_passes = refl

check_lineage-skipped_iff_example :
    (check_lineage (version 1 []) (version 3 (spread false ∷ [])) ≡ [])
    ↔ FillsNew (version 1 []) (version 3 (spread false ∷ []))
check_lineage-skipped_iff_example =
    check_lineage-skipped_iff (version 1 []) (version 2 (spread true ∷ []))
      (version 3 (spread false ∷ [])) chain_passes

-- A writer of the first version may leave the column out, and the third has no default for it.
skipped : length (check_lineage (version 1 []) (version 3 (spread false ∷ []))) ≡ 1
unfolding check_lineage for_each keys_minus sorted keep columns_by_name keys_both put contains
    check_introduced get list_beq
skipped = refl
