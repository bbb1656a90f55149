-- ===== src/Tests/Released.antt =====
-- additive_only.py: a released version whose description was reworded.
use tqtk_price_streaming.Prelude.Dict.{get, put}
use tqtk_price_streaming.Ci.Additive.{check_versions}
use tqtk_price_streaming.Prelude.{
  keep, ◌≡◌, ◌≢◌, ◌↔◌, refl, true, Option, some, List, [], ◌∷◌, All, ok, list_beq,
}
use tqtk_price_streaming.Prelude.Text.{Str, lit, str_eq}
use tqtk_price_streaming.Prelude.Int.{pos}
use tqtk_price_streaming.Prelude.Sorting.{sorted, contains}
use tqtk_price_streaming.Ci.Released.{
  lineages_from, check_missing, check_edits, released_violations, Json, Fields, text, number,
  object, end, field, is_prose, strip_prose, equals, Contract, lineages, check_lineages, base, main,
}
use tqtk_price_streaming.Ci.Released.Exit.{AllUnedited, paths_of, main-zero_iff}
use tqtk_price_streaming.Ci.Released.Prose.{
  Rewords, same, in_object, removed, added, kept, all_fields,
}

abbrev schema : Fields
schema = field (lit "schema_version") (number (pos 1)) end

abbrev before : Json
before = object (field (lit "description") (text (lit "ticks")) schema)

abbrev after : Json
after = object (field (lit "description") (text (lit "raw ticks")) schema)

abbrev ticks : Json → Contract
ticks content = record {
  path = lit "ticks.v1.json";
  content = content;
  artifact = record { table = lit "ticks"; schema_version = 1; columns = [] };
}

abbrev at_main : Str → Option Contract
at_main _ = some (ticks before)

abbrev released : List Str
released = lit "ticks.v1.json" ∷ []

prose : is_prose (lit "description") ≡ true
unfolding is_prose list_beq
prose = refl

reworded : Rewords before after
reworded = in_object (removed prose (added prose (kept same all_fields)))

passes : main (ticks after ∷ []) (base (ok released) at_main) ≡ 0
unfolding main released_violations check_edits check_missing sorted keep contains list_beq
    check_lineages lineages lineages_from put check_versions get equals strip_prose is_prose
passes = refl

main-zero_iff_example : (main (ticks after ∷ []) (base (ok released) at_main) ≡ 0) ↔ (
    ((ticks after ∷ []) ≢ [])
    × (check_lineages (lineages (ticks after ∷ [])) ≡ [])
    × AllUnedited released at_main (ticks after ∷ [])
    × All (λ p. contains p (paths_of (ticks after ∷ [])) ≡ true) released)
main-zero_iff_example = main-zero_iff (ticks after ∷ []) released at_main
