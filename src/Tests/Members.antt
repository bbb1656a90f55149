-- ===== src/Tests/Members.antt =====
-- affected_members.py: a tree with one library and one service.
use tqtk_price_streaming.Prelude.TextOrder.{lex}
use tqtk_price_streaming.Prelude.{
  ◌≡◌, refl, some, true, false, inr, List, [], ◌∷◌, all, list_beq, ◌==◌, if◌then◌else◌,
}
use tqtk_price_streaming.Prelude.Text.{str_leb, Str, lit, str_eq}
use tqtk_price_streaming.Prelude.Parts.{all-IsFree}
use tqtk_price_streaming.Prelude.Dict.{get}
use tqtk_price_streaming.Prelude.Sorting.{contains, sorted}
use tqtk_price_streaming.Ci.Affected.{
  member_beq, member_leb, Member, Tree, member_eq, member_roots, discover_members, stripped,
  affected_members,
}
use tqtk_price_streaming.Ci.Affected.Discovery.{IsTree}
use tqtk_price_streaming.Ci.Affected.Ownership.{affected_members_below}

abbrev tree : Tree
tree root =
    if root == lit "libs"
    then (lit "common", true) ∷ (lit "notes", false) ∷ []
    else if root == lit "services"
    then (lit "feed", true) ∷ []
    else []

abbrev feed : Member
feed = record { name = lit "feed"; path = lit "services/feed"; kind = lit "service" }

abbrev changed : List Str
changed = lit "docs/adr.md" ∷ lit "libs/common/src/server.py" ∷ []

tree-IsTree : IsTree tree
unfolding all list_beq
tree-IsTree = (
  (all-IsFree b'/' (lit "common") refl, (all-IsFree b'/' (lit "notes") refl, tt)),
  (all-IsFree b'/' (lit "feed") refl, tt),
)

libs_known : get (lit "libs") member_roots ≡ some (lit "lib")
unfolding get list_beq
libs_known = refl

common_here : tree (lit "libs") ≡ (lit "common", true) ∷ (lit "notes", false) ∷ []
unfolding list_beq
common_here = refl

change_listed : contains (lit "libs/common/src/server.py") changed ≡ true
unfolding contains list_beq
change_listed = refl

as_printed : stripped (lit "libs/common/src/server.py") ≡ lit "libs/common/src/server.py"
unfolding stripped
as_printed = refl

feed_found : contains feed (discover_members tree) ≡ true
unfolding discover_members contains sorted list_beq member_leb lex str_leb member_beq
feed_found = refl

affected_members_below_example :
    contains feed (affected_members changed (discover_members tree)) ≡ true
unfolding list_beq
affected_members_below_example =
    affected_members_below tree (lit "libs") (lit "lib") (lit "common") []
      ((lit "notes", false) ∷ []) (lit "libs/common/src/server.py") (lit "src/server.py") changed
      feed tree-IsTree libs_known common_here change_listed as_printed
      (inr (refl, refl, feed_found))
