-- ===== src/Ci/Released/Prose.antt =====
-- additive_only.py: the edits of a released version that leave its schema alone.
use tqtk_price_streaming.Prelude.{◌≡◌, refl, ap, sym, ◌∙◌, true, Bool-cases, list_beq, inl, inr}
use tqtk_price_streaming.Prelude.Text.{Str}
use tqtk_price_streaming.Ci.Released.{
  Json, Items, Fields, array, object, nil, item, end, field, is_prose, strip_prose, strip_items,
  strip_fields,
}

-- The second value is the first with prose fields added or removed at any depth.
mutual
  pub data Rewords : Json → Json → Type 0 where
    same : {j : Json} → Rewords j j
    in_array : {xs ys : Items} → RewordsItems xs ys → Rewords (array xs) (array ys)
    in_object : {xs ys : Fields} → RewordsFields xs ys → Rewords (object xs) (object ys)

  pub data RewordsItems : Items → Items → Type 0 where
    all_items : RewordsItems nil nil
    next_item :
        {x y : Json} {xs ys : Items}
        → Rewords x y
        → RewordsItems xs ys
        → RewordsItems (item x xs) (item y ys)

  pub data RewordsFields : Fields → Fields → Type 0 where
    all_fields : RewordsFields end end
    removed :
        {key : Str} {x : Json} {xs ys : Fields}
        → is_prose key ≡ true
        → RewordsFields xs ys
        → RewordsFields (field key x xs) ys
    added :
        {key : Str} {y : Json} {xs ys : Fields}
        → is_prose key ≡ true
        → RewordsFields xs ys
        → RewordsFields xs (field key y ys)
    kept :
        {key : Str} {x y : Json} {xs ys : Fields}
        → Rewords x y
        → RewordsFields xs ys
        → RewordsFields (field key x xs) (field key y ys)

strip_fields-prose :
    (key : Str) (x : Json) (xs : Fields)
    → is_prose key ≡ true
    → strip_fields (field key x xs) ≡ strip_fields xs
unfolding strip_fields is_prose list_beq
strip_fields-prose key x xs h = rw h refl

strip_fields-kept :
    (key : Str) (x y : Json) (xs ys : Fields)
    → strip_prose x ≡ strip_prose y
    → strip_fields xs ≡ strip_fields ys
    → strip_fields (field key x xs) ≡ strip_fields (field key y ys)
unfolding strip_fields is_prose list_beq
strip_fields-kept key x y xs ys h k = elim (Bool-cases (is_prose key)) [
  | inl prose ↦ rw (prose, strip_fields) k
  | inr schema ↦ rw (schema, strip_fields) (cc (h, k))
]

mutual
  unfolding strip_prose

  Rewords-strip : {a b : Json} → Rewords a b → strip_prose a ≡ strip_prose b
  Rewords-strip same = refl
  Rewords-strip (in_array r) = ap array (RewordsItems-strip r)
  Rewords-strip (in_object r) = ap object (RewordsFields-strip r)

  RewordsItems-strip : {a b : Items} → RewordsItems a b → strip_items a ≡ strip_items b
  RewordsItems-strip all_items = refl
  RewordsItems-strip (next_item r rest) = cc (Rewords-strip r, RewordsItems-strip rest)

  RewordsFields-strip : {a b : Fields} → RewordsFields a b → strip_fields a ≡ strip_fields b
  RewordsFields-strip all_fields = refl
  RewordsFields-strip (removed {key = key} {x = x} {xs = xs} prose rest) =
      strip_fields-prose key x xs prose ∙ RewordsFields-strip rest
  RewordsFields-strip (added {key = key} {y = y} {ys = ys} prose rest) =
      RewordsFields-strip rest ∙ sym (strip_fields-prose key y ys prose)
  RewordsFields-strip (kept {key = key} {x = x} {y = y} {xs = xs} {ys = ys} r rest) =
      strip_fields-kept key x y xs ys (Rewords-strip r) (RewordsFields-strip rest)

-- Two artifacts of which one is the other with prose fields added or removed, at whatever
-- depth, are equal once their prose is stripped.
strip_prose-Rewords : (a b : Json) → Rewords a b → strip_prose a ≡ strip_prose b
strip_prose-Rewords a b r = Rewords-strip r
