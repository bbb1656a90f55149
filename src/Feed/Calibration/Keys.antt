-- ===== src/Feed/Calibration/Keys.antt =====
-- calibration_store.py: which symbols the result of `load` has, and in which order.
use tqtk_price_streaming.Prelude.{
  ◌≡◌, ◌≢◌, refl, sym, subst, ap, ◌∙◌, false, not, ◌||◌, none, List, [], ◌∷◌, ◌++◌, All, map, keep,
  ok, >>=-eq-ok, Option-cases, Bool-cases, inl, inr, ◌==◌, ==_iff, arith,
}
use mathlib.Core.List.{append-nil, append_assoc}
use tqtk_price_streaming.Prelude.Text.{Str, lit, str_eq, str_leb}
use tqtk_price_streaming.Prelude.Dict.{Dict, get, put, keys, get-put}
use tqtk_price_streaming.Prelude.Sorting.{AllDistinct, contains, sorted, insert}
use tqtk_price_streaming.Records.Floats.{Floats}
use tqtk_price_streaming.Feed.Generator.{Conversion, SymbolCalibration}
use tqtk_price_streaming.Feed.Calibration.{Parsing, Replies, decode_hash, nonempty, no_symbology}
use tqtk_price_streaming.Feed.Calibration.Parse.{parse_instrument}
use tqtk_price_streaming.Feed.Calibration.Load.{
  Venue, Heads, symbols_key, quantities_key, symbology_key, quantities, check_quantities, texts_of,
  check_seeded, remember, map_venues, discover, read_head, read_heads, read_calibration,
  read_calibrations, collected, by_symbol, load,
}

abbrev pub venues_of : List Venue → List Str
venues_of = map (λ v. v.0)

abbrev pub files_of : List Venue → List Str
files_of = map (λ v. v.1)

-- The file symbols that stand in a dictionary do not occur.
AllNew : Dict Str Str → List Str → Type 0
AllNew seen = All (λ f. get f seen ≡ none)

remember-ok :
    (venue file : Str) (seen : Dict Str Str) {seen' : Dict Str Str}
    → remember venue file (get file seen) seen ≡ ok seen'
    → (get file seen ≡ none) × (seen' ≡ put file venue seen)
unfolding remember
remember-ok venue file seen h = elim (Option-cases (get file seen)) [
  | inl new ↦ (new, ground arith)
  | inr (other, old) ↦ absurd (ground arith)
]

AllNew-put :
    (file venue : Str) (seen : Dict Str Str) (fs : List Str)
    → AllNew (put file venue seen) fs
    → AllNew seen fs × (contains file fs ≡ false)
unfolding AllNew contains
AllNew-put file venue seen [] h = (tt, refl)
AllNew-put file venue seen (f ∷ fs) h =
    let (new, apart) = AllNew-put file venue seen fs h.1 in
    (
      (ground (arith, h.0, get-put file f venue seen), new),
      ground (arith, h.0, get-put file f venue seen, apart, ==_iff file f, ==_iff f file),
    )

map_venues-ok :
    (symbology : Dict Str Str) (venues : List Str) (seen : Dict Str Str) {out : List Venue}
    → map_venues symbology venues seen ≡ ok out
    → (venues_of out ≡ venues) × AllDistinct (files_of out) × AllNew seen (files_of out)
unfolding map_venues AllNew
map_venues-ok symbology [] seen {out = []} h = (refl, tt, tt)
map_venues-ok symbology [] seen {out = v ∷ out} h = cc
map_venues-ok symbology (venue ∷ venues) seen {out = []} h = ground arith
map_venues-ok symbology (venue ∷ venues) seen {out = v ∷ out} h =
    let (file, _, h1) = >>=-eq-ok (nonempty (get venue symbology) (no_symbology venue)) _ h in
    let (seen', kept, h2) = >>=-eq-ok (remember venue file (get file seen) seen) _ h1 in
    let (rest, tails, h3) = >>=-eq-ok (map_venues symbology venues seen') _ h2 in
    let first : v ≡ (venue, file) = ground arith in
    let others : rest ≡ out = ground arith in
    let (new, entered) = remember-ok venue file seen kept in
    let (same, distinct, fresh) = map_venues-ok symbology venues seen' (tails ∙ ap ok others) in
    let (older, apart) =
      AllNew-put file venue seen (files_of out)
        (subst (λ d. AllNew d (files_of out)) entered fresh) in
    (cc (first, same), (cc (first, apart), distinct), (cc (first, new), older))

check_seeded-nonempty :
    (symbols : List Str) {names : List Str} → check_seeded symbols ≡ ok names → names ≢ []
unfolding check_seeded
check_seeded-nonempty [] h k = absurd cc
check_seeded-nonempty (s ∷ symbols) h k = absurd cc

module _ (ps : Parsing) where
  discover-AllDistinct :
      (replies : Replies) {venues : List Venue}
      → discover ps replies ≡ ok venues
      → AllDistinct (files_of venues)
  unfolding discover
  discover-AllDistinct replies h =
      let (symbols, _, h1) = >>=-eq-ok (texts_of ps _ symbols_key) _ h in
      let (names, _, h2) = >>=-eq-ok (check_seeded (sorted str_leb symbols)) _ h1 in
      let (given, _, h3) = >>=-eq-ok (texts_of ps _ quantities_key) _ h2 in
      let (_, _, h4) =
        >>=-eq-ok (check_quantities (keep (λ q. not (contains q given)) quantities)) _ h3 in
      let (symbology, _, h5) = >>=-eq-ok (decode_hash ps _ symbology_key) _ h4 in
      (map_venues-ok symbology names [] h5).1

  -- `discover` returns at least one venue.
  pub discover-nonempty :
      (replies : Replies) {venues : List Venue} → discover ps replies ≡ ok venues → venues ≢ []
  unfolding discover check_seeded
  discover-nonempty replies {venues = venues} h none_left =
      let (symbols, _, h1) = >>=-eq-ok (texts_of ps _ symbols_key) _ h in
      let (names, seeded, h2) = >>=-eq-ok (check_seeded (sorted str_leb symbols)) _ h1 in
      let (given, _, h3) = >>=-eq-ok (texts_of ps _ quantities_key) _ h2 in
      let (_, _, h4) =
        >>=-eq-ok (check_quantities (keep (λ q. not (contains q given)) quantities)) _ h3 in
      let (symbology, _, h5) = >>=-eq-ok (decode_hash ps _ symbology_key) _ h4 in
      let named : venues_of venues ≡ names = (map_venues-ok symbology names [] h5).0 in
      check_seeded-nonempty (sorted str_leb symbols) seeded (sym named ∙ ap venues_of none_left)

  read_heads-venues :
      (replies : Replies) (venues : List Venue) {read : List (Venue × Heads)}
      → read_heads ps replies venues ≡ ok read
      → map (λ e. e.0) read ≡ venues
  unfolding read_heads
  read_heads-venues replies [] {read = []} h = refl
  read_heads-venues replies [] {read = e ∷ read} h = cc
  read_heads-venues replies (v ∷ venues) {read = []} h = ground arith
  read_heads-venues replies (v ∷ venues) {read = e ∷ read} h =
      let (i, _, h1) = >>=-eq-ok (parse_instrument ps v.0 _) _ h in
      let (a, _, h2) = >>=-eq-ok (read_head ps replies v.0 (lit "return")) _ h1 in
      let (b, _, h3) = >>=-eq-ok (read_head ps replies v.0 (lit "spread")) _ h2 in
      let (c, _, h4) = >>=-eq-ok (read_head ps replies v.0 (lit "interval")) _ h3 in
      let (rest, tails, h5) = >>=-eq-ok (read_heads ps replies venues) _ h4 in
      let first : e.0 ≡ v = ground arith in
      let others : rest ≡ read = ground arith in
      cc (first, read_heads-venues replies venues (tails ∙ ap ok others))

keys-put :
    {C : Type 0} (k : Str) (c : C) (d : Dict Str C)
    → contains k (keys d) ≡ false
    → keys (put k c d) ≡ keys d ++ k ∷ []
unfolding put contains
keys-put k c [] h = refl
keys-put k c ((j, b) ∷ d) h = ground (arith, keys-put k c d)

-- None of the names is a key.
AllAbsent : List Str → List Str → Type 0
AllAbsent ks = All (λ j. contains j ks ≡ false)

contains-snoc :
    (j k : Str) (ks : List Str) → contains j (ks ++ k ∷ []) ≡ (contains j ks || (k == j))
unfolding contains
contains-snoc j k [] = ground arith
contains-snoc j k (x ∷ ks) = ground (arith, contains-snoc j k ks)

AllAbsent-snoc :
    (k : Str) (ks js : List Str)
    → contains k js ≡ false
    → AllAbsent ks js
    → AllAbsent (ks ++ k ∷ []) js
unfolding AllAbsent contains
AllAbsent-snoc k ks [] apart h = tt
AllAbsent-snoc k ks (j ∷ js) apart h = (
  ground (arith, contains-snoc j k ks, ==_iff j k, ==_iff k j),
  AllAbsent-snoc k ks js (ground arith) h.1,
)

AllAbsent-nil : (js : List Str) → AllAbsent [] js
unfolding AllAbsent contains
AllAbsent-nil [] = tt
AllAbsent-nil (j ∷ js) = (refl, AllAbsent-nil js)

module _ (fl : Floats) (conv : Conversion fl) (ps : Parsing) where
  collected-keys :
      (d entries : Dict Str (SymbolCalibration fl.Float))
      → AllDistinct (keys entries)
      → AllAbsent (keys d) (keys entries)
      → keys (collected fl conv ps d entries) ≡ keys d ++ keys entries
  unfolding collected AllAbsent
  collected-keys d [] distinct absent = sym (append-nil (keys d))
  collected-keys d ((k, c) ∷ entries) distinct absent =
      let put_last = keys-put k c d absent.0 in
      let later =
        subst (λ ks. AllAbsent ks (keys entries)) (sym put_last)
          (AllAbsent-snoc k (keys d) (keys entries) distinct.0 absent.1) in
      collected-keys (put k c d) entries distinct.1 later
      ∙ ap (λ ks. ks ++ keys entries) put_last
      ∙ append_assoc (keys d) (k ∷ []) (keys entries)

  read_calibrations-keys :
      (replies : Replies) (read : List (Venue × Heads))
      {entries : Dict Str (SymbolCalibration fl.Float)}
      → read_calibrations fl conv ps replies read ≡ ok entries
      → keys entries ≡ files_of (map (λ e. e.0) read)
  unfolding read_calibrations
  read_calibrations-keys replies [] {entries = []} h = refl
  read_calibrations-keys replies [] {entries = x ∷ entries} h = cc
  read_calibrations-keys replies ((v, h) ∷ read) {entries = []} e = ground arith
  read_calibrations-keys replies ((v, h) ∷ read) {entries = x ∷ entries} e =
      let (c, _, e1) = >>=-eq-ok (read_calibration fl conv ps replies v.0 h) _ e in
      let (rest, tails, e2) = >>=-eq-ok (read_calibrations fl conv ps replies read) _ e1 in
      let first : x.0 ≡ v.1 = ground arith in
      let others : rest ≡ entries = ground arith in
      cc (first, read_calibrations-keys replies read (tails ∙ ap ok others))

  map-insert :
      (x : Str × SymbolCalibration fl.Float) (d : Dict Str (SymbolCalibration fl.Float))
      → keys (insert (by_symbol fl conv ps) x d) ≡ insert str_leb x.0 (keys d)
  unfolding insert
  map-insert x [] = refl
  map-insert x (y ∷ d) = elim (Bool-cases (str_leb x.0 y.0)) [
    | inl first ↦ rw (first, insert) refl
    | inr later ↦ rw (later, insert) (ap (◌∷◌ y.0) (map-insert x d))
  ]

  keys-sorted :
      (d : Dict Str (SymbolCalibration fl.Float))
      → keys (sorted (by_symbol fl conv ps) d) ≡ sorted str_leb (keys d)
  unfolding sorted
  keys-sorted [] = refl
  keys-sorted (x ∷ d) =
      map-insert x (sorted (by_symbol fl conv ps) d) ∙ ap (insert str_leb x.0) (keys-sorted d)

  -- If the discovery succeeds and `load` returns calibrations, the file symbols that the venues
  -- map to are distinct, and they are the keys of what is returned, in order.
  pub load-keys :
      (discovery heads params : Replies) {venues : List Venue}
      {loaded : Dict Str (SymbolCalibration fl.Float)}
      → discover ps discovery ≡ ok venues
      → load fl conv ps discovery heads params ≡ ok loaded
      → AllDistinct (files_of venues) × (keys loaded ≡ sorted str_leb (files_of venues))
  unfolding load
  load-keys discovery heads params {venues = venues} {loaded = loaded} found h =
      let (vs, seen, h1) = >>=-eq-ok (discover ps discovery) _ h in
      let (read, headed, h2) = >>=-eq-ok (read_heads ps heads vs) _ h1 in
      let (entries, made, h3) = >>=-eq-ok (read_calibrations fl conv ps params read) _ h2 in
      let same : vs ≡ venues = ground (arith, found, seen) in
      let distinct = discover-AllDistinct ps discovery found in
      let named : keys entries ≡ files_of venues =
        read_calibrations-keys params read made
        ∙ ap files_of (read_heads-venues ps heads vs headed ∙ same) in
      let whole : sorted (by_symbol fl conv ps) (collected fl conv ps [] entries) ≡ loaded =
        ground arith in
      (
        distinct,
        ap keys (sym whole)
            ∙ keys-sorted (collected fl conv ps [] entries)
            ∙ ap (sorted str_leb) (
                collected-keys [] entries (subst AllDistinct (sym named) distinct)
                  (AllAbsent-nil (keys entries))
                ∙ named),
      )
