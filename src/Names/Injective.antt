-- ===== src/Names/Injective.antt =====
-- names.py: which parts give which name.
use tqtk_price_streaming.Prelude.{
  Result, ◌≡◌, ◌≢◌, inl, inr, Option-cases, refl, true, some, ◌∷◌, ◌++◌, ok, arith,
}
use tqtk_price_streaming.Prelude.Text.{Str}
use tqtk_price_streaming.Records.Timeframe.{Timeframe, value, timeframe_of, value-timeframe_of}
use tqtk_price_streaming.Names.{
  NameError, provider_char, symbol_char, matches_provider, matches_symbol, tick_name, bar_name,
  bar_state_name, tick_stream, bar_stream, bar_state_key,
}
use tqtk_price_streaming.Prelude.Parts.{IsFree, split_free}
use tqtk_price_streaming.Names.Separators.{provider-IsFree, symbol-IsFree, value-IsFree_dot}

provider-IsFree_dot : (p : Str) → matches_provider p ≡ true → IsFree b'.' p
unfolding provider_char
provider-IsFree_dot p = provider-IsFree b'.' refl p

provider-IsFree_colon : (p : Str) → matches_provider p ≡ true → IsFree b':' p
unfolding provider_char
provider-IsFree_colon p = provider-IsFree b':' refl p

symbol-IsFree_colon : (s : Str) → matches_symbol s ≡ true → IsFree b':' s
unfolding symbol_char
symbol-IsFree_colon s = symbol-IsFree b':' refl s

-- What a built name says of its parts.
tick_stream-ok :
    (p s : Str) {name : Str}
    → tick_stream p s ≡ ok name
    → (name ≡ tick_name p s) × (matches_provider p ≡ true) × (matches_symbol s ≡ true)
unfolding tick_stream
tick_stream-ok p s h = ground arith

-- Two pairs of a provider and a symbol that give the same tick stream are the same pair.
tick_stream-injective :
    (p s q t : Str) {name : Str}
    → tick_stream p s ≡ ok name
    → tick_stream q t ≡ ok name
    → (p ≡ q) × (s ≡ t)
tick_stream-injective p s q t h k =
    let (e, fp, fs) = tick_stream-ok p s h in
    let (f, fq, ft) = tick_stream-ok q t k in
    split_free b'.' p q s t (provider-IsFree_dot p fp) (provider-IsFree_dot q fq) (cc (e, f))

bar_stream-ok :
    (p s text : Str) {name : Str}
    → bar_stream p s text ≡ ok name
    → (t : Timeframe) × (timeframe_of text ≡ some t)
      × (name ≡ bar_name t p s)
      × (matches_provider p ≡ true)
      × (matches_symbol s ≡ true)
unfolding bar_stream
bar_stream-ok p s text h = elim (Option-cases (timeframe_of text)) [
  | inl e ↦ absurd (ground arith)
  | inr (t, e) ↦ (t, e, ground arith, ground arith, ground arith)
]

-- Two triples of a provider, a symbol and a timeframe that give the same bar stream are the
-- same triple.
bar_stream-injective :
    (p s f q t g : Str) {name : Str}
    → bar_stream p s f ≡ ok name
    → bar_stream q t g ≡ ok name
    → (p ≡ q) × (s ≡ t) × (f ≡ g)
bar_stream-injective p s f q t g h k =
    let (m, read, e, fp, fs) = bar_stream-ok p s f h in
    let (n, read', e', fq, ft) = bar_stream-ok q t g k in
    let (values, rest) =
      split_free b'.' (value m) (value n) (p ++ (b'.' ∷ s)) (q ++ (b'.' ∷ t)) (value-IsFree_dot m)
        (value-IsFree_dot n) (cc (e, e')) in
    let (providers, symbols) =
      split_free b'.' p q s t (provider-IsFree_dot p fp) (provider-IsFree_dot q fq) rest in
    (providers, symbols, cc (values, value-timeframe_of f read, value-timeframe_of g read'))

bar_state_key-ok :
    (p s text : Str) {name : Str}
    → bar_state_key p s text ≡ ok name
    → (t : Timeframe) × (timeframe_of text ≡ some t)
      × (name ≡ bar_state_name p s t)
      × (matches_provider p ≡ true)
      × (matches_symbol s ≡ true)
unfolding bar_state_key
bar_state_key-ok p s text h = elim (Option-cases (timeframe_of text)) [
  | inl e ↦ absurd (ground arith)
  | inr (t, e) ↦ (t, e, ground arith, ground arith, ground arith)
]

-- Two triples of a provider, a symbol and a timeframe that give the same state key are the same
-- triple.
bar_state_key-injective :
    (p s f q t g : Str) {name : Str}
    → bar_state_key p s f ≡ ok name
    → bar_state_key q t g ≡ ok name
    → (p ≡ q) × (s ≡ t) × (f ≡ g)
bar_state_key-injective p s f q t g h k =
    let (m, read, e, fp, fs) = bar_state_key-ok p s f h in
    let (n, read', e', fq, ft) = bar_state_key-ok q t g k in
    let (providers, rest) =
      split_free b':' p q (s ++ (b':' ∷ value m)) (t ++ (b':' ∷ value n))
        (provider-IsFree_colon p fp) (provider-IsFree_colon q fq) (cc (e, e')) in
    let (symbols, values) =
      split_free b':' s t (value m) (value n) (symbol-IsFree_colon s fs) (symbol-IsFree_colon t ft)
        rest in
    (providers, symbols, cc (values, value-timeframe_of f read, value-timeframe_of g read'))

-- A tick stream, a bar stream and a state key that can be built are never the same name.
names_disjoint :
    (p s q t f r u g : Str) {tick bar state : Str}
    → tick_stream p s ≡ ok tick
    → bar_stream q t f ≡ ok bar
    → bar_state_key r u g ≡ ok state
    → (tick ≢ bar) × (tick ≢ state) × (bar ≢ state)
names_disjoint p s q t f r u g h k l =
    let (e, _, _) = tick_stream-ok p s h in
    let (m, _, e', _, _) = bar_stream-ok q t f k in
    let (n, _, e'', _, _) = bar_state_key-ok r u g l in
    (λ c. absurd (ground arith), λ c. absurd (ground arith), λ c. absurd (ground arith))

-- The three names that are built of a provider, a symbol and, for bars, a timeframe.
pub data Kind : Type 0 where
  of_tick of_bar of_state : Kind

abbrev pub built : Kind → Str → Str → Str → Result NameError Str
built of_tick provider symbol timeframe = tick_stream provider symbol
built of_bar provider symbol timeframe = bar_stream provider symbol timeframe
built of_state provider symbol timeframe = bar_state_key provider symbol timeframe

-- The parts that a name of a kind tells.
abbrev pub SameParts : Kind → Str × Str × Str → Str × Str × Str → Type 0
SameParts of_tick (p, s, f) (q, t, g) = (p ≡ q) × (s ≡ t)
SameParts of_bar (p, s, f) (q, t, g) = (p ≡ q) × (s ≡ t) × (f ≡ g)
SameParts of_state (p, s, f) (q, t, g) = (p ≡ q) × (s ≡ t) × (f ≡ g)

-- Two tick streams, two bar streams or two state keys that are the same name are built of the
-- same provider and symbol and, for the latter two, the same timeframe.
pub built-injective :
    (kind : Kind) (p s f q t g : Str) {name : Str}
    → built kind p s f ≡ ok name
    → built kind q t g ≡ ok name
    → SameParts kind (p, s, f) (q, t, g)
built-injective of_tick p s f q t g h k = tick_stream-injective p s q t h k
built-injective of_bar p s f q t g h k = bar_stream-injective p s f q t g h k
built-injective of_state p s f q t g h k = bar_state_key-injective p s f q t g h k
