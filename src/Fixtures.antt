-- ===== src/Fixtures.antt =====
-- Concrete instances of what the development leaves open, for the tests: floats that are natural
-- numbers, texts that hold them as code points, and a random generator that counts its draws.
use tqtk_price_streaming.Prelude.{
  ℕ, ◌+◌, ◌*◌, ◌-◌, ◌≡◌, refl, Bool, true, false, ◌||◌, Option, none, some, List, [], ◌∷◌, ◌++◌,
  ◌==◌, map, ltb, leb, arith, if◌then◌else◌,
}
use tqtk_price_streaming.Prelude.Text.{Str, lit, str_eq}
use tqtk_price_streaming.Prelude.Dict.{Dict, get}
use tqtk_price_streaming.Prelude.Int.{ℤ, pos, negsuc}
use tqtk_price_streaming.Records.Floats.{Floats}
use tqtk_price_streaming.Records.Wire.{Coercion}
use tqtk_price_streaming.Feed.Distributions.{Random, Distribution}
use tqtk_price_streaming.Feed.Generator.{Conversion, SymbolCalibration}
use tqtk_price_streaming.Feed.Concurrent.{Hashing}
use tqtk_price_streaming.Feed.Calibration.{Raw, text, Number, finite, Parsing, Replies}

pub lt_trans : (a b c : ℕ) → ltb a b ≡ true → ltb b c ≡ true → ltb a c ≡ true
lt_trans a b c h k = ground arith

pub lt_cotrans : (a b c : ℕ) → true ≡ true → ltb a b ≡ true → (ltb a c || ltb c b) ≡ true
lt_cotrans a b c _ h = ground arith

abbrev pub floats : Floats
floats = record {
  Float = ℕ;
  zero = 0;
  lt = ltb;
  le = leb;
  is_finite = λ _. true;
  sub = ◌-◌;
  lt_trans = lt_trans;
  lt_cotrans = lt_cotrans;
}

abbrev pub str_int : ℤ → Str
str_int (pos n) = n ∷ []
str_int (negsuc n) = b'-' ∷ n ∷ []

abbrev pub parse_int : Str → Option ℤ
parse_int (n ∷ []) = some (pos n)
parse_int (_ ∷ n ∷ []) = some (negsuc n)
parse_int _ = none

abbrev pub parse_float : Str → Option ℕ
parse_float (n ∷ []) = some n
parse_float _ = none

-- "true" has four letters.
abbrev pub parse_bool : Str → Option Bool
parse_bool (_ ∷ _ ∷ _ ∷ _ ∷ []) = some true
parse_bool (_ ∷ _ ∷ _ ∷ _ ∷ _ ∷ []) = some false
parse_bool _ = none

pub parse_int-str_int : (n : ℤ) → parse_int (str_int n) ≡ some n
parse_int-str_int (pos n) = refl
parse_int-str_int (negsuc n) = refl

abbrev pub coercion : Coercion floats
coercion = record {
  str_int = str_int;
  str_float = λ n. n ∷ [];
  parse_int = parse_int;
  parse_float = parse_float;
  parse_bool = parse_bool;
  parse_int-str_int = parse_int-str_int;
  parse_float-str_float = λ x _. refl;
  parse_bool-true = refl;
  parse_bool-false = refl;
}

-- Nothing where the true ones raise.
abbrev div : ℕ → ℕ → Option ℕ
div a b = if leb b 0 then none else some a

abbrev log : ℕ → Option ℕ
log x = if leb x 0 then none else some x

pub div_raises : (a b : ℕ) → div a b ≡ none → leb b 0 ≡ true
div_raises a b h = ground arith

pub log_raises : (x : ℕ) → log x ≡ none → leb x 0 ≡ true
log_raises x h = ground arith

abbrev pub draws : Random floats
draws = record {
  State = ℕ;
  gauss = λ mu sigma s. some (mu + s, s + 1);
  expovariate = λ rate s. some (s, s + 1);
  gammavariate = λ a b s. some (s, s + 1);
  lognormvariate = λ mu sigma s. some (s, s + 1);
  weibullvariate = λ a b s. some (s, s + 1);
  random = λ s. (s, s + 1);
  add = ◌+◌;
  mul = ◌*◌;
  div = div;
  power = λ a b. some a;
  sqrt = λ a. some a;
  log = log;
  one = 1;
  two = 2;
  div_raises = div_raises;
  log_raises = log_raises;
}

abbrev float_of : ℤ → ℕ
float_of (pos n) = n
float_of (negsuc n) = 0

abbrev pub conversion : Conversion floats
conversion = record {
  decimal_of = λ n. some (record { coefficient = pos n; exponent = pos 0 });
  float_of = λ d. float_of d.coefficient;
}

-- A number's text is its code point; no bytes are decoded.
abbrev parse_decimal : Str → Option Number
parse_decimal (n ∷ []) = some (finite (record { coefficient = pos n; exponent = pos 0 }))
parse_decimal _ = none

abbrev pub parsing : Parsing
parsing = record {
  decode = λ _. none;
  decimal = parse_decimal;
  int = parse_int;
  str_int = λ n. n ∷ [];
}

abbrev texts : List (Str × Str) → Dict Raw Raw
texts = map (λ e. (text e.0, text e.1))

abbrev param : Dict Raw Raw
param = texts ((lit "name", lit "value") ∷ (lit "value", 5 ∷ []) ∷ (lit "unit", lit "quote") ∷ [])

abbrev hashes : Dict Str (Dict Raw Raw)
hashes =
    (
      lit "instrument:EURUSD",
      texts (
          (lit "pip_size", 1 ∷ [])
          ∷ (lit "quote_currency", lit "USD")
          ∷ (lit "initial_price", 7 ∷ [])
          ∷ []),
    )
    ∷ (lit "symbology", texts ((lit "EURUSD", lit "EUR") ∷ []))
    ∷ (lit "calib:EURUSD:return:param:" ++ (0 ∷ []), param)
    ∷ (lit "calib:EURUSD:spread:param:" ++ (0 ∷ []), param)
    ∷ (lit "calib:EURUSD:interval:param:" ++ (0 ∷ []), param)
    ∷ []

abbrev texts_at : Dict Str Raw
texts_at =
    (lit "calib:EURUSD:return:family", text (lit "constant"))
    ∷ (lit "calib:EURUSD:spread:family", text (lit "constant"))
    ∷ (lit "calib:EURUSD:interval:family", text (lit "constant"))
    ∷ (lit "calib:EURUSD:return:param_count", text (1 ∷ []))
    ∷ (lit "calib:EURUSD:spread:param_count", text (1 ∷ []))
    ∷ (lit "calib:EURUSD:interval:param_count", text (1 ∷ []))
    ∷ []

abbrev hash_or_empty : Option (Dict Raw Raw) → Dict Raw Raw
hash_or_empty none = []
hash_or_empty (some d) = d

-- A store with one symbol, whose three quantities are constant.
abbrev pub store : Replies
store = record {
  smembers = λ key.
      if key == lit "calib:symbols"
      then text (lit "EURUSD") ∷ []
      else text (lit "return") ∷ text (lit "spread") ∷ text (lit "interval") ∷ [];
  hgetall = λ key. hash_or_empty (get key hashes);
  get = λ key. get key texts_at;
}

abbrev constant_five : Distribution ℕ
constant_five = record { family = lit "constant"; params = 5 ∷ [] }

-- What the store holds of the symbol.
abbrev pub held : SymbolCalibration ℕ
held = record {
  initial_price = record { coefficient = pos 7; exponent = pos 0 };
  price_increment = record { coefficient = pos 1; exponent = pos 0 };
  return_distribution = constant_five;
  spread_distribution = constant_five;
  interval_distribution = constant_five;
}

abbrev pub hashing : Hashing
hashing = record { str_int = str_int; sha256 = λ s. s }
