-- ===== src/Feed/Calibration.antt =====
-- services/feed-adapter-synthetic/src/feed_adapter_synthetic/calibration_store.py: the calibrations of
-- all symbols, read from Redis and checked. What Redis replies in each of the three round trips is an
-- argument: within one of them each key is read once, so that a reply is a function of the key. The
-- parsing of numbers and the decoding of bytes are parameters.
pub mod Parse
pub mod Params
pub mod Load
pub mod Checks
pub mod Ready
pub mod Keys
pub mod Draws
pub mod Taking
pub mod Pipeline
pub mod Trips
pub mod Takes
pub mod HeadReplies
pub mod Position
pub mod InOrder
use tqtk_price_streaming.Prelude.{
  ℕ, Bool, true, false, Option, none, some, List, [], ◌∷◌, Result, ok, err, ◌>>=◌,
}
use tqtk_price_streaming.Prelude.Text.{Str, str_eq}
use tqtk_price_streaming.Prelude.Int.{ℤ}
use tqtk_price_streaming.Prelude.Dict.{Dict, get, put}
use tqtk_price_streaming.Feed.Decimal.{Decimal}

-- What `redis` returns for a text.
pub data Raw : Type 0 where
  text : Str → Raw
  bytes : List ℕ → Raw

-- `Decimal(text)`, if it is a number: a finite one, or an infinity or NaN.
pub data Number : Type 0 where
  finite : Decimal → Number
  special : Number

-- `bytes.decode`, `Decimal`, `int` and `str`; nothing where they raise.
pub record Parsing : Type 0 where
  pub decode : List ℕ → Option Str
  pub decimal : Str → Option Number
  pub int : Str → Option ℤ
  pub str_int : ℕ → Str

-- The replies to one pipeline.
pub record Replies : Type 0 where
  pub smembers : Str → List Raw
  pub hgetall : Str → Dict Raw Raw
  pub get : Str → Option Raw

-- `CalibrationError`, by what its message names.
pub data CalibrationError : Type 0 where
  not_utf8 : Str → CalibrationError
  not_a_number not_finite : Str → Str → CalibrationError
  no_field : Str → Str → Str → CalibrationError
  bad_pip_size bad_initial_price : Str → CalibrationError
  no_family no_count : Str → Str → CalibrationError
  unknown_family : Str → Str → Str → CalibrationError
  bad_count wrong_count : Str → Str → CalibrationError
  not_seeded : CalibrationError
  lacks_quantities : List Str → CalibrationError
  no_symbology : Str → CalibrationError
  symbology_clash : Str → Str → Str → CalibrationError
  no_param : Str → Str → CalibrationError
  misnamed unknown_unit : Str → Str → Str → CalibrationError
  out_of_range not_positive extra_param : Str → Str → CalibrationError

abbrev pub Checked : Type 0 → Type 0
Checked A = Result CalibrationError A

-- `if not test: raise e`, of a value that may be missing.
unfoldable pub required : {A : Type 0} → Option A → CalibrationError → Checked A
required none e = err e
required (some a) e = ok a

module _ (ps : Parsing) where
  unfoldable pub text_of : Raw → Str → Checked Str
  unfolding required
  text_of (text s) key = ok s
  text_of (bytes bs) key = required (ps.decode bs) (not_utf8 key)

  -- The comprehension of `_decode_hash`, from the entries so far.
  unfoldable pub decode_entries : Dict Raw Raw → Str → Dict Str Str → Checked (Dict Str Str)
  unfolding text_of
  decode_entries [] key done = ok done
  decode_entries ((k, v) ∷ rest) key done = do
    name ← text_of k key
    value ← text_of v key
    decode_entries rest key (put name value done)

  unfoldable pub decode_hash : Dict Raw Raw → Str → Checked (Dict Str Str)
  unfolding decode_entries
  decode_hash raw key = decode_entries raw key []

  -- `_decimal`
  unfoldable pub decimal_of : Str → Str → Str → Checked Decimal
  decimal_of s key field = elim (ps.decimal s) [
    | none ↦ err (not_a_number key field)
    | some (finite d) ↦ ok d
    | some special ↦ err (not_finite key field)
  ]

-- `if not hash.get(field): raise`, and `hash[field]` from then on.
unfoldable pub nonempty : Option Str → CalibrationError → Checked Str
nonempty none e = err e
nonempty (some []) e = err e
nonempty (some (c ∷ s)) e = ok (c ∷ s)

unfoldable pub field_of : Dict Str Str → Str → Str → Str → Checked Str
unfolding nonempty get
field_of hash venue key field = nonempty (get field hash) (no_field venue key field)
