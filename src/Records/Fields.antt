-- ===== src/Records/Fields.antt =====
-- The annotated field types of the records (`Name`, `EpochMicros`, `Price`, `Size`, counters), as
-- pydantic checks them.
use tqtk_price_streaming.Prelude.{
  ℕ, ◌^◌, ◌-◌, Bool, ◌&&◌, [], ◌∷◌, Option, none, some, leb, Result, ok, err, ◌>>=◌, if◌then◌else◌,
}
use tqtk_price_streaming.Prelude.Text.{Str}
use tqtk_price_streaming.Prelude.Int.{ℤ, pos, negsuc}
use tqtk_price_streaming.Records.Floats.{Floats}

-- pydantic raises one `ValidationError`, whatever the number of faults.
pub data ValidationError : Type 0 where
  validation_error : ValidationError

abbrev pub Validated : Type 0 → Type 0
Validated A = Result ValidationError A

abbrev pub uint64_max : ℕ
uint64_max = 2 ^ 64 - 1

-- Field(min_length=1)
unfoldable pub name_field : Str → Validated Str
name_field [] = err validation_error
name_field (c ∷ s) = ok (c ∷ s)

-- Name | None
unfoldable pub optional_name : Option Str → Validated (Option Str)
unfolding name_field
optional_name none = ok none
optional_name (some s) = do name ← name_field s; ok (some name)

-- Field(ge=0) on an int
unfoldable pub epoch_micros : ℤ → Validated ℕ
epoch_micros (pos n) = ok n
epoch_micros (negsuc n) = err validation_error

-- Field(ge=0, le=UINT64_MAX)
unfoldable pub seq_field : ℤ → Validated ℕ
seq_field (pos n) = if leb n uint64_max then ok n else err validation_error
seq_field (negsuc n) = err validation_error

module _ (fl : Floats) where
  -- Field(gt=0, allow_inf_nan=False)
  unfoldable pub is_price : fl.Float → Bool
  is_price x = fl.is_finite x && fl.lt fl.zero x

  unfoldable pub price : fl.Float → Validated fl.Float
  price x = if is_price x then ok x else err validation_error

  -- Field(ge=0, allow_inf_nan=False)
  unfoldable pub is_size : fl.Float → Bool
  is_size x = fl.is_finite x && fl.le fl.zero x

  -- Size | None
  unfoldable pub optional_size : Option fl.Float → Validated (Option fl.Float)
  optional_size none = ok none
  optional_size (some x) = if is_size x then ok (some x) else err validation_error
