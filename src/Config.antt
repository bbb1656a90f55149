-- ===== src/Config.antt =====
-- libs/tqtk-common/src/tqtk_common/config.py: the settings of a service, read from the environment.
-- What pydantic-settings documents is written out: a variable is the prefix and the field's name
-- (the lookup, without regard to case, is a parameter), an unset one leaves the default, defaults are
-- validated too, and every field that is refused is reported, in the order of the fields. Reading a
-- number from a text is a parameter.
pub mod Valid
use tqtk_price_streaming.Prelude.{
  ℕ, suc, ◌≡◌, Bool, Option, none, some, List, [], ◌∷◌, ◌++◌, leb, not, ◌==◌, Result, ok, err,
  if◌then◌else◌,
}
use tqtk_price_streaming.Prelude.Text.{Str, lit, str_eq, strip, is_space}
use tqtk_price_streaming.Prelude.Int.{ℤ, pos, negsuc}
use tqtk_price_streaming.Prelude.Sorting.{contains}

-- The environment, as the lookup of a variable.
abbrev pub Environ : Type 0
Environ = Str → Option Str

abbrev pub env_prefix : Str
env_prefix = lit "TQTK_"

abbrev pub default_host : Str
default_host = lit "0.0.0.0"

abbrev pub default_port : ℕ
default_port = 8000

abbrev pub log_levels : List Str
log_levels = lit "DEBUG" ∷ lit "INFO" ∷ lit "WARNING" ∷ lit "ERROR" ∷ lit "CRITICAL" ∷ []

pub data Problem : Type 0 where
  missing unreadable out_of_range not_a_level blank : Problem

-- The field that is refused, and why.
abbrev pub Errors : Type 0
Errors = List (Str × Problem)

-- A field's text and its default.
unfoldable pub setting :
    {A : Type 0} → (Str → Option A) → Environ → Str → Option A → Result Problem A
setting parse environ field default = elim (environ (env_prefix ++ field)) [
  | some text ↦ (elim (parse text) [ some a ↦ ok a | none ↦ err unreadable ])
  | none ↦ (elim default [ some a ↦ ok a | none ↦ err missing ])
]

-- A further check of a value that was read.
unfoldable pub checked :
    {A B : Type 0} → (A → Result Problem B) → Result Problem A → Result Problem B
checked check (ok a) = check a
checked check (err e) = err e

-- `_reject_blank_service_name`
unfoldable pub reject_blank_service_name : Str → Result Problem Str
reject_blank_service_name name = if strip is_space name == [] then err blank else ok name

-- `ge=0, le=65535`
unfoldable pub port_of : ℤ → Result Problem ℕ
port_of (pos n) = if leb n 65535 then ok n else err out_of_range
port_of (negsuc n) = err out_of_range

-- LogLevel
unfoldable pub log_level_of : Str → Result Problem Str
unfolding contains
log_level_of text = if contains text log_levels then ok text else err not_a_level

-- One field more, and all errors so far.
unfoldable pub with_field :
    {A B : Type 0} → Result Errors (A → B) → Str → Result Problem A → Result Errors B
with_field (ok make) field (ok a) = ok (make a)
with_field (ok make) field (err e) = err ((field, e) ∷ [])
with_field (err es) field (ok a) = err es
with_field (err es) field (err e) = err (es ++ ((field, e) ∷ []))

pub record ServiceConfig : Type 0 where
  pub service_name : Str
  pub runtime_host : Str
  pub runtime_port : ℕ
  pub log_level : Str

abbrev pub as_text : Str → Option Str
as_text text = some text

abbrev pub make_service : Str → Str → ℕ → Str → ServiceConfig
make_service name host port level = record {
  service_name = name;
  runtime_host = host;
  runtime_port = port;
  log_level = level;
}

module _ (to_int : Str → Option ℤ) (environ : Environ) where
  -- The fields of ServiceConfig; a subclass may give a default for the name.
  unfoldable pub service_name_of : Option Str → Result Problem Str
  unfolding setting checked reject_blank_service_name
  service_name_of default =
      checked reject_blank_service_name (setting as_text environ (lit "service_name") default)

  unfoldable pub runtime_host_of : Result Problem Str
  unfolding setting
  runtime_host_of = setting as_text environ (lit "runtime_host") (some default_host)

  unfoldable pub runtime_port_of : Result Problem ℕ
  unfolding setting checked port_of
  runtime_port_of =
      checked port_of (setting to_int environ (lit "runtime_port") (some (pos default_port)))

  unfoldable pub level_of : Result Problem Str
  unfolding setting checked log_level_of
  level_of = checked log_level_of (setting as_text environ (lit "log_level") (some (lit "INFO")))

  -- ServiceConfig()
  unfoldable pub service_config : Option Str → Result Errors ServiceConfig
  unfolding service_name_of runtime_host_of runtime_port_of level_of with_field
  service_config default =
      let name = with_field (ok make_service) (lit "service_name") (service_name_of default) in
      let host = with_field name (lit "runtime_host") runtime_host_of in
      let port = with_field host (lit "runtime_port") runtime_port_of in
      with_field port (lit "log_level") level_of
