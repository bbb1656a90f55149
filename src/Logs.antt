-- ===== src/Logs.antt =====
-- libs/tqtk-common/src/tqtk_common/logs.py: the fields of a log line, and the handlers of the root
-- logger. The names that `logging` puts on a record, the text of a time and of a traceback, and
-- `json.dumps` are parameters.
pub mod Payload
pub mod Handlers
use tqtk_price_streaming.Prelude.{
  ℕ, Bool, true, false, not, ◌&&◌, Option, none, some, List, [], ◌∷◌, ◌++◌, keep,
}
use tqtk_price_streaming.Prelude.Text.{Str, lit, str_eq, starts_with}
use tqtk_price_streaming.Prelude.Dict.{Dict, put}
use tqtk_price_streaming.Prelude.Sorting.{contains}
use tqtk_price_streaming.Config.{ServiceConfig}

-- A record as the formatter reads it: its `__dict__`, and what its fields and methods give.
pub record LogRecord (V : Type 0) : Type 0 where
  pub attributes : Dict Str V
  pub created : ℕ
  pub levelname : Str
  pub name : Str
  pub message : Str
  -- What `formatException` and `formatStack` make of the two, where they are set.
  pub exc_info : Option Str
  pub stack_info : Option Str

-- What the library does.
pub record Logging (V : Type 0) : Type 0 where
  pub record_attributes : List Str
  pub text : Str → V
  pub isoformat : ℕ → Str
  pub dumps : Dict Str V → Str

module _ {V : Type 0} (lib : Logging V) where
  -- _STANDARD_ATTRS
  unfoldable pub standard_attrs : List Str
  standard_attrs = lib.record_attributes ++ (lit "message" ∷ lit "asctime" ∷ [])

  -- `key not in _STANDARD_ATTRS and not key.startswith("_")`
  unfoldable pub is_extra : Str → Bool
  unfolding standard_attrs
  is_extra key = not (contains key standard_attrs) && not (starts_with (lit "_") key)

  -- `if value: payload[key] = ...`
  unfoldable pub put_text : Str → Option Str → Dict Str V → Dict Str V
  put_text key none payload = payload
  put_text key (some value) payload = put key (lib.text value) payload

  -- The fields of a line, for the service named.
  unfoldable pub payload : Str → LogRecord V → Dict Str V
  unfolding is_extra put_text
  payload service_name record' =
      let extras = keep (λ e. is_extra e.0) record'.attributes in
      let stamped = put (lit "timestamp") (lib.text (lib.isoformat record'.created)) extras in
      let levelled = put (lit "level") (lib.text record'.levelname) stamped in
      let named = put (lit "logger") (lib.text record'.name) levelled in
      let served = put (lit "service") (lib.text service_name) named in
      let whole = put (lit "message") (lib.text record'.message) served in
      put_text (lit "stack") record'.stack_info (put_text (lit "exception") record'.exc_info whole)

  -- JSONFormatter.format
  unfoldable pub format : Str → LogRecord V → Str
  unfolding payload
  format service_name record' = lib.dumps (payload service_name record')

-- A handler, by whether it has the tag and, if so, the service that its formatter names.
pub data Handler : Type 0 where
  tagged : Str → Handler
  other : ℕ → Handler

unfoldable pub is_tagged : Handler → Bool
is_tagged (tagged service) = true
is_tagged (other n) = false

-- The root logger, and the handlers that were closed.
pub record Root : Type 0 where
  pub handlers : List Handler
  pub level : Str
  pub closed : List Handler

unfoldable pub configure_logging : ServiceConfig → Root → Root
unfolding is_tagged
configure_logging config root = record {
  handlers = keep (λ h. not (is_tagged h)) root.handlers ++ (tagged config.service_name ∷ []);
  level = config.log_level;
  closed = root.closed ++ keep is_tagged root.handlers;
}

-- One call after another.
unfoldable pub configure_all : List ServiceConfig → Root → Root
configure_all [] root = root
configure_all (config ∷ configs) root = configure_all configs (configure_logging config root)
