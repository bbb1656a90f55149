-- ===== src/Tests/Logs.antt =====
-- logs.py: a line with a field that collides, and the handlers after two calls.
use tqtk_price_streaming.Prelude.{◌≡◌, refl, none, some, [], ◌∷◌, keep, list_beq, if◌then◌else◌}
use tqtk_price_streaming.Prelude.Text.{Str, lit, str_eq, starts_with}
use tqtk_price_streaming.Prelude.Dict.{get, put, keys}
use tqtk_price_streaming.Prelude.Sorting.{contains}
use tqtk_price_streaming.Config.{ServiceConfig}
use tqtk_price_streaming.Logs.{
  LogRecord, Logging, standard_attrs, is_extra, put_text, payload, tagged, other, is_tagged, Root,
  configure_logging, configure_all,
}
use tqtk_price_streaming.Logs.Payload.{first_of, own_fields, payload-get}

abbrev lib : Logging Str
lib = record {
  record_attributes = lit "name" ∷ lit "msg" ∷ [];
  text = λ s. s;
  isoformat = λ n. n ∷ [];
  dumps = λ d. [];
}

abbrev line : LogRecord Str
line = record {
  attributes =
      (lit "name", lit "server")
      ∷ (lit "dependency", lit "redis")
      ∷ (lit "level", lit "mine")
      ∷ (lit "_hidden", lit "x")
      ∷ [];
  created = 9;
  levelname = lit "INFO";
  name = lit "server";
  message = lit "up";
  exc_info = none;
  stack_info = none;
}

-- The caller's `level` gives way to the record's, in its place.
written :
    keys (payload lib (lit "feed") line)
    ≡ lit "dependency"
      ∷ lit "level"
      ∷ lit "timestamp"
      ∷ lit "logger"
      ∷ lit "service"
      ∷ lit "message"
      ∷ []
unfolding payload is_extra standard_attrs put_text keep contains starts_with put list_beq
written = refl

level : get (lit "level") (payload lib (lit "feed") line) ≡ some (lit "INFO")
unfolding payload is_extra standard_attrs put_text keep contains starts_with put get list_beq
level = refl

payload-get_example :
    get (lit "level") (payload lib (lit "feed") line)
    ≡ first_of
        (get (lit "level") (own_fields lib (lit "feed") line))
        (if is_extra lib (lit "level") then get (lit "level") line.attributes else none)
payload-get_example = payload-get lib (lit "feed") line (lit "level")

abbrev config : Str → ServiceConfig
config level = record {
  service_name = lit "feed";
  runtime_host = lit "0.0.0.0";
  runtime_port = 8000;
  log_level = level;
}

abbrev root : Root
root = record { handlers = other 3 ∷ []; level = lit "WARNING"; closed = [] }

reconfigured :
    (configure_all (config (lit "DEBUG") ∷ config (lit "INFO") ∷ []) root).handlers
    ≡ other 3 ∷ tagged (lit "feed") ∷ []
unfolding configure_all configure_logging is_tagged keep
reconfigured = refl
