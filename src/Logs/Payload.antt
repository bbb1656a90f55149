-- ===== src/Logs/Payload.antt =====
-- logs.py: what a log line holds of each key.
use tqtk_price_streaming.Prelude.{
  ◌≡◌, Bool, Option, none, some, [], ◌∷◌, ◌++◌, keep, ◌==◌, ==_iff, arith, Bool-cases, inl, inr,
  if◌then◌else◌,
}
use tqtk_price_streaming.Prelude.Text.{Str, lit, str_eq}
use tqtk_price_streaming.Prelude.Dict.{Dict, get, put, get-put}
use tqtk_price_streaming.Logs.{LogRecord, Logging, is_extra, put_text, payload}

-- `xs` first, then `ys`.
abbrev pub first_of : {V : Type 0} → Option V → Option V → Option V
first_of none ys = ys
first_of (some x) ys = some x

module _ {V : Type 0} where
  get-keep :
      (p : Str → Bool) (k : Str) (d : Dict Str V)
      → get k (keep (λ e. p e.0) d) ≡ (if p k then get k d else none)
  unfolding get keep
  get-keep p k [] = ground arith
  get-keep p k ((j, v) ∷ d) = ground (arith, get-keep p k d, ==_iff j k)

module _ {V : Type 0} (lib : Logging V) where
  abbrev entry_of : Str → Option Str → Dict Str V
  entry_of key none = []
  entry_of key (some value) = (key, lib.text value) ∷ []

  -- What the formatter itself writes.
  abbrev pub own_fields : Str → LogRecord V → Dict Str V
  own_fields service_name r =
      entry_of (lit "stack") r.stack_info
      ++ (entry_of (lit "exception") r.exc_info
          ++ ((lit "message", lib.text r.message)
              ∷ (lit "service", lib.text service_name)
              ∷ (lit "logger", lib.text r.name)
              ∷ (lit "level", lib.text r.levelname)
              ∷ (lit "timestamp", lib.text (lib.isoformat r.created))
              ∷ []))

  get-put_own :
      (key k : Str) (v : V) (d own : Dict Str V) (rest : Option V)
      → get k d ≡ first_of (get k own) rest
      → get k (put key v d) ≡ first_of (get k ((key, v) ∷ own)) rest
  unfolding get
  get-put_own key k v d own rest h = elim (Bool-cases (key == k)) [
    | inl here ↦ ground (arith, get-put key k v d)
    | inr other ↦ ground (arith, get-put key k v d)
  ]

  get-put_text :
      (key k : Str) (value : Option Str) (d : Dict Str V) (own : Dict Str V) (rest : Option V)
      → get k d ≡ first_of (get k own) rest
      → get k (put_text lib key value d) ≡ first_of (get k (entry_of key value ++ own)) rest
  unfolding put_text get
  get-put_text key k none d own rest h = h
  get-put_text key k (some value) d own rest h = get-put_own key k (lib.text value) d own rest h

  -- For each key, a log line holds what the formatter itself writes, if it writes the key, and
  -- otherwise the record's attribute of that name, if it is none of the library's and does not
  -- start with an underscore.
  pub payload-get :
      (service_name : Str) (r : LogRecord V) (k : Str)
      → get k (payload lib service_name r)
        ≡ first_of
            (get k (own_fields service_name r))
            (if is_extra lib k then get k r.attributes else none)
  unfolding payload get
  payload-get service_name r k =
      let rest = if is_extra lib k then get k r.attributes else none in
      let stamped = (lit "timestamp", lib.text (lib.isoformat r.created)) ∷ [] in
      let levelled = (lit "level", lib.text r.levelname) ∷ stamped in
      let named = (lit "logger", lib.text r.name) ∷ levelled in
      let served = (lit "service", lib.text service_name) ∷ named in
      get-put_text (lit "stack") k r.stack_info _ _ rest (
        get-put_text (lit "exception") k r.exc_info _ _ rest (
          get-put_own (lit "message") k (lib.text r.message) _ served rest (
            get-put_own (lit "service") k (lib.text service_name) _ named rest (
              get-put_own (lit "logger") k (lib.text r.name) _ levelled rest (
                get-put_own (lit "level") k (lib.text r.levelname) _ stamped rest (
                  get-put_own (lit "timestamp") k (lib.text (lib.isoformat r.created)) _ [] rest
                    (get-keep (is_extra lib) k r.attributes)))))))
