-- ===== src/Runtime/Handler.antt =====
-- `_Handler`: one request of `/health`, `/ready` or `/metrics`. `urlsplit(...).path`, `json.dumps`
-- and the rendering of the registry are parameters; rendering may raise. A write to the client may
-- succeed, find the client gone, or fail in another way.
pub mod Answers
pub mod Alerts
use tqtk_price_streaming.Prelude.{
  ℕ, Bool, true, false, List, [], ◌∷◌, ◌++◌, Result, ok, err, length, ◌==◌, if◌then◌else◌,
}
use tqtk_price_streaming.Prelude.Text.{Str, lit, str_eq}
use tqtk_price_streaming.Prelude.Dict.{Dict}
use tqtk_price_streaming.Runtime.Readiness.{Readiness, snapshot, all_true}

-- The payloads that are rendered as JSON.
pub data Payload : Type 0 where
  alive : Payload
  readiness : Bool → Dict Str Bool → Payload
  not_found : Str → Payload
  internal_error : Str → Payload

pub data ContentType : Type 0 where
  json exposition : ContentType

-- status, body, content type
pub record Response : Type 0 where
  pub status : ℕ
  pub body : Str
  pub content_type : ContentType

-- What the handler calls and the repository does not hold.
pub record Library : Type 0 where
  pub url_path : Str → Str
  pub dumps : Payload → Str
  -- The exposition, or the exception that a collector raises.
  pub render : Result Str Str

-- What is written to the client: the status line with the headers, then the body.
pub data Chunk : Type 0 where
  head : ℕ → ContentType → ℕ → Chunk
  content : Str → Chunk

pub data Write : Type 0 where
  written disconnected failed : Write

pub record Sent : Type 0 where
  pub chunks : List Chunk
  pub close_connection : Bool
  pub raised : Bool

module _ (lib : Library) where
  -- `_json`: the payload and a newline.
  unfoldable pub json_response : ℕ → Payload → Response
  json_response status payload = record {
    status = status;
    body = lib.dumps payload ++ (10 ∷ []);
    content_type = json;
  }

  -- `_route`, over the path of the request line.
  unfoldable pub route : Str → Readiness → Result Str Response
  unfolding json_response snapshot
  route request r =
      let path = lib.url_path request in
      if path == lit "/health"
      then ok (json_response 200 alive)
      else if path == lit "/ready"
      then (let dependencies = snapshot r in
          let ready = all_true dependencies in
          ok (json_response (if ready then 200 else 503) (readiness ready dependencies)))
      else if path == lit "/metrics"
      then (elim lib.render [
        | ok text ↦ ok (record { status = 200; body = text; content_type = exposition })
        | err e ↦ err e
      ])
      else ok (json_response 404 (not_found path))

  -- The `try` of `_respond`.
  unfoldable pub answer : Str → Readiness → Response
  unfolding json_response
  answer request r = elim (route request r) [
    | ok response ↦ response
    | err e ↦ json_response 500 (internal_error request)
  ]

-- `_send`: the headers are written by `end_headers`.
unfoldable pub send : Response → Bool → Write → Write → Sent
send response with_body headers body = elim headers [
  | disconnected ↦ record { chunks = []; close_connection = true; raised = false }
  | failed ↦ record { chunks = []; close_connection = false; raised = true }
  | written ↦
      let start = head response.status response.content_type (length response.body) in
      if with_body
      then (elim body [
        | disconnected ↦ record { chunks = start ∷ []; close_connection = true; raised = false }
        | failed ↦ record { chunks = start ∷ []; close_connection = false; raised = true }
        | written ↦ record {
          chunks = start ∷ content response.body ∷ [];
          close_connection = false;
          raised = false;
        }
      ])
      else record { chunks = start ∷ []; close_connection = false; raised = false }
]

module _ (lib : Library) where
  -- `_respond`; `do_GET` and `do_HEAD` differ in `with_body`.
  unfoldable pub respond : Str → Readiness → Bool → Write → Write → Sent
  respond request r with_body headers body = send (answer lib request r) with_body headers body
