-- ===== src/Runtime/Handler/Answers.antt =====
-- server.py: what a request is answered.
use tqtk_price_streaming.Prelude.{
  ◌≡◌, ◌≢◌, refl, Bool, true, false, List, [], ◌∷◌, ◌++◌, ok, err, list_beq, if◌then◌else◌,
}
use tqtk_price_streaming.Prelude.Text.{Str, lit, str_eq}
use tqtk_price_streaming.Runtime.Readiness.{Readiness, is_ready}
use tqtk_price_streaming.Runtime.Handler.{
  Library, Chunk, content, Write, written, disconnected, failed, json_response, readiness,
  internal_error, route, answer, send, respond,
}

module _ (lib : Library) where
  route_ready :
      (request : Str) (r : Readiness)
      → lib.url_path request ≡ lit "/ready"
      → route lib request r
        ≡ ok (
            json_response lib
              (if is_ready r then 200 else 503)
              (readiness (is_ready r) r.connected))
  unfolding route is_ready list_beq
  route_ready request r h = rw h

  -- A request of `/ready` is answered 200 if every dependency is connected and 503 if not, with
  -- the state that decided it.
  answer_ready :
      (request : Str) (r : Readiness)
      → lib.url_path request ≡ lit "/ready"
      → answer lib request r
        ≡ json_response lib (if is_ready r then 200 else 503) (readiness (is_ready r) r.connected)
  unfolding answer
  answer_ready request r h = rw (route_ready request r h, answer)

  route_raised :
      (request : Str) (r : Readiness)
      → lib.url_path request ≡ lit "/metrics"
      → {e : Str} → lib.render ≡ err e
      → route lib request r ≡ err e
  unfolding route list_beq
  route_raised request r h k = rw (h, route) (rw k)

  -- A raising collector is answered, too.
  answer_raised :
      (request : Str) (r : Readiness) {e : Str}
      → lib.url_path request ≡ lit "/metrics"
      → lib.render ≡ err e
      → answer lib request r ≡ json_response lib 500 (internal_error request)
  unfolding answer
  answer_raised request r h k = rw (route_raised request r h k, answer)

-- If no write fails other than by the client's disconnecting, the handler does not raise, and
-- what the client got is a prefix of the complete answer.
pub respond_disconnected :
    (lib : Library) (request : Str) (r : Readiness) (with_body : Bool) (headers body : Write)
    → headers ≢ failed
    → body ≢ failed
    → ((respond lib request r with_body headers body).raised ≡ false)
      × (rest : List Chunk) × ((respond lib request r with_body headers body).chunks ++ rest
          ≡ (respond lib request r with_body written written).chunks)
unfolding respond send
respond_disconnected lib request r true written written h k = (refl, [], refl)
respond_disconnected lib request r true written disconnected h k =
    (refl, content (answer lib request r).body ∷ [], refl)
respond_disconnected lib request r true written failed h k = absurd (k refl)
respond_disconnected lib request r false written body h k = (refl, [], refl)
respond_disconnected lib request r true disconnected body h k = (refl, _, refl)
respond_disconnected lib request r false disconnected body h k = (refl, _, refl)
respond_disconnected lib request r with_body failed body h k = absurd (h refl)

-- HEAD is answered with the headers of GET, and no body.
respond_head :
    (lib : Library) (request : Str) (r : Readiness) (body : Write)
    → (rest : List Chunk) × ((respond lib request r true written written).chunks
        ≡ (respond lib request r false written body).chunks ++ rest)
unfolding respond send
respond_head lib request r body = (content (answer lib request r).body ∷ [], refl)
