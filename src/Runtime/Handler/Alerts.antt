-- ===== src/Runtime/Handler/Alerts.antt =====
-- server.py: the log lines of one request and of its connection, and which of them are ERROR. That
-- `send_response` logs through `log_message`, and that an exception which leaves a handler reaches
-- `handle_error`, is the standard library's.
use tqtk_price_streaming.Prelude.{
  ◌≡◌, ◌↔◌, ◌⊎◌, inl, inr, refl, sym, ◌∙◌, Bool, true, false, Option, none, some, List, [], ◌∷◌,
  ◌++◌, any, ok, err, Result-cases, ◌||◌, list_beq, arith,
}
use tqtk_price_streaming.Prelude.Text.{Str, lit, str_eq}
use tqtk_price_streaming.Runtime.Readiness.{Readiness}
use tqtk_price_streaming.Runtime.Handler.{
  Library, Response, Write, written, disconnected, failed, route, answer, send, respond,
}

pub data Level : Type 0 where
  debug error : Level

pub data Line : Type 0 where
  request_line : Line
  disconnected_early : Line
  request_failed : Str → Line
  client_disconnected : Str → Line
  connection_failed : Str → Line

unfoldable pub level_of : Line → Level
level_of (request_failed _) = error
level_of (connection_failed _) = error
level_of _ = debug

-- An exception outside `_send`: one of a client that disconnects, or another.
pub data Raised : Type 0 where
  aborted other : Raised

-- `handle_error`, for a client address.
unfoldable pub handle_error : Raised → Str → Line
handle_error aborted client = client_disconnected client
handle_error other client = connection_failed client

-- `_send`: `send_response` logs before anything is written.
unfoldable pub send_lines : Bool → Write → Write → List Line
send_lines with_body disconnected body = request_line ∷ disconnected_early ∷ []
send_lines true written disconnected = request_line ∷ disconnected_early ∷ []
send_lines _ _ _ = request_line ∷ []

module _ (lib : Library) where
  unfoldable pub respond_lines : Str → Readiness → Bool → Write → Write → List Line
  unfolding send_lines
  respond_lines request r with_body headers body =
      let sent = send_lines with_body headers body in
      elim (route lib request r) [ ok _ ↦ sent | err _ ↦ request_failed request ∷ sent ]

  -- What the connection ends with, if the handler raised or something outside it did.
  unfoldable pub backstop : Bool → Option Raised → Str → List Line
  unfolding handle_error
  backstop true outside client = handle_error other client ∷ []
  backstop false none client = []
  backstop false (some e) client = handle_error e client ∷ []

  -- One request, and what is raised on its connection after it.
  unfoldable pub connection_lines :
      Str → Readiness → Bool → Write → Write → Option Raised → Str → List Line
  unfolding respond_lines backstop
  connection_lines request r with_body headers body outside client =
      respond_lines request r with_body headers body
      ++ backstop (respond lib request r with_body headers body).raised outside client

abbrev pub is_error : Line → Bool
is_error line = elim (level_of line) [ error ↦ true | debug ↦ false ]

or_iff : (x y : Bool) → ((x || y) ≡ true) ↔ ((x ≡ true) ⊎ (y ≡ true))
or_iff x y = ground arith

any-append :
    {A : Type 0} (p : A → Bool) (xs ys : List A) → any p (xs ++ ys) ≡ (any p xs || any p ys)
unfolding any
any-append p [] ys = refl
any-append p (x ∷ xs) ys = ground (arith, any-append p xs ys)

-- The write of the headers failed, or that of a body.
abbrev pub IsBroken : Bool → Write → Write → Type 0
IsBroken with_body headers body =
    (headers ≡ failed) ⊎ ((with_body ≡ true) × (headers ≡ written) × (body ≡ failed))

send-raised_iff :
    (response : Response) (with_body : Bool) (headers body : Write)
    → ((send response with_body headers body).raised ≡ true) ↔ IsBroken with_body headers body
unfolding send
send-raised_iff response true written written = ground arith
send-raised_iff response true written disconnected = ground arith
send-raised_iff response true written failed = ground arith
send-raised_iff response false written body = ground arith
send-raised_iff response with_body disconnected body = ground arith
send-raised_iff response with_body failed body = ground arith

send_lines-quiet :
    (with_body : Bool) (headers body : Write)
    → any is_error (send_lines with_body headers body) ≡ false
unfolding send_lines any level_of
send_lines-quiet true written written = refl
send_lines-quiet true written disconnected = refl
send_lines-quiet true written failed = refl
send_lines-quiet false written body = refl
send_lines-quiet with_body disconnected body = refl
send_lines-quiet true failed body = refl
send_lines-quiet false failed body = refl

module _ (lib : Library) where
  -- The registry is asked for, and raises.
  abbrev pub IsRaising : Str → Type 0
  IsRaising request = (lib.url_path request ≡ lit "/metrics") × (e : Str) × (lib.render ≡ err e)

  route-err_iff :
      (request : Str) (r : Readiness)
      → ((e : Str) × (route lib request r ≡ err e)) ↔ IsRaising request
  unfolding route list_beq
  route-err_iff request r =
      (λ raised. ground arith, λ (asked, e, raised). (e, rw (asked, route) (rw raised refl)))

  respond_lines-alert :
      (request : Str) (r : Readiness) (with_body : Bool) (headers body : Write)
      → (any is_error (respond_lines lib request r with_body headers body) ≡ true)
        ↔ IsRaising request
  unfolding respond_lines any level_of
  respond_lines-alert request r with_body headers body = elim (Result-cases (route lib request r)) [
    | inl (response, e) ↦ (
      λ h. absurd (ground (arith, e, send_lines-quiet with_body headers body)),
      λ raising. let (x, k) = (route-err_iff request r).1 raising in absurd (ground (arith, e, k)),
    )
    | inr (x, e) ↦ (λ _. (route-err_iff request r).0 (x, e), λ _. rw (e, respond_lines) refl)
  ]

  backstop-alert :
      (raised : Bool) (outside : Option Raised) (client : Str)
      → (any is_error (backstop lib raised outside client) ≡ true)
        ↔ ((raised ≡ true) ⊎ (outside ≡ some other))
  unfolding backstop any level_of handle_error
  backstop-alert true outside client = ground arith
  backstop-alert false none client = ground arith
  backstop-alert false (some aborted) client = ground arith
  backstop-alert false (some other) client = ground arith

  connection_alerts_iff :
      (request : Str) (r : Readiness) (with_body : Bool) (headers body : Write)
      (outside : Option Raised) (client : Str)
      → (any is_error (connection_lines lib request r with_body headers body outside client) ≡ true)
        ↔ (IsRaising request ⊎ (IsBroken with_body headers body ⊎ (outside ≡ some other)))
  unfolding connection_lines respond
  connection_alerts_iff request r with_body headers body outside client =
      let raised = (respond lib request r with_body headers body).raised in
      let both =
        any-append is_error (respond_lines lib request r with_body headers body)
          (backstop lib raised outside client) in
      let (a, a') = respond_lines-alert request r with_body headers body in
      let (b, b') = backstop-alert raised outside client in
      let (c, c') = send-raised_iff (answer lib request r) with_body headers body in
      let either =
        or_iff (any is_error (respond_lines lib request r with_body headers body))
          (any is_error (backstop lib raised outside client)) in
      (
        λ h. elim (either.0 (sym both ∙ h)) [
          | inl x ↦ inl (a x)
          | inr y ↦ inr (elim (b y) [ inl z ↦ inl (c z) | inr z ↦ inr z ])
        ],
        λ k.
            both
            ∙ either.1 (elim k [
              | inl x ↦ inl (a' x)
              | inr (inl z) ↦ inr (b' (inl (c' z)))
              | inr (inr z) ↦ inr (b' (inr z))
            ]),
      )
