-- ===== src/Runtime/Lifecycle/Release.antt =====
-- server.py: the socket of a `with` block of a server.
use tqtk_price_streaming.Prelude.{
  ℕ, ◌≡◌, refl, sym, subst, ap, ◌∙◌, true, Option, none, some, List, [], ◌∷◌, All, ok, arith,
}
use tqtk_price_streaming.Runtime.Lifecycle.{
  RuntimeServer, Host, Outcome, start, serve, effect_of, stop, stop_held, Call, starting, stopping,
  call, follow, run, after_enter, with_server,
}
use tqtk_price_streaming.Runtime.Lifecycle.Trace.{
  listens, start-listens, stop-Tracks, follow-eq, follow-Tracks, run-Tracks,
}

-- A stop of the server would return.
abbrev pub CanStop : RuntimeServer → Type 0
CanStop s = (stop s).returns ≡ true

-- Each start of the calls can have its thread.
abbrev pub StartsThread : Call → Type 0
StartsThread (starting host) = host.thread_starts ≡ true
StartsThread stopping = Unit

call-CanStop :
    (c : Call) (s : RuntimeServer)
    → StartsThread c
    → CanStop s
    → ((call c s).returns ≡ true) × CanStop (call c s).server
unfolding call start serve stop stop_held
call-CanStop (starting host) s h can = (refl, ground arith)
call-CanStop stopping s h can = (can, ground arith)

run-CanStop :
    (calls : List Call) (s : RuntimeServer)
    → All StartsThread calls
    → CanStop s
    → ((run calls s).returns ≡ true) × CanStop (run calls s).server
unfolding run
run-CanStop [] s h can = (refl, can)
run-CanStop (c ∷ calls) s h can =
    let (back, next) = call-CanStop c s h.0 can in
    subst (λ e. (e.returns ≡ true) × CanStop e.server) (sym (follow-eq (call c s) (run calls) back))
      (run-CanStop calls (call c s).server h.1 next)

entered-CanStop :
    (host : Host) (s : RuntimeServer)
    → (start host s).result ≡ ok tt
    → CanStop (start host s).server
unfolding start serve stop stop_held
entered-CanStop host s entered = ground arith

stop-http : (s : RuntimeServer) → (stop s).server.http ≡ none
unfolding stop stop_held
stop-http s = ground arith

-- The body of a block that was entered, and the stop after it.
block-released :
    (o : Outcome) (body : List Call) (before : Option ℕ)
    → listens before o.events ≡ some o.server.http
    → CanStop o.server
    → All StartsThread body
    → let e = after_enter (ok tt) o body in
      (e.returns ≡ true) × (e.server.http ≡ none) × (listens before e.events ≡ some none)
unfolding after_enter follow
block-released o body before h can threads =
    let (back, next) = run-CanStop body o.server threads can in
    let inner = follow-eq (run body o.server) stop back in
    let returned = ap (λ e. e.returns) inner ∙ next in
    let free = ap (λ e. e.server.http) inner ∙ stop-http (run body o.server).server in
    let tracked =
      follow-Tracks before (effect_of o) (λ s. follow (run body s) stop) (λ _. h)
        (λ s. follow-Tracks s.http (run body s) stop (run-Tracks body s) stop-Tracks) in
    (returned, free, tracked returned ∙ ap some free)

-- If a `with` block was entered and every start in its body can have its thread, its end
-- returns, with nothing listening and no server held.
pub with_server-released :
    (host : Host) (body : List Call) (s : RuntimeServer)
    → (start host s).result ≡ ok tt
    → All StartsThread body
    → let e = with_server host body s in
      (e.returns ≡ true) × (e.server.http ≡ none) × (listens s.http e.events ≡ some none)
unfolding with_server
with_server-released host body s entered threads =
    subst
      (λ r.
        let e = after_enter r (start host s) body in
        (e.returns ≡ true) × (e.server.http ≡ none) × (listens s.http e.events ≡ some none))
      (sym entered)
      (block-released (start host s) body s.http (start-listens host s)
        (entered-CanStop host s entered) threads)
