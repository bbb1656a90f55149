-- ===== src/Runtime/Lifecycle/Trace.antt =====
-- server.py: the sockets that a `RuntimeServer` binds and closes.
use tqtk_price_streaming.Prelude.{
  ℕ, ◌≡◌, refl, sym, subst, ◌∙◌, true, Option, none, some, List, [], ◌∷◌, ◌++◌, Bool-cases, inl,
  inr, arith,
}
use tqtk_price_streaming.Runtime.Lifecycle.{
  Event, bound, closed, joined, stopped_logged, RuntimeServer, Host, start, serve, Effect, stop,
  stop_held, Call, starting, stopping, call, follow, run,
}

-- The system's side of a trace: the port that is listening, or none if the trace binds twice or
-- serves, logs or closes what is not bound.
unfoldable pub listens : Option ℕ → List Event → Option (Option ℕ)
listens now [] = some now
listens none (bound p ∷ events) = listens (some p) events
listens none (joined ∷ events) = listens none events
listens none (stopped_logged ∷ events) = listens none events
listens none (_ ∷ events) = none
listens (some p) (bound q ∷ events) = none
listens (some p) (closed ∷ events) = listens none events
listens (some p) (_ ∷ events) = listens (some p) events

listens-append :
    (now : Option ℕ) (xs ys : List Event) {m : Option ℕ}
    → listens now xs ≡ some m
    → listens now (xs ++ ys) ≡ listens m ys
unfolding listens
listens-append now [] ys h = ground arith
listens-append none (bound p ∷ xs) ys h = listens-append (some p) xs ys h
listens-append none (joined ∷ xs) ys h = listens-append none xs ys h
listens-append none (stopped_logged ∷ xs) ys h = listens-append none xs ys h
listens-append none (_ ∷ xs) ys h = cc
listens-append (some p) (bound q ∷ xs) ys h = cc
listens-append (some p) (closed ∷ xs) ys h = listens-append none xs ys h
listens-append (some p) (_ ∷ xs) ys h = listens-append (some p) xs ys h

pub start-listens :
    (host : Host) (s : RuntimeServer)
    → listens s.http (start host s).events ≡ some (start host s).server.http
unfolding start serve listens
start-listens host s = ground arith

-- As far as the calls return, what is listening is what the server holds.
abbrev pub Tracks : Option ℕ → Effect → Type 0
Tracks before e = e.returns ≡ true → listens before e.events ≡ some e.server.http

pub stop-Tracks : (s : RuntimeServer) → Tracks s.http (stop s)
unfolding stop listens stop_held
stop-Tracks s returned = ground arith

call-Tracks : (c : Call) (s : RuntimeServer) → Tracks s.http (call c s)
unfolding call
call-Tracks (starting host) s returned = start-listens host s
call-Tracks stopping s returned = stop-Tracks s returned

pub follow-returned :
    (first : Effect) (rest : RuntimeServer → Effect)
    → (follow first rest).returns ≡ true
    → first.returns ≡ true
unfolding follow
follow-returned first rest h = elim (Bool-cases first.returns) [ inl e ↦ e | inr e ↦ ground arith ]

pub follow-eq :
    (first : Effect) (rest : RuntimeServer → Effect)
    → first.returns ≡ true
    → follow first rest ≡ (
        let later = rest first.server in
        record {
          server = later.server;
          events = first.events ++ later.events;
          returns = later.returns;
        })
unfolding follow
follow-eq first rest h = rw h refl

pub follow-Tracks :
    (before : Option ℕ) (first : Effect) (rest : RuntimeServer → Effect)
    → Tracks before first
    → ((s : RuntimeServer) → Tracks s.http (rest s))
    → Tracks before (follow first rest)
follow-Tracks before first rest h k returned =
    let r = follow-returned first rest returned in
    subst (Tracks before) (sym (follow-eq first rest r))
      (λ q. listens-append before first.events (rest first.server).events (h r) ∙ k first.server q)
      returned

pub run-Tracks : (calls : List Call) (s : RuntimeServer) → Tracks s.http (run calls s)
unfolding run listens
run-Tracks [] s = λ returned. refl
run-Tracks (c ∷ calls) s =
    follow-Tracks s.http (call c s) (run calls) (call-Tracks c s) (run-Tracks calls)

run-listens :
    (calls : List Call) (s : RuntimeServer)
    → (run calls s).returns ≡ true
    → listens s.http (run calls s).events ≡ some (run calls s).server.http
run-listens calls s returned = run-Tracks calls s returned
