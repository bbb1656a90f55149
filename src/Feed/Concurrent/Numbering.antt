-- ===== src/Feed/Concurrent/Numbering.antt =====
-- generator.py: the numbers of the entries that the tasks of one session add.
use tqtk_price_streaming.Prelude.{
  ℕ, ◌+◌, ◌≡◌, refl, sym, subst, ap, ◌∙◌, Bool, true, false, Option, none, some, [], ok, >>=-eq-ok,
  Result-cases, ◌==◌, ==_iff, Bool-cases, inl, inr, pair_eq, arith,
}
use tqtk_price_streaming.Prelude.Text.{Str, str_eq}
use tqtk_price_streaming.Records.Floats.{Floats}
use tqtk_price_streaming.Records.Tick.{Tick}
use tqtk_price_streaming.Session.{Stream, FeedSession, next_seq, assign}
use tqtk_price_streaming.Session.Gapless.{
  current, count_of, current-next_seq, current-next_seq_self, next_seq-session_id,
}
use tqtk_price_streaming.Delivery.{stream_of}
use tqtk_price_streaming.Feed.Distributions.{Random}
use tqtk_price_streaming.Feed.Generator.{
  FeedError, rejected, sampling, arithmetic, sink_failed, pacing_raised, nan_wait, stopped,
  finished, failed, Conversion, Round, Ending, Task, provider, next_tick, next_quote,
  lift_validated, wants_more, pause,
}
use tqtk_price_streaming.Feed.Generator.Stream.{next_tick-Follows}
use tqtk_price_streaming.Feed.Concurrent.{
  Event, wakes, delivered, undelivered, Phase, waiting, publishing, ended, Advance, quiet,
  session_after, wake, rest, advance,
}

-- The stream of a symbol's task.
abbrev pub own : Str → Stream
own symbol = (provider, symbol)

own_apart : (a b : Str) → (a == b) ≡ false → (own a == own b) ≡ false
own_apart a b h = ground (arith, ==_iff (own a) (own b), ==_iff a b)

module _ (fl : Floats) (rng : Random fl) (conv : Conversion fl) where
  -- Against the session `v` that numbers the entries as they are added, a task's stream has the same
  -- counter, or is one ahead of it while its tick is at the sink.
  abbrev pub Standing : FeedSession → FeedSession → Str × Phase fl rng conv → Type 0
  Standing v s (symbol, waiting t) = current (own symbol) s ≡ current (own symbol) v
  Standing v s (symbol, publishing t tick) =
      (stream_of tick ≡ own symbol)
      × (tick.seq ≡ current (own symbol) v)
      × (tick.session_id ≡ s.session_id)
      × (current (own symbol) s ≡ current (own symbol) v + 1)
  Standing v s (symbol, ended e) = Unit

  -- The numbering session after an entry.
  abbrev pub after_entry : Option (Tick fl.Float) → FeedSession → FeedSession
  after_entry none v = v
  after_entry (some tick) v = (next_seq tick.provider tick.symbol v).0

  -- An entry has the number that the numbering session gives it.
  abbrev pub Numbered : FeedSession → FeedSession → Option (Tick fl.Float) → Type 0
  Numbered v s none = Unit
  Numbered v s (some tick) =
      (tick.seq ≡ current (stream_of tick) v) × (tick.session_id ≡ s.session_id)

  -- What one event of one task does.
  pub record Advances (v s : FeedSession) (symbol : Str) (a : Advance fl rng conv) : Type 0 where
    pub session_id : a.session.session_id ≡ s.session_id
    pub others :
        (j : Str)
        → (symbol == j) ≡ false
        → (current (own j) a.session ≡ current (own j) s)
          × (current (own j) (after_entry a.added v) ≡ current (own j) v)
    pub standing : Standing (after_entry a.added v) a.session (symbol, a.phase)
    pub numbered : Numbered v s a.added

  next_tick-session :
      (symbol : Str) (r : Round) (t : Task fl rng conv) {t' : Task fl rng conv}
      {tick : Tick fl.Float}
      → next_tick fl rng conv symbol r t ≡ ok (t', tick)
      → t'.session ≡ (next_seq provider symbol (assign r.others t.session).1).0
  unfolding next_tick
  next_tick-session symbol r t h =
      let (quote, _, h1) = >>=-eq-ok (next_quote fl rng conv t.walk) _ h in
      let (made, _, h2) = >>=-eq-ok (lift_validated fl rng conv _) _ h1 in ground (arith, h2)

  next_seq-others :
      (symbol j : Str) (s : FeedSession)
      → (symbol == j) ≡ false
      → current (own j) (next_seq provider symbol s).0 ≡ current (own j) s
  next_seq-others symbol j s h =
      rw (own_apart symbol j h) at (current-next_seq (own symbol) (own j) s)

  -- Nothing is added, and the task is at its end.
  ends-Advances :
      (v s s' : FeedSession) (symbol : Str) (e : Ending)
      → s'.session_id ≡ s.session_id
      → ((j : Str) → (symbol == j) ≡ false → current (own j) s' ≡ current (own j) s)
      → Advances v s symbol (quiet fl rng conv s' (ended e))
  unfolding quiet
  ends-Advances v s s' symbol e same apart = record {
    session_id = same;
    others = λ j h. (apart j h, refl);
    standing = tt;
    numbered = tt;
  }

  made-Advances :
      (v s : FeedSession) (symbol : Str) (r : Round) (t t' : Task fl rng conv)
      (tick : Tick fl.Float)
      → r.others ≡ []
      → t.session ≡ s
      → current (own symbol) s ≡ current (own symbol) v
      → next_tick fl rng conv symbol r t ≡ ok (t', tick)
      → Advances v s symbol (quiet fl rng conv t'.session (publishing t' tick))
  unfolding quiet count_of assign
  made-Advances v s symbol r t t' tick none_else shared standing h =
      let f = next_tick-Follows fl rng conv symbol r t h in
      let stream : stream_of tick ≡ own symbol = cc (f.provider_eq, f.symbol_eq) in
      let after : t'.session ≡ (next_seq provider symbol s).0 =
        rw none_else at (next_tick-session symbol r t h)
        ∙ ap (λ x. (next_seq provider symbol x).0) shared in
      let id : t.session.session_id ≡ s.session_id = cc (shared) in
      let counter : current (own symbol) t.session ≡ current (own symbol) s = cc (shared) in
      let seq : tick.seq ≡ current (own symbol) v =
        omega (arith, rw none_else at f.numbered, counter, standing) in
      record {
        session_id = f.same_session ∙ id;
        others = λ j e. (ap (current (own j)) after ∙ next_seq-others symbol j s e, refl);
        standing = (stream, seq, cc (f.session_id, f.same_session), cc (f.counted, seq));
        numbered = tt;
      }

  session_after-session :
      (symbol : Str) (e : FeedError) (s : FeedSession)
      → ((session_after fl rng conv symbol e s).session_id ≡ s.session_id)
        × ((j : Str)
            → (symbol == j) ≡ false
            → current (own j) (session_after fl rng conv symbol e s) ≡ current (own j) s)
  unfolding session_after
  session_after-session symbol rejected s =
      (next_seq-session_id (own symbol) s, λ j h. next_seq-others symbol j s h)
  session_after-session symbol (sampling e) s = (refl, λ j h. refl)
  session_after-session symbol (arithmetic e) s = (refl, λ j h. refl)
  session_after-session symbol sink_failed s = (refl, λ j h. refl)
  session_after-session symbol pacing_raised s = (refl, λ j h. refl)
  session_after-session symbol nan_wait s = (refl, λ j h. refl)

  -- The round that `wake` runs.
  abbrev round_of : Bool → ℕ → Round
  round_of stop clock = record { stop = stop; others = []; clock = clock; delivered = true }

  wake-Advances :
      (v s : FeedSession) (symbol : Str) (max_ticks : Option ℕ) (stop : Bool) (clock : ℕ)
      (t : Task fl rng conv)
      → current (own symbol) s ≡ current (own symbol) v
      → Advances v s symbol (wake fl rng conv symbol max_ticks stop clock s t)
  unfolding wake
  wake-Advances v s symbol max_ticks true clock t h =
      ends-Advances v s s symbol stopped refl (λ j e. refl)
  wake-Advances v s symbol max_ticks false clock t h =
      elim (Bool-cases (wants_more max_ticks t.published)) [
        | inl more ↦
            let here : Task fl rng conv = record t { session = s } in
            elim (Result-cases (next_tick fl rng conv symbol (round_of false clock) here)) [
              | inl ((t', tick), made) ↦
                  rw (more, made)
                    (made-Advances v s symbol (round_of false clock) here t' tick refl refl h made)
              | inr (e, raised) ↦
                  let (same, apart) = session_after-session symbol e s in
                  rw (more, raised)
                    (ends-Advances v s (session_after fl rng conv symbol e s) symbol (failed e) same
                      apart)
            ]
        | inr done ↦ rw done (ends-Advances v s s symbol finished refl (λ j e. refl))
      ]

  rest-Standing :
      (max_ticks : Option ℕ) (t : Task fl rng conv) (v s : FeedSession) (symbol : Str)
      → current (own symbol) s ≡ current (own symbol) v
      → Standing v s (symbol, rest fl rng conv max_ticks t)
  unfolding rest
  rest-Standing max_ticks t v s symbol h = elim (Bool-cases (wants_more max_ticks t.published)) [
    | inl more ↦ elim (Result-cases (pause fl rng conv max_ticks t)) [
      | inl (t', woken) ↦ rw (more, woken) h
      | inr (e, raised) ↦ rw (more, raised) tt
    ]
    | inr done ↦ rw done tt
  ]

  after_entry-others :
      (v : FeedSession) (symbol j : Str) (tick : Tick fl.Float)
      → stream_of tick ≡ own symbol
      → (symbol == j) ≡ false
      → current (own j) (after_entry (some tick) v) ≡ current (own j) v
  after_entry-others v symbol j tick stream h =
      subst (λ k. current (own j) (next_seq k.0 k.1 v).0 ≡ current (own j) v) (sym stream)
        (next_seq-others symbol j v h)

  after_entry-own :
      (v : FeedSession) (symbol : Str) (tick : Tick fl.Float)
      → stream_of tick ≡ own symbol
      → current (own symbol) (after_entry (some tick) v) ≡ current (own symbol) v + 1
  after_entry-own v symbol tick stream =
      subst (λ k. current (own symbol) (next_seq k.0 k.1 v).0 ≡ current (own symbol) v + 1)
        (sym stream) (current-next_seq_self (own symbol) v)

  pub advance-Advances :
      (v s : FeedSession) (symbol : Str) (max_ticks : Option ℕ) (event : Event)
      (phase : Phase fl rng conv)
      → Standing v s (symbol, phase)
      → Advances v s symbol (advance fl rng conv symbol max_ticks event s phase)
  unfolding advance quiet
  advance-Advances v s symbol max_ticks (wakes stop clock) (waiting t) h =
      wake-Advances v s symbol max_ticks stop clock t h
  advance-Advances v s symbol max_ticks delivered (publishing t tick) (stream, seq, id, ahead) =
      record {
        session_id = refl;
        others = λ j e. (refl, after_entry-others v symbol j tick stream e);
        standing =
            rest-Standing max_ticks t (after_entry (some tick) v) s symbol
              (ahead ∙ sym (after_entry-own v symbol tick stream));
        numbered = (cc (seq, stream), id);
      }
  advance-Advances v s symbol max_ticks (undelivered true) (publishing t tick)
        (stream, seq, id, _) =
      record {
        session_id = refl;
        others = λ j e. (refl, after_entry-others v symbol j tick stream e);
        standing = tt;
        numbered = (cc (seq, stream), id);
      }
  advance-Advances v s symbol max_ticks (undelivered false) (publishing t tick) h = record {
    session_id = refl;
    others = λ j e. (refl, refl);
    standing = tt;
    numbered = tt;
  }
  advance-Advances v s symbol max_ticks (wakes stop clock) (publishing t tick) h = record {
    session_id = refl;
    others = λ j e. (refl, refl);
    standing = h;
    numbered = tt;
  }
  advance-Advances v s symbol max_ticks (wakes stop clock) (ended e) h = record {
    session_id = refl;
    others = λ j e. (refl, refl);
    standing = tt;
    numbered = tt;
  }
  advance-Advances v s symbol max_ticks delivered (waiting t) h = record {
    session_id = refl;
    others = λ j e. (refl, refl);
    standing = h;
    numbered = tt;
  }
  advance-Advances v s symbol max_ticks delivered (ended e) h = record {
    session_id = refl;
    others = λ j e. (refl, refl);
    standing = tt;
    numbered = tt;
  }
  advance-Advances v s symbol max_ticks (undelivered added) (waiting t) h = record {
    session_id = refl;
    others = λ j e. (refl, refl);
    standing = h;
    numbered = tt;
  }
  advance-Advances v s symbol max_ticks (undelivered added) (ended e) h = record {
    session_id = refl;
    others = λ j e. (refl, refl);
    standing = tt;
    numbered = tt;
  }
