-- ===== src/Feed/Concurrent/Moves.antt =====
-- generator.py: what the events of a run do to the tasks and to the entries.
use tqtk_price_streaming.Prelude.{
  ℕ, zero, suc, ◌≡◌, refl, sym, subst, ap, ◌∙◌, true, false, Option, none, some, List, [], ◌∷◌, All,
  map, ◌==◌, ==_iff, arith,
}
use tqtk_price_streaming.Prelude.Text.{Str, str_eq}
use tqtk_price_streaming.Prelude.Sorting.{contains, AllDistinct}
use tqtk_price_streaming.Records.Floats.{Floats}
use tqtk_price_streaming.Records.Tick.{Tick}
use tqtk_price_streaming.Session.{FeedSession, assign}
use tqtk_price_streaming.Session.Gapless.{current, next_seq-current, next_seq-session_id}
use tqtk_price_streaming.Delivery.{stream_of}
use tqtk_price_streaming.Delivery.EndToEnd.{Carries}
use tqtk_price_streaming.Feed.Distributions.{Random}
use tqtk_price_streaming.Feed.Generator.{Conversion}
use tqtk_price_streaming.Feed.Concurrent.{Event, Phase, Tasks, advance_at, entry, gather}
use tqtk_price_streaming.Feed.Concurrent.Numbering.{
  own, Standing, after_entry, Numbered, advance-Advances,
}

module _ (fl : Floats) (rng : Random fl) (conv : Conversion fl) where
  abbrev pub names_of : Tasks fl rng conv → List Str
  names_of = map (λ t. t.0)

  unfoldable pub AllStanding : FeedSession → FeedSession → Tasks fl rng conv → Type 0
  AllStanding v s = All (Standing fl rng conv v s)

  -- What one event does to all of the tasks.
  record Moves (v s s' : FeedSession) (tasks tasks' : Tasks fl rng conv)
      (added : Option (Tick fl.Float)) : Type 0 where
    names : names_of tasks' ≡ names_of tasks
    session_id : s'.session_id ≡ s.session_id
    others :
        (j : Str)
        → contains j (names_of tasks) ≡ false
        → (current (own j) s' ≡ current (own j) s)
          × (current (own j) (after_entry fl rng conv added v) ≡ current (own j) v)
    standing : AllStanding (after_entry fl rng conv added v) s' tasks'
    numbered : Numbered fl rng conv v s added

  -- A task stands as before where the counters of its stream are as before.
  Standing-kept :
      (v v' s s' : FeedSession) (symbol : Str) (phase : Phase fl rng conv)
      → s'.session_id ≡ s.session_id
      → current (own symbol) s' ≡ current (own symbol) s
      → current (own symbol) v' ≡ current (own symbol) v
      → Standing fl rng conv v s (symbol, phase)
      → Standing fl rng conv v' s' (symbol, phase)
  Standing-kept v v' s s' symbol (Phase.waiting t) id cs cv h = cc
  Standing-kept v v' s s' symbol (Phase.publishing t tick) id cs cv (a, b, c, d) = (a, cc, cc, cc)
  Standing-kept v v' s s' symbol (Phase.ended e) id cs cv h = tt

  AllStanding-kept :
      (v v' s s' : FeedSession) (tasks : Tasks fl rng conv)
      → s'.session_id ≡ s.session_id
      → ((j : Str)
          → contains j (names_of tasks) ≡ true
          → (current (own j) s' ≡ current (own j) s) × (current (own j) v' ≡ current (own j) v))
      → AllStanding v s tasks
      → AllStanding v' s' tasks
  unfolding AllStanding contains
  AllStanding-kept v v' s s' [] id kept h = tt
  AllStanding-kept v v' s s' ((symbol, phase) ∷ tasks) id kept h =
      let (cs, cv) = kept symbol (ground (arith, ==_iff symbol symbol)) in
      (
        Standing-kept v v' s s' symbol phase id cs cv h.0,
        AllStanding-kept v v' s s' tasks id (λ j m. kept j (ground arith)) h.1,
      )

  apart_of_contains :
      (a b : Str) (xs : List Str) → contains a xs ≡ false → contains b xs ≡ true → (a == b) ≡ false
  unfolding contains
  apart_of_contains a b [] h k = cc
  apart_of_contains a b (x ∷ xs) h k =
      ground (arith, apart_of_contains a b xs, ==_iff x a, ==_iff x b, ==_iff a b)

  advance_at-Moves :
      (v s : FeedSession) (max_ticks : Option ℕ) (n : ℕ) (event : Event) (tasks : Tasks fl rng conv)
      → AllDistinct (names_of tasks)
      → AllStanding v s tasks
      → Moves v s
          (advance_at fl rng conv max_ticks n event s tasks).0
          tasks
          (advance_at fl rng conv max_ticks n event s tasks).1
          (advance_at fl rng conv max_ticks n event s tasks).2
  unfolding advance_at AllStanding contains
  advance_at-Moves v s max_ticks n event [] distinct h = record {
    names = refl;
    session_id = refl;
    others = λ j e. (refl, refl);
    standing = tt;
    numbered = tt;
  }
  advance_at-Moves v s max_ticks zero event ((symbol, phase) ∷ tasks) distinct h =
      let a = advance-Advances fl rng conv v s symbol max_ticks event phase h.0 in
      record {
        names = refl;
        session_id = a.session_id;
        others = λ j e. a.others j (ground arith);
        standing = (
          a.standing,
          AllStanding-kept v _ s _ tasks a.session_id
              (λ j m. a.others j (apart_of_contains symbol j (names_of tasks) distinct.0 m)) h.1,
        );
        numbered = a.numbered;
      }
  advance_at-Moves v s max_ticks (suc n) event ((symbol, phase) ∷ tasks) distinct h =
      let m = advance_at-Moves v s max_ticks n event tasks distinct.1 h.1 in
      let (cs, cv) = m.others symbol distinct.0 in
      record {
        names = ap (◌∷◌ symbol) m.names;
        session_id = m.session_id;
        others = λ j e. m.others j (ground arith);
        standing = (Standing-kept v _ s _ symbol phase m.session_id cs cv h.0, m.standing);
        numbered = m.numbered;
      }

  -- The entries are numbered as one session numbers calls in the order of the entries.
  pub gather-Carries :
      (v s : FeedSession) (max_ticks : Option ℕ) (events : List (ℕ × Event))
      (tasks : Tasks fl rng conv)
      → v.session_id ≡ s.session_id
      → AllDistinct (names_of tasks)
      → AllStanding v s tasks
      → Carries v.session_id
          (gather fl rng conv max_ticks events s tasks)
          (assign (map stream_of (gather fl rng conv max_ticks events s tasks)) v).0
  unfolding gather assign
  gather-Carries v s max_ticks [] tasks id distinct h = tt
  gather-Carries v s max_ticks ((n, event) ∷ events) tasks id distinct h =
      let moved = advance_at fl rng conv max_ticks n event s tasks in
      let m = advance_at-Moves v s max_ticks n event tasks distinct h in
      let distinct' : AllDistinct (names_of moved.1) = subst AllDistinct (sym m.names) distinct in
      enter moved.2 _ m.numbered (
        gather-Carries (after_entry fl rng conv moved.2 v) moved.0 max_ticks events moved.1
          (after_id moved.2 ∙ id ∙ sym m.session_id) distinct' m.standing)
    where
      after_id :
          (added : Option (Tick fl.Float))
          → (after_entry fl rng conv added v).session_id ≡ v.session_id
      after_id none = refl
      after_id (some tick) = next_seq-session_id (stream_of tick) v

      enter :
          (added : Option (Tick fl.Float)) (ticks : List (Tick fl.Float))
          → Numbered fl rng conv v s added
          → Carries
              (after_entry fl rng conv added v).session_id
              ticks
              (assign (map stream_of ticks) (after_entry fl rng conv added v)).0
          → Carries v.session_id
              (entry fl rng conv added ticks)
              (assign (map stream_of (entry fl rng conv added ticks)) v).0
      enter none ticks numbered c = c
      enter (some tick) ticks (seq, own_id) c = (
        refl,
        cc (seq, next_seq-current (stream_of tick) v),
        cc (own_id, id),
        subst
            (λ i.
              Carries i ticks
                (assign (map stream_of ticks) (after_entry fl rng conv (some tick) v)).0)
            (after_id (some tick)) c,
      )
