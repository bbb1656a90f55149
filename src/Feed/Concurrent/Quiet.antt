-- ===== src/Feed/Concurrent/Quiet.antt =====
-- generator.py, session.py and delivery.py together: a consumer that reads the entries of a whole run.
use tqtk_price_streaming.Prelude.{
  ℕ, ◌≡◌, refl, sym, subst, false, Option, none, some, List, [], ◌∷◌, All, map, ok, >>=-eq-ok,
  Option-cases, inl, inr, arith,
}
use tqtk_price_streaming.Prelude.Text.{Str, str_eq}
use tqtk_price_streaming.Prelude.Int.{ℤ}
use tqtk_price_streaming.Prelude.Dict.{Dict, get}
use tqtk_price_streaming.Prelude.Sorting.{contains, AllDistinct}
use tqtk_price_streaming.Records.Floats.{Floats}
use tqtk_price_streaming.Records.Tick.{Tick}
use tqtk_price_streaming.Session.{FeedSession}
use tqtk_price_streaming.Delivery.{DeliveryTracker, stream_of, observe_all}
use tqtk_price_streaming.Delivery.EndToEnd.{IsQuiet, Synced, no_alarm}
use tqtk_price_streaming.Feed.Distributions.{Random}
use tqtk_price_streaming.Feed.Generator.{Conversion, SymbolCalibration, new_walk}
use tqtk_price_streaming.Feed.Concurrent.{
  Hashing, Event, derive_symbol_seed, check_symbols, Tasks, gather, start_task, start_tasks,
  run_synthetic_feed,
}
use tqtk_price_streaming.Feed.Concurrent.Moves.{names_of, AllStanding, gather-Carries}

module _ (fl : Floats) (rng : Random fl) (conv : Conversion fl) where
  module _ (session : FeedSession) (pacing_multiplier : fl.Float) (seeded : Str → rng.State)
      (calibrations : Dict Str (SymbolCalibration fl.Float)) where
    started : List Str → Tasks fl rng conv
    started = start_tasks fl rng conv session pacing_multiplier seeded calibrations

    started_nil : started [] ≡ []
    unfolding started start_tasks
    started_nil = refl

    started-none :
        (symbol : Str) (symbols : List Str)
        → get symbol calibrations ≡ none
        → started (symbol ∷ symbols) ≡ started symbols
    unfolding started start_tasks
    started-none symbol symbols h = rw (h, started, start_tasks) refl

    started-some :
        (symbol : Str) (symbols : List Str) (c : SymbolCalibration fl.Float)
        → get symbol calibrations ≡ some c
        → started (symbol ∷ symbols)
          ≡ start_task fl rng conv session pacing_multiplier seeded symbol c ∷ started symbols
    unfolding started start_tasks start_task new_walk
    started-some symbol symbols c h = rw (h, started, start_tasks) refl

    started-absent :
        (j : Str) (symbols : List Str)
        → contains j symbols ≡ false
        → contains j (names_of fl rng conv (started symbols)) ≡ false
    unfolding contains start_task
    started-absent j [] h =
        subst (λ ts. contains j (names_of fl rng conv ts) ≡ false) (sym started_nil) refl
    started-absent j (symbol ∷ symbols) h = elim (Option-cases (get symbol calibrations)) [
      | inl none_held ↦
          subst (λ ts. contains j (names_of fl rng conv ts) ≡ false)
            (sym (started-none symbol symbols none_held)) (started-absent j symbols (ground arith))
      | inr (c, held) ↦
          subst (λ ts. contains j (names_of fl rng conv ts) ≡ false)
            (sym (started-some symbol symbols c held)) (ground (arith, started-absent j symbols))
    ]

    started-AllDistinct :
        (symbols : List Str)
        → AllDistinct symbols
        → AllDistinct (names_of fl rng conv (started symbols))
    unfolding start_task
    started-AllDistinct [] h =
        subst (λ ts. AllDistinct (names_of fl rng conv ts)) (sym started_nil) tt
    started-AllDistinct (symbol ∷ symbols) h = elim (Option-cases (get symbol calibrations)) [
      | inl none_held ↦
          subst (λ ts. AllDistinct (names_of fl rng conv ts))
            (sym (started-none symbol symbols none_held)) (started-AllDistinct symbols h.1)
      | inr (c, held) ↦
          subst (λ ts. AllDistinct (names_of fl rng conv ts))
            (sym (started-some symbol symbols c held))
            (started-absent symbol symbols h.0, started-AllDistinct symbols h.1)
    ]

    started-AllStanding :
        (symbols : List Str) → AllStanding fl rng conv session session (started symbols)
    unfolding start_task AllStanding
    started-AllStanding [] = subst (AllStanding fl rng conv session session) (sym started_nil) tt
    started-AllStanding (symbol ∷ symbols) = elim (Option-cases (get symbol calibrations)) [
      | inl none_held ↦
          subst (AllStanding fl rng conv session session)
            (sym (started-none symbol symbols none_held)) (started-AllStanding symbols)
      | inr (c, held) ↦
          subst (AllStanding fl rng conv session session) (sym (started-some symbol symbols c held))
            (refl, started-AllStanding symbols)
    ]

  -- For distinct symbols, whatever the order of the events of their tasks and whichever of them
  -- fail, a consumer whose marks agree with the shared session's counters at the start and that
  -- reads all entries in the order in which they are added is given no gap, no duplicate and no
  -- missing record.
  pub feed_no_alarm :
      (symbols : List Str) (pacing_multiplier : fl.Float)
      (calibrations : Dict Str (SymbolCalibration fl.Float)) (session : FeedSession)
      (seeds : Option ℕ → rng.State) (hashing : Hashing) (seed : Option ℤ) (max_ticks : Option ℕ)
      (events : List (ℕ × Event)) (tracker : DeliveryTracker) {entries : List (Tick fl.Float)}
      → AllDistinct symbols
      → Synced session tracker
      → run_synthetic_feed fl rng conv symbols pacing_multiplier calibrations session seeds hashing
          seed max_ticks events
        ≡ ok entries
      → All IsQuiet (observe_all entries tracker).1
  unfolding run_synthetic_feed started
  feed_no_alarm symbols pacing_multiplier calibrations session seeds hashing seed max_ticks events
        tracker {entries = entries} distinct synced h =
      let seeded = λ (symbol : Str). seeds (derive_symbol_seed hashing seed symbol) in
      let tasks = start_tasks fl rng conv session pacing_multiplier seeded calibrations symbols in
      let (_, _, made) = >>=-eq-ok (check_symbols symbols _) _ h in
      let same : gather fl rng conv max_ticks events session tasks ≡ entries = ground arith in
      let carries =
        gather-Carries fl rng conv session session max_ticks events tasks refl
          (started-AllDistinct session pacing_multiplier seeded calibrations symbols distinct)
          (started-AllStanding session pacing_multiplier seeded calibrations symbols) in
      subst (λ ts. All IsQuiet (observe_all ts tracker).1) same
        (no_alarm (map stream_of (gather fl rng conv max_ticks events session tasks)) session _
          tracker carries synced)
