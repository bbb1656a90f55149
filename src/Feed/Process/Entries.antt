-- ===== src/Feed/Process/Entries.antt =====
-- __main__.py: the entries that the acts of a run add.
use tqtk_price_streaming.Prelude.{
  ◌≡◌, refl, sym, subst, ap, ◌∙◌, Bool, true, false, List, [], ◌∷◌, ◌++◌, All, map, Result-cases,
  inl, inr, if◌then◌else◌,
}
use mathlib.Core.List.{append-nil}
use tqtk_price_streaming.Prelude.Text.{str_eq}
use tqtk_price_streaming.Records.Tick.{Tick}
use tqtk_price_streaming.Runtime.Readiness.{Readiness, mark_connected}
use tqtk_price_streaming.Runtime.Lifecycle as Lifecycle
use tqtk_price_streaming.Feed.Process.Waiting.{wait_for_redis-ind}
use tqtk_price_streaming.Feed.Process.Replay.{connect-ok, connect-err}
use tqtk_price_streaming.Feed.Process.{
  Attempt, Act, retried, marked, notified, served, error_logged, fed, client_closed, Waited,
  redis_dependency, connect, wait_for_redis,
}

module _ (F : Type 0) where
  -- The entries that a run adds.
  unfoldable pub entries_of : List (Act F) → List (Tick F)
  entries_of [] = []
  entries_of (fed ticks ∷ acts) = ticks ++ entries_of acts
  entries_of (_ ∷ acts) = entries_of acts

  -- An act that adds no entries.
  abbrev pub IsSilent : Act F → Type 0
  IsSilent (fed ticks) = ⊥
  IsSilent _ = Unit

  pub entries_of-silent :
      (xs ys : List (Act F)) → All IsSilent xs → entries_of (xs ++ ys) ≡ entries_of ys
  unfolding entries_of
  entries_of-silent [] ys h = refl
  entries_of-silent (retried ∷ xs) ys h = entries_of-silent xs ys h.1
  entries_of-silent (marked d ∷ xs) ys h = entries_of-silent xs ys h.1
  entries_of-silent (notified ∷ xs) ys h = entries_of-silent xs ys h.1
  entries_of-silent (served e ∷ xs) ys h = entries_of-silent xs ys h.1
  entries_of-silent (error_logged e ∷ xs) ys h = entries_of-silent xs ys h.1
  entries_of-silent (fed ts ∷ xs) ys h = absurd h.0
  entries_of-silent (client_closed ∷ xs) ys h = entries_of-silent xs ys h.1

  pub entries_of-then_silent :
      (xs ys : List (Act F)) → All IsSilent ys → entries_of (xs ++ ys) ≡ entries_of xs
  unfolding entries_of
  entries_of-then_silent [] ys h = ap entries_of (sym (append-nil ys)) ∙ entries_of-silent ys [] h
  entries_of-then_silent (fed ts ∷ xs) ys h = ap (λ es. ts ++ es) (entries_of-then_silent xs ys h)
  entries_of-then_silent (retried ∷ xs) ys h = entries_of-then_silent xs ys h
  entries_of-then_silent (marked d ∷ xs) ys h = entries_of-then_silent xs ys h
  entries_of-then_silent (notified ∷ xs) ys h = entries_of-then_silent xs ys h
  entries_of-then_silent (served e ∷ xs) ys h = entries_of-then_silent xs ys h
  entries_of-then_silent (error_logged e ∷ xs) ys h = entries_of-then_silent xs ys h
  entries_of-then_silent (client_closed ∷ xs) ys h = entries_of-then_silent xs ys h

  pub silent-nil : (xs : List (Act F)) → All IsSilent xs → entries_of xs ≡ []
  unfolding entries_of
  silent-nil xs h = ap entries_of (sym (append-nil xs)) ∙ entries_of-silent xs [] h

  pub served-IsSilent : (es : List Lifecycle.Event) → All IsSilent (map served es)
  served-IsSilent [] = tt
  served-IsSilent (e ∷ es) = (tt, served-IsSilent es)

  connect-IsSilent :
      (notifies : Bool) (readiness : Readiness) → All IsSilent (connect notifies readiness).0
  connect-IsSilent notifies readiness =
      elim (Result-cases (mark_connected redis_dependency readiness)) [
        | inl ((r', log), h) ↦
            subst (λ (o : List (Act F) × Waited). All IsSilent o.0)
              (sym (connect-ok notifies readiness r' log h)) (by_notifies notifies)
        | inr (e, h) ↦
            subst (λ (o : List (Act F) × Waited). All IsSilent o.0)
              (sym (connect-err notifies readiness e h)) tt
      ]
    where
      by_notifies :
          (b : Bool) → All IsSilent (marked redis_dependency ∷ (if b then notified ∷ [] else []))
      by_notifies true = (tt, (tt, tt))
      by_notifies false = (tt, tt)

  pub wait_for_redis-IsSilent :
      (notifies : Bool) (attempts : List Attempt) (readiness : Readiness)
      → All IsSilent (wait_for_redis notifies attempts readiness).0
  wait_for_redis-IsSilent notifies attempts readiness =
      wait_for_redis-ind (λ (o : List (Act F) × Waited). All IsSilent o.0) notifies readiness tt tt
        tt (connect-IsSilent notifies readiness) (λ o h. (tt, h)) attempts
