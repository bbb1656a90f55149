-- ===== src/Runtime/Readiness/Log.antt =====
-- server.py: the INFO lines of a `Readiness`.
use tqtk_price_streaming.Prelude.{
  ◌⊎◌, ◌≡◌, refl, ap, ◌∙◌, Bool, true, false, not, Option, none, some, List, [], ◌∷◌, ◌++◌, ◌==◌,
  ==_iff, ok, err, Option-cases, Bool-cases, inl, inr, arith, if◌then◌else◌,
}
use tqtk_price_streaming.Prelude.Text.{Str, str_eq}
use tqtk_price_streaming.Prelude.Dict.{get, get-put}
use tqtk_price_streaming.Runtime.Readiness.{Readiness, Transition, set_state, differs}
use tqtk_price_streaming.Runtime.Readiness.Reports.{Mark, after, run}

unfoldable pub logged : Mark → Readiness → List Transition
logged m r = elim (set_state m.0 m.1 r) [ ok (_, lines) ↦ lines | err _ ↦ [] ]

-- All that a sequence of marks logs, in order.
unfoldable pub run_log : List Mark → Readiness → List Transition
unfolding logged after
run_log [] r = []
run_log (m ∷ marks) r = logged m r ++ run_log marks (after m r)

-- What a reader of the log knows of a dependency.
unfoldable pub replay : Str → List Transition → Option Bool → Option Bool
replay d [] known = known
replay d (t ∷ lines) known = replay d lines (if t.dependency == d then some t.connected else known)

replay-append :
    (d : Str) (xs ys : List Transition) (known : Option Bool)
    → replay d (xs ++ ys) known ≡ replay d ys (replay d xs known)
unfolding replay
replay-append d [] ys known = refl
replay-append d (t ∷ xs) ys known = replay-append d xs ys _

after-logged :
    (d : Str) (m : Mark) (r : Readiness)
    → get d (after m r).connected ≡ replay d (logged m r) (get d r.connected)
unfolding after logged set_state replay differs
after-logged d m r = ground (arith, get-put m.0 d m.1 r.connected, ==_iff m.0 d)

-- The logged transitions alone give each dependency's state at the end from its state at the
-- start.
run-replay :
    (d : Str) (marks : List Mark) (r : Readiness)
    → get d (run marks r).connected ≡ replay d (run_log marks r) (get d r.connected)
unfolding run run_log replay
run-replay d [] r = refl
run-replay d (m ∷ marks) r =
    run-replay d marks (after m r)
    ∙ cc (
      after-logged d m r,
      replay-append d (logged m r) (run_log marks (after m r)) (get d r.connected),
    )

-- Each line tells of a change, given what the lines before it told.
data IsChange (d : Str) : Option Bool → List Transition → Type 0 where
  done : {known : Option Bool} → IsChange d known []
  other :
      {known : Option Bool} {t : Transition} {lines : List Transition}
      → (t.dependency == d) ≡ false
      → IsChange d known lines
      → IsChange d known (t ∷ lines)
  change :
      {known : Option Bool} {t : Transition} {lines : List Transition}
      → (t.dependency == d) ≡ true
      → known ≡ some (not t.connected)
      → IsChange d (some t.connected) lines
      → IsChange d known (t ∷ lines)

-- The lines of one call, by what the dictionary held and whether it changes.
logged-none : (m : Mark) (r : Readiness) → get m.0 r.connected ≡ none → logged m r ≡ []
unfolding logged set_state
logged-none m r h = ground arith

logged-same : (m : Mark) (r : Readiness) → get m.0 r.connected ≡ some m.1 → logged m r ≡ []
unfolding logged set_state differs
logged-same m r h = ground arith

logged-change :
    (m : Mark) (r : Readiness)
    → get m.0 r.connected ≡ some (not m.1)
    → logged m r ≡ record { dependency = m.0; connected = m.1 } ∷ []
unfolding logged set_state differs
logged-change m r h = ground arith

get-after :
    (d : Str) (m : Mark) (r : Readiness) {old : Bool}
    → get m.0 r.connected ≡ some old
    → get d (after m r).connected ≡ (if m.0 == d then some m.1 else get d r.connected)
unfolding after set_state
get-after d m r h = ground (arith, get-put m.0 d m.1 r.connected, ==_iff m.0 d)

get-after_undeclared :
    (d : Str) (m : Mark) (r : Readiness)
    → get m.0 r.connected ≡ none
    → get d (after m r).connected ≡ get d r.connected
unfolding after set_state
get-after_undeclared d m r h = ground arith

get-after_same :
    (d : Str) (m : Mark) (r : Readiness)
    → get m.0 r.connected ≡ some m.1
    → get d (after m r).connected ≡ get d r.connected
get-after_same d m r e = ground (arith, get-after d m r e, ==_iff m.0 d)

Bool-same_or_not : (a b : Bool) → (a ≡ b) ⊎ (a ≡ not b)
Bool-same_or_not true true = inl refl
Bool-same_or_not true false = inr refl
Bool-same_or_not false true = inr refl
Bool-same_or_not false false = inl refl

logged-IsChange :
    (d : Str) (m : Mark) (r : Readiness) (lines : List Transition)
    → IsChange d (get d (after m r).connected) lines
    → IsChange d (get d r.connected) (logged m r ++ lines)
logged-IsChange d m r lines c = elim (Option-cases (get m.0 r.connected)) [
  | inl e ↦ rw (logged-none m r e) (rw (get-after_undeclared d m r e) at c)
  | inr (old, e) ↦ elim (Bool-same_or_not old m.1) [
    | inl same ↦
        rw (logged-same m r (e ∙ ap some same)) (rw (get-after_same d m r (e ∙ ap some same)) at c)
    | inr differ ↦ rw (logged-change m r (e ∙ ap some differ)) (elim (Bool-cases (m.0 == d)) [
      | inl here ↦
          change here (cc ((==_iff m.0 d).0 here, e, differ)) (rw (get-after d m r e, here) at c)
      | inr away ↦ other away (rw (get-after d m r e, away) at c)
    ])
  ]
]

-- Each logged transition of a dependency differs from the state that the log gave for it
-- before.
run-IsChange :
    (d : Str) (marks : List Mark) (r : Readiness) → IsChange d (get d r.connected) (run_log marks r)
unfolding run_log
run-IsChange d [] r = done
run-IsChange d (m ∷ marks) r =
    logged-IsChange d m r (run_log marks (after m r)) (run-IsChange d marks (after m r))
