-- ===== src/Runtime/Readiness/Reports.antt =====
-- server.py: what a `Readiness` reports after a sequence of marks.
use tqtk_price_streaming.Prelude.{
  All, ◌↔◌, ◌≡◌, refl, ap, ◌∙◌, Bool, true, false, not, ◌&&◌, none, some, List, [], ◌∷◌, map, any,
  ◌==◌, ==_iff, ok, err, Option-cases, Bool-cases, inl, inr, arith, if◌then◌else◌,
}
use tqtk_price_streaming.Prelude.Text.{Str, str_eq}
use tqtk_price_streaming.Prelude.Dict.{Dict, get, put}
use tqtk_price_streaming.Runtime.Readiness.{
  Readiness, construct, has_duplicates, set_state, is_ready, all_true,
}

-- The calls of `mark_connected` (true) and `mark_disconnected` (false), in the order in which they
-- take the lock. A call that raises changes nothing.
abbrev pub Mark : Type 0
Mark = Str × Bool

unfoldable pub after : Mark → Readiness → Readiness
after m r = elim (set_state m.0 m.1 r) [ ok (r', _) ↦ r' | err _ ↦ r ]

unfoldable pub run : List Mark → Readiness → Readiness
unfolding after
run [] r = r
run (m ∷ marks) r = run marks (after m r)

-- The last mark of a dependency, from what it was before.
unfoldable pub last_mark : Str → List Mark → Bool → Bool
last_mark d [] b = b
last_mark d (m ∷ marks) b = last_mark d marks (if m.0 == d then m.1 else b)

-- A dictionary that pairs each dependency with its last mark.
unfoldable pub report : List Mark → Dict Str Bool → Dict Str Bool
report marks [] = []
report marks ((d, b) ∷ rest) = (d, last_mark d marks b) ∷ report marks rest

-- No key stands twice.
unfoldable pub lacks : Str → Dict Str Bool → Bool
lacks k [] = true
lacks k ((j, _) ∷ d) = not (j == k) && lacks k d

unfoldable pub distinct : Dict Str Bool → Bool
unfolding lacks
distinct [] = true
distinct ((j, _) ∷ d) = lacks j d && distinct d

after-eq :
    (m : Mark) (r : Readiness)
    → (after m r).connected ≡ elim (get m.0 r.connected) as (λ _. Dict Str Bool) [
      | none ↦ r.connected
      | some _ ↦ put m.0 m.1 r.connected
    ]
unfolding after set_state
after-eq m r = ground arith

lacks-get : (k : Str) (d : Dict Str Bool) → lacks k d ≡ true → get k d ≡ none
unfolding lacks get
lacks-get k [] h = refl
lacks-get k ((j, b) ∷ d) h = ground (arith, lacks-get k d)

-- A mark of an undeclared name leaves the report as it was.
report-undeclared :
    (m : Mark) (marks : List Mark) (d : Dict Str Bool)
    → get m.0 d ≡ none
    → report marks d ≡ report (m ∷ marks) d
unfolding report last_mark get
report-undeclared m marks [] h = refl
report-undeclared m marks ((j, b) ∷ d) h =
    ground (arith, report-undeclared m marks d, ==_iff j m.0, ==_iff m.0 j)

report-put :
    (m : Mark) (marks : List Mark) (d : Dict Str Bool) {old : Bool}
    → distinct d ≡ true
    → get m.0 d ≡ some old
    → report marks (put m.0 m.1 d) ≡ report (m ∷ marks) d
unfolding report last_mark get put distinct
report-put m marks [] u h = cc
report-put m marks ((j, b) ∷ d) {old} u h = elim (Bool-cases (j == m.0)) [
  | inl here ↦
      let e : j ≡ m.0 = (==_iff j m.0).0 here in
      let gone : get m.0 d ≡ none = lacks-get m.0 d (ground (arith, ap (λ k. lacks k d) e)) in
      ground (arith, report-undeclared m marks d gone, ==_iff m.0 j, e)
  | inr other ↦ ground (arith, report-put m marks d {old = old}, ==_iff m.0 j, ==_iff j m.0)
]

lacks-put :
    (j k : Str) (v : Bool) (d : Dict Str Bool) {old : Bool}
    → get k d ≡ some old
    → lacks j (put k v d) ≡ lacks j d
unfolding lacks get put
lacks-put j k v [] h = cc
lacks-put j k v ((i, b) ∷ d) {old} h = ground (arith, lacks-put j k v d {old = old})

distinct-put :
    (k : Str) (v : Bool) (d : Dict Str Bool) {old : Bool}
    → get k d ≡ some old
    → distinct (put k v d) ≡ distinct d
unfolding distinct get put
distinct-put k v [] h = cc
distinct-put k v ((i, b) ∷ d) {old} h =
    ground (arith, distinct-put k v d {old = old}, lacks-put i k v d {old = old})

report-nil : (d : Dict Str Bool) → d ≡ report [] d
unfolding report last_mark
report-nil [] = refl
report-nil ((j, b) ∷ d) = ap (◌∷◌ (j, b)) (report-nil d)

run-report :
    (marks : List Mark) (r : Readiness)
    → distinct r.connected ≡ true
    → (run marks r).connected ≡ report marks r.connected
unfolding run
run-report [] r u = report-nil r.connected
run-report (m ∷ marks) r u = elim (Option-cases (get m.0 r.connected)) [
  | inl undeclared ↦
      let same = rw undeclared at (after-eq m r) in
      run-report marks (after m r) (cc (same, u))
      ∙ cc (same, report-undeclared m marks r.connected undeclared)
  | inr (old, declared) ↦
      let new = rw declared at (after-eq m r) in
      run-report marks (after m r) (cc (new, u, distinct-put m.0 m.1 r.connected declared))
      ∙ cc (new, report-put m marks r.connected u declared)
]

any-lacks :
    (x : Str) (xs : List Str)
    → any (λ y. y == x) xs ≡ false
    → lacks x (map (λ d. (d, false)) xs) ≡ true
unfolding any lacks
any-lacks x [] h = refl
any-lacks x (y ∷ xs) h = ground (arith, any-lacks x xs)

distinct-fromkeys :
    (xs : List Str) → has_duplicates xs ≡ false → distinct (map (λ d. (d, false)) xs) ≡ true
unfolding has_duplicates distinct
distinct-fromkeys [] h = refl
distinct-fromkeys (x ∷ xs) h = ground (arith, distinct-fromkeys xs, any-lacks x xs)

-- Each declared dependency, in order, with the last mark that names it; without one, false.
unfoldable pub last_marks : List Mark → List Str → Dict Str Bool
last_marks marks [] = []
last_marks marks (d ∷ deps) = (d, last_mark d marks false) ∷ last_marks marks deps

report-fromkeys :
    (marks : List Mark) (deps : List Str)
    → report marks (map (λ d. (d, false)) deps) ≡ last_marks marks deps
unfolding report last_marks
report-fromkeys marks [] = refl
report-fromkeys marks (d ∷ deps) =
    ap (◌∷◌ (d, last_mark d marks false)) (report-fromkeys marks deps)

-- After any sequence of marks, undeclared names among them, a constructed readiness reports
-- each declared dependency, in order, with the last mark that names it, and as disconnected if
-- none does.
pub run-last_marks :
    (deps : List Str) (marks : List Mark) {r : Readiness}
    → construct deps ≡ ok r
    → (run marks r).connected ≡ last_marks marks deps
unfolding construct
run-last_marks deps marks {r} h = elim (Bool-cases (has_duplicates deps)) [
  | inl twice ↦ absurd (ground (arith))
  | inr once ↦
      let made : r.connected ≡ map (λ d. (d, false)) deps = ground arith in
      run-report marks r (cc (made, distinct-fromkeys deps once))
      ∙ cc (made, report-fromkeys marks deps)
]

-- Every declared dependency was marked, and last as connected.
abbrev pub AllConnected : List Mark → List Str → Type 0
AllConnected marks = All (λ d. last_mark d marks false ≡ true)

all_true-last_marks :
    (marks : List Mark) (deps : List Str)
    → (all_true (last_marks marks deps) ≡ true) ↔ AllConnected marks deps
unfolding all_true last_marks
all_true-last_marks marks [] = (λ _. tt, λ _. refl)
all_true-last_marks marks (d ∷ deps) = (
  λ h. (ground arith, (all_true-last_marks marks deps).0 (ground arith)),
  λ h. ground (arith, h.0, (all_true-last_marks marks deps).1 h.1),
)

-- After any sequence of marks, a constructed readiness is ready exactly when the last mark of
-- each declared dependency was a connection.
pub is_ready_iff :
    (deps : List Str) (marks : List Mark) {r : Readiness}
    → construct deps ≡ ok r
    → (is_ready (run marks r) ≡ true) ↔ AllConnected marks deps
unfolding is_ready
is_ready_iff deps marks h = rw (run-last_marks deps marks h) (all_true-last_marks marks deps)
