-- ===== src/Runtime/Readiness.antt =====
-- `Readiness`: the declared dependencies of a service and whether each is connected.
pub mod Reports
pub mod Log
use tqtk_price_streaming.Prelude.{
  ℕ, Bool, true, false, not, ◌&&◌, ◌||◌, Option, none, some, List, [], ◌∷◌, map, any, all, ◌==◌,
  Result, ok, err, if◌then◌else◌,
}
use tqtk_price_streaming.Prelude.Text.{Str, str_eq}
use tqtk_price_streaming.Prelude.Dict.{Dict, get, put, values}

-- ValueError and KeyError.
pub data ReadinessError : Type 0 where
  duplicate_dependency : ReadinessError
  undeclared : Str → ReadinessError

-- The INFO line of a transition.
pub record Transition : Type 0 where
  pub dependency : Str
  pub connected : Bool

pub record Readiness : Type 0 where
  pub connected : Dict Str Bool

-- `len(set(xs)) != len(xs)`
unfoldable pub has_duplicates : List Str → Bool
has_duplicates [] = false
has_duplicates (x ∷ xs) = any (λ y. y == x) xs || has_duplicates xs

-- Readiness(*dependencies): each starts disconnected.
unfoldable pub construct : List Str → Result ReadinessError Readiness
construct dependencies =
    if has_duplicates dependencies
    then err duplicate_dependency
    else ok (record { connected = map (λ d. (d, false)) dependencies })

-- Python's `!=` on Booleans.
unfoldable pub differs : Bool → Bool → Bool
differs true b = not b
differs false b = b

-- `_set`: the new state and what is logged, or the KeyError.
unfoldable pub set_state :
    Str → Bool → Readiness → Result ReadinessError (Readiness × List Transition)
unfolding differs
set_state dependency connected r = elim (get dependency r.connected) [
  | none ↦ err (undeclared dependency)
  | some old ↦ ok (
    record { connected = put dependency connected r.connected },
    if differs old connected
        then record { dependency = dependency; connected = connected } ∷ []
        else [],
  )
]

unfoldable pub mark_connected :
    Str → Readiness → Result ReadinessError (Readiness × List Transition)
mark_connected dependency = set_state dependency true

unfoldable pub mark_disconnected :
    Str → Readiness → Result ReadinessError (Readiness × List Transition)
mark_disconnected dependency = set_state dependency false

unfoldable pub all_true : Dict Str Bool → Bool
all_true [] = true
all_true ((_, b) ∷ d) = b && all_true d

unfoldable pub is_ready : Readiness → Bool
unfolding all_true
is_ready r = all_true r.connected

unfoldable pub snapshot : Readiness → Dict Str Bool
snapshot r = r.connected
