-- ===== src/Records/Floats.antt =====
-- Python's `float`, of which the program uses comparison, finiteness and subtraction: a parameter,
-- with the laws of IEEE comparison that hold of all floats or of the finite ones.
use tqtk_price_streaming.Prelude.{◌≡◌, Bool, true, ◌||◌, if◌then◌else◌, arith}

pub record Floats : Type 1 where
  pub Float : Type 0
  pub zero : Float
  pub lt : Float → Float → Bool
  pub le : Float → Float → Bool
  pub is_finite : Float → Bool
  pub sub : Float → Float → Float
  pub lt_trans : (a b c : Float) → lt a b ≡ true → lt b c ≡ true → lt a c ≡ true
  -- A third finite value lies above the one or below the other.
  pub lt_cotrans : (a b c : Float) → is_finite c ≡ true → lt a b ≡ true → (lt a c || lt c b) ≡ true

module _ (fl : Floats) where
  -- `max(a, b)` and `min(a, b)` keep the first argument unless the second is beyond it.
  unfoldable pub max : fl.Float → fl.Float → fl.Float
  max a b = if fl.lt a b then b else a

  unfoldable pub min : fl.Float → fl.Float → fl.Float
  min a b = if fl.lt b a then b else a

  pub lt-max :
      (h a b : fl.Float) → fl.is_finite a ≡ true → fl.lt h (max a b) ≡ (fl.lt h a || fl.lt h b)
  unfolding max
  lt-max h a b fa = ground (arith, fl.lt_trans h a b, fl.lt_cotrans h b a)

  pub lt-min :
      (a b l : fl.Float) → fl.is_finite a ≡ true → fl.lt (min a b) l ≡ (fl.lt a l || fl.lt b l)
  unfolding min
  lt-min a b l fa = ground (arith, fl.lt_trans b a l, fl.lt_cotrans b l a)
