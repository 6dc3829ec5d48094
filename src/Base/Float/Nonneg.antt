-- ===== src/Base/Float/Nonneg.antt =====
-- Costs: finite floats that are zero or more, and their sums.
use hermes_agentic_variation.Base.{ℕ, ◌+◌, Bool, true, false, ◌≡◌, arith}
use hermes_agentic_variation.Base.Int.{pos, negsuc}
use hermes_agentic_variation.Base.Float.{Float, finite, isfinite, rounded, add}

abbrev pub is_nonneg : Float → Bool
is_nonneg (finite (pos n)) = true
is_nonneg _ = false

pub rounded-nonneg :
    (n : ℕ) → isfinite (rounded (pos n)) ≡ true → is_nonneg (rounded (pos n)) ≡ true
unfolding rounded
rounded-nonneg n h = ground arith

pub add-nonneg :
    (a b : Float)
    → is_nonneg a ≡ true
    → is_nonneg b ≡ true
    → isfinite (add a b) ≡ true
    → is_nonneg (add a b) ≡ true
unfolding add
add-nonneg (finite (pos a)) (finite (pos b)) ha hb h = ground (arith, rounded-nonneg (a + b))
add-nonneg (finite (negsuc a)) b ha hb h = cc
add-nonneg (finite (pos a)) b ha hb h = cc
add-nonneg _ b ha hb h = cc
