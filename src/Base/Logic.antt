-- ===== src/Base/Logic.antt =====
-- Boolean tests against what they decide.
use hermes_agentic_variation.Base.{
  Bool, true, false, ◌&&◌, ◌||◌, ◌≡◌, ◌↔◌, ◌⊎◌, inl, inr, refl, arith,
}

pub and-true : (a b : Bool) → (a && b) ≡ true → (a ≡ true) × (b ≡ true)
and-true a b h = ground arith

pub true-and : (a b : Bool) → a ≡ true → b ≡ true → (a && b) ≡ true
true-and a b p q = rw (p, q)

pub &&-iff {ℓ κ} :
    {P : Type ℓ} {Q : Type κ} (a b : Bool)
    → (a ≡ true) ↔ P
    → (b ≡ true) ↔ Q
    → ((a && b) ≡ true) ↔ (P × Q)
&&-iff a b p q =
    (λ h. let (x, y) = and-true a b h in (p.0 x, q.0 y), λ h. true-and a b (p.1 h.0) (q.1 h.1))

or-true : (a b : Bool) → (a || b) ≡ true → (a ≡ true) ⊎ (b ≡ true)
or-true true b h = inl refl
or-true false b h = inr h

pub ||-iff {ℓ κ} :
    {P : Type ℓ} {Q : Type κ} (a b : Bool)
    → (a ≡ true) ↔ P
    → (b ≡ true) ↔ Q
    → ((a || b) ≡ true) ↔ (P ⊎ Q)
||-iff a b p q = (
  λ h. elim (or-true a b h) [ inl x ↦ inl (p.0 x) | inr y ↦ inr (q.0 y) ],
  λ h. elim h [ inl x ↦ rw (p.1 x) | inr y ↦ or_right a b (q.1 y) ],
)
  where
    or_right : (c d : Bool) → d ≡ true → (c || d) ≡ true
    or_right true d y = refl
    or_right false d y = y
