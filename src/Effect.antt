-- ===== src/Effect.antt =====
-- A method on any state: the state is passed along, and stays as written when an exception leaves
-- the method, as on a disk.
use hermes_agentic_variation.Base.{Bool, ◌≡◌, refl}
use hermes_agentic_variation.Base.Result
use hermes_agentic_variation.Base.Result.{Error, Result, ok, err}

abbrev pub Effect : Type 0 → Type 0 → Type 0
Effect S A = S → Result A × S

module _ {S : Type 0} where
  abbrev pub pure : {A : Type 0} → A → Effect S A
  pure a s = (ok a, s)

  abbrev pub lift : {A : Type 0} → Result A → Effect S A
  lift r s = (r, s)

  abbrev pub gets : {A : Type 0} → (S → A) → Effect S A
  gets f s = (ok (f s), s)

  abbrev pub require : Bool → Error → Effect S (Unit {0})
  require b e = lift (Result.require b e)

  abbrev pub raise_if : Bool → Error → Effect S (Unit {0})
  raise_if b e = lift (Result.raise_if b e)

abbrev pub continue : {S A B : Type 0} → Result A × S → (A → Effect S B) → Result B × S
continue (ok a, s) f = f a s
continue (err e, s) f = (err e, s)

infixl 5 ◌>>=◌ ◌>>◌
abbrev pub ◌>>=◌ : {S A B : Type 0} → Effect S A → (A → Effect S B) → Effect S B
◌>>=◌ m f s = continue (m s) f

abbrev pub ◌>>◌ : {S A B : Type 0} → Effect S A → Effect S B → Effect S B
m >> k = m >>= λ _. k

-- An effect on the first or on the second part of a state.
module _ {S T A : Type 0} where
  abbrev pub on_first : Effect S A → Effect (S × T) A
  on_first m (s, t) = let r = m s in (r.0, (r.1, t))

  abbrev pub on_second : Effect T A → Effect (S × T) A
  on_second m (s, t) = let r = m t in (r.0, (s, r.1))

-- Inversion of a successful chain.
pub continue-ok :
    {S A B : Type 0} (x : Result A × S) (f : A → Effect S B) {b : B} {after : S}
    → continue x f ≡ (ok b, after)
    → (a : A) × (s : S) × (x ≡ (ok a, s)) × (f a s ≡ (ok b, after))
continue-ok (ok a, s) f h = (a, s, refl, h)
continue-ok (err e, s) f h = cc

pub lift-ok :
    {S A B : Type 0} (r : Result A) (f : A → Effect S B) (s : S) {b : B} {after : S}
    → continue (r, s) f ≡ (ok b, after)
    → (a : A) × (r ≡ ok a) × (f a s ≡ (ok b, after))
lift-ok (ok a) f s h = (a, refl, h)
lift-ok (err e) f s h = cc

pub pure-ok :
    {S A : Type 0} (a b : A) (s after : S) → pure a s ≡ (ok b, after) → (a ≡ b) × (s ≡ after)
pure-ok a b s after h = (cc, cc)
