-- ===== src/Base/Result.antt =====
-- Python exceptions as values. A message is kept without the values that the source formats in.
use hermes_agentic_variation.Base.{Bool, true, false, String, ◌≡◌, refl}

pub data Error : Type 0 where
  contract_error : String → String → Error  -- ContractValidationError: what, and its complaint
  transition_error : String → Error  -- TransitionError
  storage_conflict : String → Error  -- StorageConflictError
  patch_error : String → Error  -- PatchValidationError
  disabled_error : String → Error  -- Phase1DisabledError to Phase4DisabledError
  sandbox_violation : String → Error  -- SandboxViolation
  workspace_violation : String → Error  -- WorkspaceViolation, a ValueError
  value_error : String → Error  -- other ValueError
  key_error : Error  -- KeyError
  type_error : Error  -- TypeError
  index_error : Error  -- IndexError
  integrity_error : Error  -- sqlite3.IntegrityError
  overflow_error : Error  -- OverflowError
  os_error : Error  -- OSError, as of the file system

pub data Result {ℓ} (A : Type ℓ) : Type ℓ where
  ok : A → Result A
  err : Error → Result A

abbrev pub is_ok {ℓ} : {A : Type ℓ} → Result A → Bool
is_ok (ok a) = true
is_ok (err e) = false

-- The next statement, after a value or in place of none.
infixl 5 ◌>>=◌
abbrev pub ◌>>=◌ {ℓ κ} : {T : Type ℓ} {U : Type κ} → Result T → (T → Result U) → Result U
err raised >>= next = err raised
ok value >>= next = next value

infixl 5 ◌>>◌
abbrev pub ◌>>◌ {ℓ κ} : {T : Type ℓ} {U : Type κ} → Result T → Result U → Result U
first >> next = first >>= λ _. next

-- `if not test: raise e`
abbrev pub require : Bool → Error → Result (Unit {0})
require true e = ok tt
require false e = err e

-- `if test: raise e`
abbrev pub raise_if : Bool → Error → Result (Unit {0})
raise_if true e = err e
raise_if false e = ok tt

-- Inversion of a successful chain.
pub >>=-eq-ok {ℓ κ} :
    {T : Type ℓ} {U : Type κ} {u : U} (r : Result T) (next : T → Result U)
    → (r >>= next) ≡ ok u
    → (t : T) × (r ≡ ok t) × (next t ≡ ok u)
>>=-eq-ok (err raised) next done = cc
>>=-eq-ok (ok value) next done = (value, refl, done)

pub require-ok : (b : Bool) (e : Error) {u : Unit {0}} → require b e ≡ ok u → b ≡ true
require-ok true e h = refl
require-ok false e h = cc

pub raise_if-ok : (b : Bool) (e : Error) {u : Unit {0}} → raise_if b e ≡ ok u → b ≡ false
raise_if-ok false e h = refl
raise_if-ok true e h = cc

pub ok-injective {ℓ} : {A : Type ℓ} (a b : A) → ok a ≡ ok b → a ≡ b
ok-injective a b h = cc
