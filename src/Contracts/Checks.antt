-- ===== src/Contracts/Checks.antt =====
-- contracts.py: the checks that the contracts share. A check returns the content that it accepts.
pub mod Again
use hermes_agentic_variation.Base.{
  ℕ, suc, String, Bool, false, not, ◌&&◌, Option, none, some, List, [], ◌∷◌, is_blank, hex_digits,
  if◌then◌else◌,
}
use hermes_agentic_variation.Base.Int.{pos}
use hermes_agentic_variation.Base.Float.{
  isfinite, lt_float, zero_float, Number, int, exact, to_float,
}
use hermes_agentic_variation.Base.Result.{Error, contract_error, overflow_error, Result, ok, err}
use hermes_agentic_variation.Base.Value.{Value, num, str, tuple, Values, nil, cons}

-- `_HEX_64.fullmatch(value) is not None`
abbrev pub is_digest : String → Bool
is_digest = hex_digits 64

-- `_require_text`
unfoldable pub require_text : String → Value → Result String
require_text name (str s) =
    if is_blank s then err (contract_error name "must be a non-empty string") else ok s
require_text name _ = err (contract_error name "must be a non-empty string")

-- `_require_digest`
unfoldable pub require_digest : String → Value → Result String
require_digest name (str s) =
    if is_digest s then ok s else err (contract_error name "must be a lowercase SHA-256 digest")
require_digest name _ = err (contract_error name "must be a lowercase SHA-256 digest")

-- The texts of a tuple: none if an item is no text or blank.
unfoldable pub texts : Values → Option (List String)
texts nil = some []
texts (cons (str s) vs) = elim (texts vs) [
  | none ↦ none
  | some ss ↦ if is_blank s then none else some (s ∷ ss)
]
texts (cons _ vs) = none

abbrev pub or_raise {ℓ} : {A : Type ℓ} → Option A → Error → Result A
or_raise none e = err e
or_raise (some a) e = ok a

-- `_require_text_tuple`
unfoldable pub require_text_tuple : String → Bool → Value → Result (List String)
unfolding texts
require_text_tuple name false (tuple nil) = err (contract_error name "must not be empty")
require_text_tuple name allow_empty (tuple vs) =
    or_raise (texts vs) (contract_error name "must contain only non-empty strings")
require_text_tuple name allow_empty _ = err (contract_error name "must be a tuple")

-- `type(x) is not int or x <= 0`
unfoldable pub require_positive : String → Value → Result ℕ
require_positive name (num (int (pos (suc n)))) = ok (suc n)
require_positive name _ = err (contract_error name "must be a positive integer")

-- The check of a cost, with the exception that is raised for what is no finite, non-negative
-- number. `math.isfinite` of an int that no float can hold raises `OverflowError`.
unfoldable pub finite_nonneg : Error → Value → Result Number
finite_nonneg e (num n) = elim (to_float n) [
  | none ↦ err overflow_error
  | some f ↦ if isfinite f && not (lt_float (exact n) zero_float) then ok n else err e
]
finite_nonneg e _ = err e
