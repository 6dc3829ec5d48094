-- ===== src/Contracts/Agreement.antt =====
-- contracts.py: the checks on the outcome of a test run that the two run receipts share.
use hermes_agentic_variation.Base.{Bool, true, false, ◌==◌, ◌≡◌, refl}
use hermes_agentic_variation.Base.Int.{pos}
use hermes_agentic_variation.Base.Float.{int}
use hermes_agentic_variation.Base.Value.{Value, bool, num}

-- `type(exit_code) is int` and its value, and `isinstance(tests_passed, bool)`.
unfoldable pub is_int : Value → Bool
is_int (num (int n)) = true
is_int _ = false

unfoldable pub is_bool : Value → Bool
is_bool (bool b) = true
is_bool _ = false

-- `exit_code == 0`
abbrev pub is_zero : Value → Bool
is_zero (num (int (pos n))) = n == 0
is_zero _ = false

abbrev pub is_true : Value → Bool
is_true (bool b) = b
is_true _ = false

-- `tests_passed == (exit_code == 0)` of a Boolean and an integer.
abbrev same_bool : Bool → Bool → Bool
same_bool true b = b
same_bool false true = false
same_bool false false = true

unfoldable pub agree : Value → Value → Bool
agree tests_passed exit_code = same_bool (is_true tests_passed) (is_zero exit_code)

pub agree-same : (t e : Value) → agree t e ≡ true → is_true t ≡ is_zero e
unfolding agree
agree-same t e h = same (is_true t) (is_zero e) h
  where
    same : (a b : Bool) → same_bool a b ≡ true → a ≡ b
    same true true q = refl
    same false false q = refl
    same true false q = cc
    same false true q = cc
