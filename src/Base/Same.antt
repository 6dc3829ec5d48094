-- ===== src/Base/Same.antt =====
-- Equality of documents, as the comparison of their texts decides it.
use hermes_agentic_variation.Base.{
  ℕ, Bool, true, false, ◌&&◌, ◌==◌, ◌≡◌, refl, str_eq, eq_iff, arith,
}
use hermes_agentic_variation.Base.Int.{ℤ, pos, negsuc}
use hermes_agentic_variation.Base.Float.{Float, finite, inf, neg_inf, nan, Number, int, float}
use hermes_agentic_variation.Base.Logic.{true-and}
use hermes_agentic_variation.Base.Value.{
  Value, null, bool, num, str, tuple, list, dict, object, Values, nil, cons, Entries, end, entry,
  odd_key,
}

abbrev same_bool : Bool → Bool → Bool
same_bool true b = b
same_bool false true = false
same_bool false false = true

abbrev same_int : ℤ → ℤ → Bool
same_int (pos m) (pos n) = m == n
same_int (negsuc m) (negsuc n) = m == n
same_int _ _ = false

abbrev same_float : Float → Float → Bool
same_float (finite a) (finite b) = same_int a b
same_float inf inf = true
same_float neg_inf neg_inf = true
same_float nan nan = true
same_float _ _ = false

abbrev same_number : Number → Number → Bool
same_number (int a) (int b) = same_int a b
same_number (float a) (float b) = same_float a b
same_number _ _ = false

-- A tuple is written as a list is.
unfoldable mutual
  pub same : Value → Value → Bool
  same null null = true
  same (bool a) (bool b) = same_bool a b
  same (num a) (num b) = same_number a b
  same (str a) (str b) = str_eq a b
  same (tuple vs) (tuple ws) = same_values vs ws
  same (tuple vs) (list ws) = same_values vs ws
  same (list vs) (tuple ws) = same_values vs ws
  same (list vs) (list ws) = same_values vs ws
  same (dict es) (dict fs) = same_entries es fs
  same object object = true
  same _ _ = false

  pub same_values : Values → Values → Bool
  same_values nil nil = true
  same_values (cons v vs) (cons w ws) = same v w && same_values vs ws
  same_values _ _ = false

  pub same_entries : Entries → Entries → Bool
  same_entries end end = true
  same_entries (entry k v es) (entry j w fs) = str_eq k j && same v w && same_entries es fs
  same_entries (odd_key v es) (odd_key w fs) = same v w && same_entries es fs
  same_entries _ _ = false

same_nat_refl : (n : ℕ) → (n == n) ≡ true
same_nat_refl n = ground arith

same_int_refl : (a : ℤ) → same_int a a ≡ true
same_int_refl (pos n) = same_nat_refl n
same_int_refl (negsuc n) = same_nat_refl n

same_float_refl : (a : Float) → same_float a a ≡ true
same_float_refl (finite a) = same_int_refl a
same_float_refl inf = refl
same_float_refl neg_inf = refl
same_float_refl nan = refl

same_number_refl : (a : Number) → same_number a a ≡ true
same_number_refl (int a) = same_int_refl a
same_number_refl (float a) = same_float_refl a

mutual
  unfolding same same_values same_entries

  pub same_refl : (v : Value) → same v v ≡ true
  same_refl null = refl
  same_refl (bool true) = refl
  same_refl (bool false) = refl
  same_refl (num a) = same_number_refl a
  same_refl (str a) = (eq_iff a a).1 refl
  same_refl (tuple vs) = same_values_refl vs
  same_refl (list vs) = same_values_refl vs
  same_refl (dict es) = same_entries_refl es
  same_refl object = refl

  same_values_refl : (vs : Values) → same_values vs vs ≡ true
  same_values_refl nil = refl
  same_values_refl (cons v vs) = true-and _ _ (same_refl v) (same_values_refl vs)

  same_entries_refl : (es : Entries) → same_entries es es ≡ true
  same_entries_refl end = refl
  same_entries_refl (entry k v es) =
      true-and _ _ (true-and _ _ ((eq_iff k k).1 refl) (same_refl v)) (same_entries_refl es)
  same_entries_refl (odd_key v es) = true-and _ _ (same_refl v) (same_entries_refl es)
