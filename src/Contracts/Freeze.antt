-- ===== src/Contracts/Freeze.antt =====
-- contracts.py: `_freeze_value`, `_freeze_mapping` and `_primitive`.
use text.Mathlib.Text.{is_lt}
use Prim.Native.String.{compare}
use hermes_agentic_variation.Base.{String, str_eq, if◌then◌else◌}
use hermes_agentic_variation.Base.Float.{isfinite, float}
use hermes_agentic_variation.Base.Result.{contract_error, Result, ok, err, ◌>>=◌}
use hermes_agentic_variation.Base.Value.{
  Value, num, tuple, list, dict, object, Values, nil, cons, Entries, end, entry, odd_key,
}

unfoldable mutual
  pub freeze_value : String → Value → Result Value
  freeze_value name (dict es) = do fs ← freeze_mapping name es; ok (dict fs)
  freeze_value name (list vs) = do ws ← freeze_values name vs; ok (tuple ws)
  freeze_value name (tuple vs) = do ws ← freeze_values name vs; ok (tuple ws)
  freeze_value name (num (float f)) =
      if isfinite f
      then ok (num (float f))
      else err (contract_error name "contains a non-finite number")
  freeze_value name object = err (contract_error name "contains unsupported value type")
  freeze_value name v = ok v

  pub freeze_values : String → Values → Result Values
  freeze_values name nil = ok nil
  freeze_values name (cons v vs) = do
    w ← freeze_value name v
    ws ← freeze_values name vs
    ok (cons w ws)

  pub freeze_mapping : String → Entries → Result Entries
  freeze_mapping name end = ok end
  freeze_mapping name (odd_key v es) = err (contract_error name "keys must be non-empty strings")
  freeze_mapping name (entry k v es) =
      if str_eq k ""
      then err (contract_error name "keys must be non-empty strings")
      else do w ← freeze_value name v; fs ← freeze_mapping name es; ok (entry k w fs)

-- `sorted`: an item goes before the first one with a greater key.
unfoldable pub insert_sorted : String → Value → Entries → Entries
insert_sorted k v end = entry k v end
insert_sorted k v (odd_key w es) = odd_key w (insert_sorted k v es)
insert_sorted k v (entry j w es) =
    if is_lt (compare k j) then entry k v (entry j w es) else entry j w (insert_sorted k v es)

unfoldable mutual
  unfolding insert_sorted

  pub primitive : Value → Value
  primitive (dict es) = dict (primitive_mapping es)
  primitive (tuple vs) = list (primitive_values vs)
  primitive v = v

  pub primitive_values : Values → Values
  primitive_values nil = nil
  primitive_values (cons v vs) = cons (primitive v) (primitive_values vs)

  pub primitive_mapping : Entries → Entries
  primitive_mapping end = end
  primitive_mapping (odd_key v es) = odd_key (primitive v) (primitive_mapping es)
  primitive_mapping (entry k v es) = insert_sorted k (primitive v) (primitive_mapping es)
