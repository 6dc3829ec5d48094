-- ===== src/Contracts/MutationReceipt.antt =====
-- contracts.py: `MutationReceipt`.
use hermes_agentic_variation.Base.{
  String, Bool, false, ◌&&◌, ◌||◌, List, [], ◌∷◌, none, some, any, str_eq, hex_between,
}
use hermes_agentic_variation.Base.Result.{contract_error, Result, ok, require, raise_if, ◌>>◌}
use hermes_agentic_variation.Base.Value.{Value, str, tuple, dict}
use hermes_agentic_variation.Contracts.Agreement.{is_int, is_bool, is_true, agree}
use hermes_agentic_variation.Contracts.Checks.{require_text, require_digest, require_text_tuple}
use hermes_agentic_variation.Contracts.Identity.{Hashing}
use hermes_agentic_variation.Contracts.Json.{fields, text_list, text_values}
use hermes_agentic_variation.Contracts.Paths.{is_unsafe}
use hermes_agentic_variation.Patch.Lines.{strip_prefix}

pub record MutationReceipt : Type 0 where
  pub receipt_id : String
  pub run_spec_hash : String
  pub candidate_hash : String
  pub evaluation_hash : String
  pub repository_id : String
  pub baseline_tree_hash : String
  pub mutated_tree_hash : String
  pub mutation : String
  pub changed_paths : List String
  pub command_id : String
  pub exit_code : Value
  pub tests_passed : Value
  pub stdout_hash : String
  pub stderr_hash : String
  pub repository_retained : Value
  pub cleanup_status : String

-- `re.fullmatch(r"phase3-[0-9a-f]{6,32}", repository_id)`
unfoldable pub is_phase3_id : String → Bool
unfolding strip_prefix
is_phase3_id s = elim (strip_prefix "phase3-" s) [ none ↦ false | some t ↦ hex_between 6 32 t ]

abbrev is_mutation : String → Bool
is_mutation s = str_eq s "baseline" || str_eq s "filter_odd" || str_eq s "filter_even"

-- `MutationReceipt.__post_init__`
unfoldable pub new : MutationReceipt → Result MutationReceipt
unfolding is_phase3_id
new r = do
  require_text "receipt_id" (str r.receipt_id)
  require_text "repository_id" (str r.repository_id)
  require_digest "run_spec_hash" (str r.run_spec_hash)
  require_digest "candidate_hash" (str r.candidate_hash)
  require_digest "evaluation_hash" (str r.evaluation_hash)
  require_digest "baseline_tree_hash" (str r.baseline_tree_hash)
  require_digest "mutated_tree_hash" (str r.mutated_tree_hash)
  require_digest "stdout_hash" (str r.stdout_hash)
  require_digest "stderr_hash" (str r.stderr_hash)
  require (is_phase3_id r.repository_id)
      (contract_error "repository_id" "must be a Phase 3 identifier")
  require (is_mutation r.mutation) (contract_error "mutation" "must be a supported Phase 3 enum")
  require_text_tuple "changed_paths" false (tuple (text_values r.changed_paths))
  raise_if (any is_unsafe r.changed_paths)
      (contract_error "changed_paths" "must be relative and traversal-free")
  require (str_eq r.command_id "phase3.python-unittest.v1")
      (contract_error "command_id" "must be the fixed Phase 3 command")
  require (is_int r.exit_code) (contract_error "exit_code" "must be an integer")
  require (is_bool r.tests_passed) (contract_error "tests_passed" "must be Boolean")
  require (agree r.tests_passed r.exit_code)
      (contract_error "tests_passed" "must agree with exit_code")
  require (is_true r.repository_retained && str_eq r.cleanup_status "retained")
      (contract_error "repository" "must remain retained")
  ok r

unfoldable pub to_dict : MutationReceipt → Value
to_dict r = dict (
    fields (
      ("contract_version", str "avo.mutation-receipt.v1")
      ∷ ("receipt_id", str r.receipt_id)
      ∷ ("run_spec_hash", str r.run_spec_hash)
      ∷ ("candidate_hash", str r.candidate_hash)
      ∷ ("evaluation_hash", str r.evaluation_hash)
      ∷ ("repository_id", str r.repository_id)
      ∷ ("baseline_tree_hash", str r.baseline_tree_hash)
      ∷ ("mutated_tree_hash", str r.mutated_tree_hash)
      ∷ ("mutation", str r.mutation)
      ∷ ("changed_paths", text_list r.changed_paths)
      ∷ ("command_id", str r.command_id)
      ∷ ("exit_code", r.exit_code)
      ∷ ("tests_passed", r.tests_passed)
      ∷ ("stdout_hash", str r.stdout_hash)
      ∷ ("stderr_hash", str r.stderr_hash)
      ∷ ("repository_retained", r.repository_retained)
      ∷ ("cleanup_status", str r.cleanup_status)
      ∷ []))

-- `receipt.identity`
unfoldable pub identity : Hashing → MutationReceipt → String
identity h r = h.of_json (to_dict r)
