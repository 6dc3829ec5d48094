-- ===== src/Contracts/SandboxReceipt.antt =====
-- contracts.py: `SandboxReceipt`.
use Prim.Native.Char.{code}
use hermes_agentic_variation.Base.{
  String, Bool, false, not, ◌&&◌, ◌||◌, ◌==◌, List, [], ◌∷◌, Option, none, some, str_eq, hex_digits,
  if◌then◌else◌,
}
use hermes_agentic_variation.Base.Result.{contract_error, Result, ok, require, raise_if, ◌>>◌}
use hermes_agentic_variation.Base.Value.{Value, str, dict}
use hermes_agentic_variation.Contracts.Agreement.{is_int, is_bool, is_true, agree}
use hermes_agentic_variation.Contracts.Checks.{require_text, require_digest}
use hermes_agentic_variation.Contracts.Identity.{Hashing}
use hermes_agentic_variation.Contracts.Json.{fields}
use hermes_agentic_variation.Contracts.Paths.{segments, relative_parts, is_unsafe}
use hermes_agentic_variation.Patch.Lines.{strip_prefix}

pub record SandboxReceipt : Type 0 where
  pub receipt_id : String
  pub run_spec_hash : String
  pub candidate_hash : String
  pub evaluation_hash : String
  pub image : String
  pub runner_hash : String
  pub baseline_tree_hash : String
  pub patch_hash : String
  pub output_tree_hash : String
  pub output_source_hash : String
  pub policy_hash : String
  pub command_id : String
  pub exit_code : Value
  pub tests_passed : Value
  pub stdout_hash : String
  pub stderr_hash : String
  pub artifact_relative_path : String
  pub network_policy : String
  pub artifact_retained : Value
  pub cleanup_status : String

-- What follows the first `@`, which stands behind at least one character.
unfoldable pub behind_at : String → Option String
behind_at String.[] = none
behind_at (String.◌∷◌ c s) = let rest = behind_at s in if code c == b'@' then some s else rest

unfoldable pub starts_with_at : String → Bool
starts_with_at String.[] = false
starts_with_at (String.◌∷◌ c s) = code c == b'@'

abbrev is_sha256 : String → Bool
is_sha256 s = elim (strip_prefix "sha256:" s) [ none ↦ false | some t ↦ hex_digits 64 t ]

-- `re.fullmatch(r"[^@]+@sha256:[0-9a-f]{64}", image)`
unfoldable pub is_pinned : String → Bool
unfolding behind_at starts_with_at strip_prefix
is_pinned s = not (starts_with_at s) && elim (behind_at s) [ none ↦ false | some t ↦ is_sha256 t ]

abbrev is_artifact : List String → Bool
is_artifact (a ∷ b ∷ c ∷ []) = str_eq a "phase4-artifacts" && str_eq c "calculator.py"
is_artifact _ = false

-- `SandboxReceipt.__post_init__`
unfoldable pub new : SandboxReceipt → Result SandboxReceipt
unfolding is_pinned segments relative_parts
new r = do
  require_text "receipt_id" (str r.receipt_id)
  require_digest "run_spec_hash" (str r.run_spec_hash)
  require_digest "candidate_hash" (str r.candidate_hash)
  require_digest "evaluation_hash" (str r.evaluation_hash)
  require_digest "runner_hash" (str r.runner_hash)
  require_digest "baseline_tree_hash" (str r.baseline_tree_hash)
  require_digest "patch_hash" (str r.patch_hash)
  require_digest "output_tree_hash" (str r.output_tree_hash)
  require_digest "output_source_hash" (str r.output_source_hash)
  require_digest "policy_hash" (str r.policy_hash)
  require_digest "stdout_hash" (str r.stdout_hash)
  require_digest "stderr_hash" (str r.stderr_hash)
  require (is_pinned r.image) (contract_error "image" "must be pinned by sha256 digest")
  require (str_eq r.command_id "phase4.python-unittest.v1")
      (contract_error "command_id" "must be the fixed Phase 4 command")
  require (is_int r.exit_code && is_bool r.tests_passed)
      (contract_error "sandbox test result types" "are invalid")
  require (agree r.tests_passed r.exit_code)
      (contract_error "tests_passed" "must agree with exit_code")
  raise_if
      (is_unsafe r.artifact_relative_path
        || not (is_artifact (relative_parts (segments r.artifact_relative_path))))
      (contract_error "artifact_relative_path" "is invalid")
  require (str_eq r.network_policy "none") (contract_error "network_policy" "must be none")
  require (is_true r.artifact_retained && str_eq r.cleanup_status "retained")
      (contract_error "artifact" "must remain retained")
  ok r

unfoldable pub to_dict : SandboxReceipt → Value
to_dict r = dict (
    fields (
      ("contract_version", str "avo.sandbox-receipt.v1")
      ∷ ("receipt_id", str r.receipt_id)
      ∷ ("run_spec_hash", str r.run_spec_hash)
      ∷ ("candidate_hash", str r.candidate_hash)
      ∷ ("evaluation_hash", str r.evaluation_hash)
      ∷ ("image", str r.image)
      ∷ ("runner_hash", str r.runner_hash)
      ∷ ("baseline_tree_hash", str r.baseline_tree_hash)
      ∷ ("patch_hash", str r.patch_hash)
      ∷ ("output_tree_hash", str r.output_tree_hash)
      ∷ ("output_source_hash", str r.output_source_hash)
      ∷ ("policy_hash", str r.policy_hash)
      ∷ ("command_id", str r.command_id)
      ∷ ("exit_code", r.exit_code)
      ∷ ("tests_passed", r.tests_passed)
      ∷ ("stdout_hash", str r.stdout_hash)
      ∷ ("stderr_hash", str r.stderr_hash)
      ∷ ("artifact_relative_path", str r.artifact_relative_path)
      ∷ ("network_policy", str r.network_policy)
      ∷ ("artifact_retained", r.artifact_retained)
      ∷ ("cleanup_status", str r.cleanup_status)
      ∷ []))

-- `receipt.identity`
unfoldable pub identity : Hashing → SandboxReceipt → String
identity h r = h.of_json (to_dict r)
