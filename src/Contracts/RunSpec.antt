-- ===== src/Contracts/RunSpec.antt =====
-- contracts.py: `RunSpec`. `RunSpecArgs` holds the values that the constructor is called with,
-- `RunSpec` what `__post_init__` accepts of them.
pub mod Stored
use hermes_agentic_variation.Base.{ℕ, String, true, false, List, str_eq, if◌then◌else◌}
use hermes_agentic_variation.Base.Float.{Number}
use hermes_agentic_variation.Base.Result.{contract_error, Result, ok, err, ◌>>=◌}
use hermes_agentic_variation.Base.Value.{Value, str, dict, Entries}
use hermes_agentic_variation.Contracts.Checks.{
  require_text, require_digest, require_text_tuple, require_positive, finite_nonneg,
}
use hermes_agentic_variation.Contracts.Freeze.{freeze_mapping}

pub data Comparison : Type 0 where
  minimize maximize pareto : Comparison

pub data NetworkPolicy : Type 0 where
  disabled allowlist : NetworkPolicy

pub record RunSpecArgs : Type 0 where
  pub run_id : Value
  pub target_root : Value
  pub seed_digest : Value
  pub objective : Value
  pub exclusions : Value
  pub evaluator_id : Value
  pub evaluator_config : Value
  pub correctness_predicates : Value
  pub score_keys : Value
  pub comparison : Value
  pub allowed_toolsets : Value
  pub network_policy : Value
  pub max_steps : Value
  pub max_wall_seconds : Value
  pub max_cost_usd : Value
  pub no_progress_limit : Value
  pub approval_receipt : Value

pub record RunSpec : Type 0 where
  pub run_id : String
  pub target_root : String
  pub seed_digest : String
  pub objective : String
  pub exclusions : List String
  pub evaluator_id : String
  pub evaluator_config : Entries
  pub correctness_predicates : List String
  pub score_keys : List String
  pub comparison : Comparison
  pub allowed_toolsets : List String
  pub network_policy : NetworkPolicy
  pub max_steps : ℕ
  pub max_wall_seconds : ℕ
  pub max_cost_usd : Number
  pub no_progress_limit : ℕ
  pub approval_receipt : String

-- `self.comparison not in {"minimize", "maximize", "pareto"}`
unfoldable pub require_comparison : Value → Result Comparison
require_comparison (str s) =
    if str_eq s "minimize"
    then ok minimize
    else if str_eq s "maximize"
    then ok maximize
    else if str_eq s "pareto"
    then ok pareto
    else err (contract_error "comparison" "must be minimize, maximize, or pareto")
require_comparison _ = err (contract_error "comparison" "must be minimize, maximize, or pareto")

unfoldable pub require_network_policy : Value → Result NetworkPolicy
require_network_policy (str s) =
    if str_eq s "disabled"
    then ok disabled
    else if str_eq s "allowlist"
    then ok allowlist
    else err (contract_error "network_policy" "must be disabled or allowlist")
require_network_policy _ = err (contract_error "network_policy" "must be disabled or allowlist")

unfoldable pub freeze_config : String → Value → Result Entries
freeze_config name (dict es) = freeze_mapping name es
freeze_config name _ = err (contract_error name "must be a mapping")

-- `RunSpec.__post_init__`, check by check in its order.
unfoldable pub new : RunSpecArgs → Result RunSpec
new args = do
  run_id ← require_text "run_id" args.run_id
  target_root ← require_text "target_root" args.target_root
  objective ← require_text "objective" args.objective
  evaluator_id ← require_text "evaluator_id" args.evaluator_id
  approval_receipt ← require_text "approval_receipt" args.approval_receipt
  seed_digest ← require_digest "seed_digest" args.seed_digest
  exclusions ← require_text_tuple "exclusions" true args.exclusions
  correctness_predicates ←
      require_text_tuple "correctness_predicates" false args.correctness_predicates
  score_keys ← require_text_tuple "score_keys" false args.score_keys
  allowed_toolsets ← require_text_tuple "allowed_toolsets" false args.allowed_toolsets
  comparison ← require_comparison args.comparison
  network_policy ← require_network_policy args.network_policy
  max_steps ← require_positive "max_steps" args.max_steps
  max_wall_seconds ← require_positive "max_wall_seconds" args.max_wall_seconds
  max_cost_usd ←
      finite_nonneg (contract_error "max_cost_usd" "must be finite and non-negative")
        args.max_cost_usd
  no_progress_limit ← require_positive "no_progress_limit" args.no_progress_limit
  evaluator_config ← freeze_config "evaluator_config" args.evaluator_config
  ok (record {
    run_id = run_id;
    target_root = target_root;
    seed_digest = seed_digest;
    objective = objective;
    exclusions = exclusions;
    evaluator_id = evaluator_id;
    evaluator_config = evaluator_config;
    correctness_predicates = correctness_predicates;
    score_keys = score_keys;
    comparison = comparison;
    allowed_toolsets = allowed_toolsets;
    network_policy = network_policy;
    max_steps = max_steps;
    max_wall_seconds = max_wall_seconds;
    max_cost_usd = max_cost_usd;
    no_progress_limit = no_progress_limit;
    approval_receipt = approval_receipt;
  })
