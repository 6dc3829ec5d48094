-- ===== src/Contracts/RunSpec/Stored.antt =====
-- The stored form of a RunSpec: `to_dict` and `identity` of contracts.py, `_spec_from_json` of
-- storage.py, and the call `RunSpec(**data)`.
use hermes_agentic_variation.Base.{
  String, Bool, true, false, List, [], ◌∷◌, Option, none, some, str_eq, ◌&&◌, any, if◌then◌else◌,
}
use hermes_agentic_variation.Base.Result.{
  storage_conflict, key_error, type_error, Result, ok, err, require, ◌>>=◌, ◌>>◌,
}
use hermes_agentic_variation.Base.Value.{Value, num, str, dict, Entries, end, entry, odd_key}
use hermes_agentic_variation.Contracts.Json.{fields, text_list, natural, get, to_tuple}
use hermes_agentic_variation.Contracts.Freeze.{primitive_mapping}
use hermes_agentic_variation.Contracts.Identity.{Hashing}
use hermes_agentic_variation.Contracts.RunSpec.{
  Comparison, minimize, maximize, pareto, NetworkPolicy, disabled, allowlist, RunSpec, new,
}

abbrev pub comparison_text : Comparison → String
comparison_text minimize = "minimize"
comparison_text maximize = "maximize"
comparison_text pareto = "pareto"

abbrev pub network_text : NetworkPolicy → String
network_text disabled = "disabled"
network_text allowlist = "allowlist"

abbrev pub contract_version : String
contract_version = "avo.run-spec.v1"

-- `spec.to_dict()`, without and with the version
unfoldable pub spec_fields : RunSpec → Entries
spec_fields spec = fields (
    ("run_id", str spec.run_id)
    ∷ ("target_root", str spec.target_root)
    ∷ ("seed_digest", str spec.seed_digest)
    ∷ ("objective", str spec.objective)
    ∷ ("exclusions", text_list spec.exclusions)
    ∷ ("evaluator_id", str spec.evaluator_id)
    ∷ ("evaluator_config", dict (primitive_mapping spec.evaluator_config))
    ∷ ("correctness_predicates", text_list spec.correctness_predicates)
    ∷ ("score_keys", text_list spec.score_keys)
    ∷ ("comparison", str (comparison_text spec.comparison))
    ∷ ("allowed_toolsets", text_list spec.allowed_toolsets)
    ∷ ("network_policy", str (network_text spec.network_policy))
    ∷ ("max_steps", natural spec.max_steps)
    ∷ ("max_wall_seconds", natural spec.max_wall_seconds)
    ∷ ("max_cost_usd", num spec.max_cost_usd)
    ∷ ("no_progress_limit", natural spec.no_progress_limit)
    ∷ ("approval_receipt", str spec.approval_receipt)
    ∷ [])

unfoldable pub to_dict : RunSpec → Value
unfolding spec_fields
to_dict spec = dict (entry "contract_version" (str contract_version) (spec_fields spec))

-- `spec.identity`
unfoldable pub identity : Hashing → RunSpec → String
identity h spec = h.of_json (to_dict spec)

abbrev field_names : List String
field_names =
    "run_id" ∷ "target_root" ∷ "seed_digest" ∷ "objective" ∷ "exclusions" ∷ "evaluator_id"
    ∷ "evaluator_config" ∷ "correctness_predicates" ∷ "score_keys" ∷ "comparison"
    ∷ "allowed_toolsets" ∷ "network_policy" ∷ "max_steps" ∷ "max_wall_seconds" ∷ "max_cost_usd"
    ∷ "no_progress_limit" ∷ "approval_receipt" ∷ []

-- Every key is the name of a parameter.
abbrev pub known : List String → Entries → Bool
known names end = true
known names (odd_key v es) = false
known names (entry k v es) = any (str_eq k) names && known names es

-- A parameter with no default.
unfoldable pub argument : String → Entries → Result Value
argument name es = elim (get name es) [ none ↦ err type_error | some v ↦ ok v ]

-- The call `RunSpec(**data)`.
unfoldable pub spec_of_kwargs : Entries → Result RunSpec
unfolding argument
spec_of_kwargs es = do
  require (known field_names es) type_error
  run_id ← argument "run_id" es
  target_root ← argument "target_root" es
  seed_digest ← argument "seed_digest" es
  objective ← argument "objective" es
  exclusions ← argument "exclusions" es
  evaluator_id ← argument "evaluator_id" es
  evaluator_config ← argument "evaluator_config" es
  correctness_predicates ← argument "correctness_predicates" es
  score_keys ← argument "score_keys" es
  comparison ← argument "comparison" es
  allowed_toolsets ← argument "allowed_toolsets" es
  network_policy ← argument "network_policy" es
  max_steps ← argument "max_steps" es
  max_wall_seconds ← argument "max_wall_seconds" es
  max_cost_usd ← argument "max_cost_usd" es
  no_progress_limit ← argument "no_progress_limit" es
  approval_receipt ← argument "approval_receipt" es
  new (record {
    run_id = run_id;
    target_root = target_root;
    seed_digest = seed_digest;
    objective = objective;
    exclusions = exclusions;
    evaluator_id = evaluator_id;
    evaluator_config = evaluator_config;
    correctness_predicates = correctness_predicates;
    score_keys = score_keys;
    comparison = comparison;
    allowed_toolsets = allowed_toolsets;
    network_policy = network_policy;
    max_steps = max_steps;
    max_wall_seconds = max_wall_seconds;
    max_cost_usd = max_cost_usd;
    no_progress_limit = no_progress_limit;
    approval_receipt = approval_receipt;
  })

-- `data.pop(name, None)`: what is left.
abbrev pub pop : String → Entries → Entries
pop name end = end
pop name (odd_key v es) = odd_key v (pop name es)
pop name (entry k v es) = if str_eq k name then es else entry k v (pop name es)

-- `data[name] = value`
abbrev pub set_item : String → Value → Entries → Entries
set_item name v end = entry name v end
set_item name v (odd_key w es) = odd_key w (set_item name v es)
set_item name v (entry k w es) =
    if str_eq k name then entry k v es else entry k w (set_item name v es)

-- `data[name] = tuple(data[name])`
unfoldable pub tuple_item : String → Entries → Result Entries
unfolding to_tuple
tuple_item name es = elim (get name es) [
  | none ↦ err key_error
  | some v ↦ do t ← to_tuple v; ok (set_item name t es)
]

abbrev pub is_version : String → Option Value → Bool
is_version expected (some (str s)) = str_eq s expected
is_version expected _ = false

-- `_spec_from_json`, on the document that the text encodes
unfoldable pub spec_from_json : Value → Result RunSpec
unfolding tuple_item spec_of_kwargs
spec_from_json (dict es) = do
  require (is_version contract_version (get "contract_version" es))
      (storage_conflict "unsupported RunSpec contract version")
  a ← tuple_item "exclusions" (pop "contract_version" es)
  b ← tuple_item "correctness_predicates" a
  c ← tuple_item "score_keys" b
  d ← tuple_item "allowed_toolsets" c
  spec_of_kwargs d
spec_from_json _ = err type_error
