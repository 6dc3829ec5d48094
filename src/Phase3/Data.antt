-- ===== src/Phase3/Data.antt =====
-- phase3.py: the RunSpec, the observations and the request of a run.
use hermes_agentic_variation.Base.{
  ℕ, String, Bool, false, not, ◌&&◌, ◌||◌, List, [], ◌∷◌, Option, ltb, len, is_blank, str_eq,
}
use hermes_agentic_variation.Base.Value.{Value, num, str, list, dict, nil, end, entry}
use hermes_agentic_variation.Child.{Request, leaf_request}
use hermes_agentic_variation.Contracts.Json.{fields, natural, text_list}
use hermes_agentic_variation.Contracts.RunSpec.{RunSpecArgs}
use hermes_agentic_variation.Controller.Fixture.{texts, whole}
use hermes_agentic_variation.Controller.Payload.{choice_of, strip}
use hermes_agentic_variation.Patch.Lines.{append}

-- `_PHASE3_EVALUATOR` and `COMMAND_ID`
abbrev pub evaluator_id : String
evaluator_id = "phase3.unittest.v1"

abbrev pub command_id : String
command_id = "phase3.python-unittest.v1"

-- `_ALLOWED_MUTATIONS`
unfoldable pub is_allowed : String → Bool
is_allowed s = str_eq s "filter_odd" || str_eq s "filter_even"

-- `not isinstance(value, str) or not value.strip() or len(value) > 1000`
abbrev pub is_short_text : Value → Bool
is_short_text (str s) = not (is_blank s) && not (ltb 1000 (len s))
is_short_text _ = false

-- The arguments of the RunSpec of a new run.
unfoldable pub spec_args : String → String → String → Value → Value → ℕ → RunSpecArgs
spec_args run_id target_root tree_hash objective approval_receipt wait_seconds = record {
  run_id = str run_id;
  target_root = str target_root;
  seed_digest = str tree_hash;
  objective = objective;
  exclusions = texts (
      "No model-authored source bytes" ∷ "No child file or terminal tools"
      ∷ "No commits, remotes, pushes, or deployment"
      ∷ "No network, credentials, deletion, or cleanup" ∷ "No autonomous recurrence" ∷ []);
  evaluator_id = str evaluator_id;
  evaluator_config = dict (
      entry "mutations" (text_list ("filter_even" ∷ "filter_odd" ∷ []))
        (entry "command_id" (str command_id) end));
  correctness_predicates = texts ("tests_pass" ∷ "mutation_matches" ∷ []);
  score_keys = texts ("test_failures" ∷ []);
  comparison = str "minimize";
  allowed_toolsets = texts ("todo" ∷ []);
  network_policy = str "disabled";
  max_steps = natural 1;
  max_wall_seconds = natural wait_seconds;
  max_cost_usd = num (whole 1);
  no_progress_limit = natural 1;
  approval_receipt = approval_receipt;
}

abbrev pub created_payload : String → String → Value
created_payload run_id tree_hash = dict (
    fields (
      ("repository_id", str run_id)
      ∷ ("baseline_tree_hash", str tree_hash)
      ∷ ("commit_count", natural 0)
      ∷ ("remotes", list nil)
      ∷ ("cleanup_status", str "retained")
      ∷ []))

abbrev pub applied_payload : String → List String → String → Value
applied_payload mutation changed tree_hash = dict (
    fields (
      ("mutation", str mutation)
      ∷ ("changed_paths", text_list changed)
      ∷ ("mutated_tree_hash", str tree_hash)
      ∷ []))

-- `_parse_child_payload`
unfoldable pub parse_child_payload : (String → Option Value) → String → Option (String × String)
unfolding choice_of strip
parse_child_payload loads summary = choice_of "mutation" (loads (strip summary))

abbrev mutation_goal : String
mutation_goal =
    "Choose exactly one closed mutation for the calculator fixture. Return exactly one JSON object with string keys mutation and rationale. Allowed mutations: filter_even, filter_odd."

abbrev mutation_context : String
mutation_context =
    "You have no file, terminal, repository, credential, or network authority. The controller—not you—maps the enum to trusted source bytes and runs the fixed test command. The goal is to make sum_even([1,2,3,4,5,6]) return 12."

unfoldable pub mutation_request : String → ℕ → Request
unfolding append leaf_request
mutation_request run_id wait_seconds =
    leaf_request mutation_goal mutation_context (append run_id ":mutation:1") wait_seconds
