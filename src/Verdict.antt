-- ===== src/Verdict.antt =====
-- What the controllers share behind an evaluation: its two transitions (`Phase1Controller.step`,
-- `Phase3Controller.mutate`, `Phase4Controller.patch`), and their replay from the ledger after a
-- crash (`reconcile` of phase2.py, phase3.py and phase4.py).
pub mod Reports
pub mod Recovered
pub mod Replayed
pub mod Through
use hermes_agentic_variation.Base.{
  ℕ, suc, String, Bool, true, false, ◌||◌, List, [], ◌∷◌, Option, none, some, str_eq, ltb, length,
  if◌then◌else◌,
}
use hermes_agentic_variation.Base.Result.{index_error, Result, ok, err}
use hermes_agentic_variation.Base.Value.{Value, bool, str, dict}
use hermes_agentic_variation.Contracts.Candidate
use hermes_agentic_variation.Contracts.Candidate.{Candidate}
use hermes_agentic_variation.Contracts.Evaluation
use hermes_agentic_variation.Contracts.Evaluation.{EvaluationResult}
use hermes_agentic_variation.Storage.Evidence.{Artifact, Evaluated}
use hermes_agentic_variation.Contracts.Identity.{Hashing}
use hermes_agentic_variation.Contracts.Json.{get, fields}
use hermes_agentic_variation.StateMachine.{
  Status, running, evaluating, Event, candidate_ready, interrupt, evaluation_eligible,
  evaluation_ineligible, evaluation_missing, RunState, no_cost,
}
use hermes_agentic_variation.Storage.Monad.{Action, pure, lift, ◌>>=◌, ◌>>◌}
use hermes_agentic_variation.Storage.Runs.{transition, record_observation}
use hermes_agentic_variation.Storage.Tables.{EventRow}

-- What the store is given of a candidate and of its evaluation.
abbrev pub candidate_row : Hashing → Candidate → Artifact
candidate_row h c = record { identity = Candidate.identity h c; document = Candidate.to_dict c }

abbrev pub evaluation_row : Hashing → EvaluationResult → Evaluated
evaluation_row h e = record {
  identity = Evaluation.identity h e;
  candidate_hash = e.candidate_hash;
  document = Evaluation.to_dict e;
}

-- `state.status in {"running", "evaluating"}`
abbrev pub is_in_flight : Status → Bool
is_in_flight running = true
is_in_flight evaluating = true
is_in_flight _ = false

unfoldable pub verdict : Bool → Event
verdict eligible = if eligible then evaluation_eligible else evaluation_ineligible

abbrev pub best_hash : Bool → String → Option String
best_hash eligible candidate_hash = if eligible then some candidate_hash else none

-- The verdict on the candidate of an evaluating run.
unfoldable pub decide : Hashing → String → RunState → String → Bool → Action RunState
unfolding transition verdict
decide h run_id state candidate_hash eligible =
    transition h run_id (verdict eligible) state.revision (best_hash eligible candidate_hash)
      no_cost

-- The two transitions of a running run.
unfoldable pub conclude : Hashing → String → RunState → String → Bool → Action RunState
unfolding transition decide
conclude h run_id state candidate_hash eligible = do
  ready ← transition h run_id candidate_ready state.revision none no_cost
  decide h run_id ready candidate_hash eligible

-- `sum(event["event"] in {...} for event in self.store.events(run_id))`
abbrev pub is_verdict : String → Bool
is_verdict name = str_eq name "evaluation_eligible" || str_eq name "evaluation_ineligible"

unfoldable pub applied : List EventRow → ℕ
applied [] = 0
applied (e ∷ es) = let rest = applied es in if is_verdict e.event then suc rest else rest

-- `items[-1]`
unfoldable pub last_item : List Value → Result Value
last_item [] = err index_error
last_item (v ∷ []) = ok v
last_item (v ∷ w ∷ vs) = last_item (w ∷ vs)

-- `payload.get("eligible") is True`
abbrev pub is_truth : Option Value → Bool
is_truth (some (bool b)) = b
is_truth _ = false

unfoldable pub is_eligible : Value → Bool
is_eligible (dict es) = is_truth (get "eligible" es)
is_eligible _ = false

-- The verdict from where the run was interrupted.
unfoldable pub resumed : Status → Hashing → String → RunState → String → Bool → Action RunState
unfolding conclude decide
resumed running h run_id state hash eligible = conclude h run_id state hash eligible
resumed _ h run_id state hash eligible = decide h run_id state hash eligible

-- The last evaluation of the ledger is applied to the run.
unfoldable pub replay : Hashing → String → RunState → List Value × List Value → Action RunState
unfolding resumed last_item is_eligible
replay h run_id state documents = do
  candidate ← lift (last_item documents.0)
  evaluation ← lift (last_item documents.1)
  resumed state.status h run_id state (h.of_json candidate) (is_eligible evaluation)

abbrev pub classification : String → Value
classification name = dict (fields (("classification", str name) ∷ []))

-- The event that ends an attempt without an evaluation, its label and its classification.
abbrev pub abandoned : Status → Event × String × String
abandoned running = (interrupt, "interrupted", "INTERRUPTED")
abandoned _ = (evaluation_missing, "evaluation_missing", "EVALUATION_MISSING")

unfoldable pub abandon : Hashing → String → RunState → Action RunState
unfolding transition record_observation
abandon h run_id state = do
  let (event, action, classification) = abandoned state.status
  after ← transition h run_id event state.revision none no_cost
  record_observation h run_id action (dict (fields (("classification", str classification) ∷ [])))
  pure after
