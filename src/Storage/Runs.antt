-- ===== src/Storage/Runs.antt =====
-- storage.py: the methods of `RunStore` on the runs and their events.
use hermes_agentic_variation.Base.{
  ℕ, suc, String, Bool, ◌&&◌, ◌==◌, List, [], ◌∷◌, Option, str_eq, if◌then◌else◌,
}
use hermes_agentic_variation.Base.Result.{storage_conflict, integrity_error, Result, ok, err}
use hermes_agentic_variation.Base.Same.{same}
use hermes_agentic_variation.Base.Value.{Value, str, dict}
use hermes_agentic_variation.Contracts.Identity.{Hashing}
use hermes_agentic_variation.Contracts.Json.{fields, optional_text}
use hermes_agentic_variation.Contracts.RunSpec.{RunSpec}
use hermes_agentic_variation.Contracts.RunSpec.Stored.{to_dict, identity, spec_from_json}
use hermes_agentic_variation.StateMachine
use hermes_agentic_variation.StateMachine.{
  Event, approve, cancel, start_step, pause, complete, candidate_ready, child_failed, interrupt,
  evaluation_eligible, evaluation_ineligible, evaluation_missing, start_supervisor,
  supervisor_applied, supervisor_failed, resume, other, RunState, apply_transition,
}
use hermes_agentic_variation.Storage.Monad.{
  Action, pure, lift, gets, run, require, transact, ◌>>=◌, ◌>>◌,
}
use hermes_agentic_variation.Storage.Reads.{event_text, found, writable}
use hermes_agentic_variation.Storage.State.{state_document, state_json, state_hash, state_from_json}
use hermes_agentic_variation.Storage.Tables.{Run, Database, find_run, insert_run, insert_event}

-- `_append_event`. That `_state_hash` and `_canonical_json` accept what they are given is tested by
-- its callers, in that order; the payloads of `create_run` and `transition`, and the state of
-- `create_run`, are accepted.
unfoldable pub append_event : Hashing → String → String → RunState → Value → Action (Unit {0})
unfolding insert_event state_hash
append_event h run_id event state payload =
    run (insert_event run_id event state.revision (state_hash h state) payload)

-- Any constraint that fails is reported as a duplicate.
abbrev pub as_duplicate : {A : Type 0} → Result A × Database → Result A × Database
as_duplicate (err integrity_error, db) = (err (storage_conflict "run_id already exists"), db)
as_duplicate x = x

abbrev pub duplicate : {A : Type 0} → Action A → Action A
duplicate m db = as_duplicate (m db)

-- The row and the payload of a new run.
unfoldable pub new_row : Hashing → RunSpec → RunState → Run
unfolding state_document to_dict
new_row h spec state = record {
  run_id = spec.run_id;
  run_spec_hash = identity h spec;
  spec_json = to_dict spec;
  state_json = state_document state;
}

abbrev pub created_payload : Hashing → RunSpec → Value
created_payload h spec = dict (fields (("run_spec_hash", str (identity h spec)) ∷ []))

-- `create_run`: its statements, and the method.
unfoldable pub create_statements : Hashing → RunSpec → RunState → Action RunState
unfolding append_event insert_run new_row
create_statements h spec state = do
  run (insert_run (new_row h spec state))
  append_event h spec.run_id "run_created" state (created_payload h spec)
  pure state

unfoldable pub create_run : Hashing → RunSpec → Action RunState
unfolding create_statements
create_run h spec = do
  state ← lift (StateMachine.new (identity h spec))
  duplicate (transact (create_statements h spec state))

-- `UPDATE runs SET state_json = ? WHERE run_id = ? AND state_json = ?`, and its row count
abbrev pub is_target : String → Value → Run → Bool
is_target run_id old r = str_eq r.run_id run_id && same r.state_json old

unfoldable pub update_rows : String → Value → Value → List Run → List Run
update_rows run_id old new [] = []
update_rows run_id old new (r ∷ rs) =
    (if is_target run_id old r then record r { state_json = new } else r)
    ∷ update_rows run_id old new rs

unfoldable pub row_count : String → Value → List Run → ℕ
row_count run_id old [] = 0
row_count run_id old (r ∷ rs) =
    let rest = row_count run_id old rs in if is_target run_id old r then suc rest else rest

unfoldable pub update_state : String → Value → Value → Action ℕ
unfolding update_rows row_count
update_state run_id old new db =
    (ok (row_count run_id old db.runs), record db { runs = update_rows run_id old new db.runs })

abbrev pub transition_payload : Option String → Value → Value
transition_payload hash cost =
    dict (fields (("candidate_hash", optional_text hash) ∷ ("cost_delta", cost) ∷ []))

-- `transition`: its statements, and the method.
unfoldable pub transition_statements :
    Hashing → String → Event → ℕ → Option String → Value → Action RunState
unfolding append_event update_state state_json
transition_statements h run_id event expected_revision candidate_hash cost_delta = do
  row? ← gets (λ db. find_run run_id db.runs)
  row ← lift (found row?)
  spec ← lift (spec_from_json row.spec_json)
  state ← lift (state_from_json row.state_json)
  require (state.revision == expected_revision) (storage_conflict "revision mismatch")
  updated ← lift (apply_transition h state event spec candidate_hash cost_delta)
  written ← lift (state_json updated)
  count ← update_state run_id row.state_json written
  require (count == 1) (storage_conflict "run changed during transition")
  append_event h run_id (event_text event) updated (transition_payload candidate_hash cost_delta)
  pure updated

unfoldable pub transition : Hashing → String → Event → ℕ → Option String → Value → Action RunState
unfolding transition_statements
transition h run_id event expected_revision candidate_hash cost_delta =
    transact (transition_statements h run_id event expected_revision candidate_hash cost_delta)

-- `record_observation`
unfoldable pub observation_statements : Hashing → String → String → Value → Action (Unit {0})
unfolding append_event state_from_json state_json writable
observation_statements h run_id event payload = do
  row? ← gets (λ db. find_run run_id db.runs)
  row ← lift (found row?)
  state ← lift (state_from_json row.state_json)
  lift (state_json state)
  lift (writable payload)
  append_event h run_id event state payload

unfoldable pub record_observation : Hashing → String → String → Value → Action (Unit {0})
unfolding observation_statements
record_observation h run_id event payload = transact (observation_statements h run_id event payload)
