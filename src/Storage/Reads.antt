-- ===== src/Storage/Reads.antt =====
-- storage.py: the methods of `RunStore` that only read, and the texts that it writes.
use hermes_agentic_variation.Base.{
  ℕ, String, List, [], ◌∷◌, Option, none, some, str_eq, if◌then◌else◌,
}
use hermes_agentic_variation.Base.Float.{isfinite, float}
use hermes_agentic_variation.Base.Result.{
  storage_conflict, key_error, value_error, type_error, Result, ok, err, ◌>>=◌, ◌>>◌,
}
use hermes_agentic_variation.Base.Value.{
  Value, num, tuple, list, dict, object, Values, nil, cons, Entries, end, entry, odd_key,
}
use hermes_agentic_variation.Contracts.RunSpec.{RunSpec}
use hermes_agentic_variation.Contracts.RunSpec.Stored.{spec_from_json}
use hermes_agentic_variation.StateMachine.{
  Event, approve, cancel, start_step, pause, complete, candidate_ready, child_failed, interrupt,
  evaluation_eligible, evaluation_ineligible, evaluation_missing, start_supervisor,
  supervisor_applied, supervisor_failed, resume, other, RunState,
}
use hermes_agentic_variation.Storage.State.{state_from_json}
use hermes_agentic_variation.Storage.Tables.{Run, EventRow, Database, find_run}

abbrev pub event_text : Event → String
event_text approve = "approve"
event_text cancel = "cancel"
event_text start_step = "start_step"
event_text pause = "pause"
event_text complete = "complete"
event_text candidate_ready = "candidate_ready"
event_text child_failed = "child_failed"
event_text interrupt = "interrupt"
event_text evaluation_eligible = "evaluation_eligible"
event_text evaluation_ineligible = "evaluation_ineligible"
event_text evaluation_missing = "evaluation_missing"
event_text start_supervisor = "start_supervisor"
event_text supervisor_applied = "supervisor_applied"
event_text supervisor_failed = "supervisor_failed"
event_text resume = "resume"
event_text (other name) = name

abbrev pub found {ℓ} : {A : Type ℓ} → Option A → Result A
found none = err key_error
found (some a) = ok a

-- The two documents of a row.
unfoldable pub loaded : Run → Result (RunSpec × RunState)
unfolding spec_from_json state_from_json
loaded row = do
  spec ← spec_from_json row.spec_json
  state ← state_from_json row.state_json
  ok (spec, state)

-- `load_run`
unfoldable pub load_run : String → Database → Result (RunSpec × RunState)
unfolding find_run loaded
load_run run_id db = found (find_run run_id db.runs) >>= loaded

-- `events`: the rows of the run, in the order of their ids
unfoldable pub events_of : String → List EventRow → List EventRow
events_of run_id [] = []
events_of run_id (r ∷ rs) =
    let rest = events_of run_id rs in if str_eq r.run_id run_id then r ∷ rest else rest

unfoldable pub events : String → Database → List EventRow
unfolding events_of
events run_id db = events_of run_id db.run_events

-- `_canonical_json` of a caller's payload: `json.dumps` refuses a float that is not finite and an
-- object of another type.
unfoldable mutual
  pub writable : Value → Result (Unit {0})
  writable (num (float f)) =
      if isfinite f then ok tt else err (value_error "Out of range float values")
  writable (tuple vs) = writable_values vs
  writable (list vs) = writable_values vs
  writable (dict es) = writable_entries es
  writable object = err type_error
  writable v = ok tt

  writable_values : Values → Result (Unit {0})
  writable_values nil = ok tt
  writable_values (cons v vs) = writable v >> writable_values vs

  writable_entries : Entries → Result (Unit {0})
  writable_entries end = ok tt
  writable_entries (entry k v es) = writable v >> writable_entries es
  writable_entries (odd_key v es) = writable v >> writable_entries es

-- `schema_version`
unfoldable pub schema_version : Database → Result ℕ
schema_version db = elim db.schema_version [
  | none ↦ err (storage_conflict "schema version is missing")
  | some n ↦ ok n
]
