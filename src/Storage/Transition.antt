-- ===== src/Storage/Transition.antt =====
-- The statements of a transition that succeeds.
pub mod Readers
pub mod Stale
use hermes_agentic_variation.Base.{
  ℕ, suc, ◌==◌, ◌+◌, String, Bool, true, false, List, [], ◌∷◌, ◌++◌, Option, none, some, ◌≡◌, ◌≢◌,
  refl, sym, inl, inr, str_eq, eq_iff, Bool-cases, arith, if◌then◌else◌,
}
use hermes_agentic_variation.Base.Result
use hermes_agentic_variation.Base.Result.{
  Error, Result, storage_conflict, ok, err, require-ok, ok-injective, integrity_error,
}
use hermes_agentic_variation.Base.Value.{Value, dict}
use hermes_agentic_variation.Contracts.Identity.{Hashing}
use hermes_agentic_variation.Contracts.Json.{fields, optional_text}
use hermes_agentic_variation.Contracts.RunSpec.{RunSpec}
use hermes_agentic_variation.Contracts.RunSpec.Stored.{spec_from_json}
use hermes_agentic_variation.StateMachine.{Event, RunState, apply_transition}
use hermes_agentic_variation.Storage.Monad.{
  Action, continue, continue-ok, lift-ok, transact-ok, transact-err, run-ok, pure-ok,
}
use hermes_agentic_variation.Storage.Reads.{events_of, events, load_run, found, loaded, event_text}
use hermes_agentic_variation.Storage.Rows.{
  find_run-update_rows, find_run-update_rows-other, events_of-append, other-eq, find_run-id,
}
use hermes_agentic_variation.Storage.Runs.{
  update_rows, row_count, update_state, append_event, transition_payload, transition,
  transition_statements,
}
use hermes_agentic_variation.Storage.State.{
  state_document, state_json, state_json-ok, state_hash, state_from_json, state_round_trip,
}
use hermes_agentic_variation.Storage.Tables.{
  Run, EventRow, Database, find_run, has_run, insert_event,
}

-- The event that is logged.
unfoldable pub logged : Hashing → String → String → RunState → Value → ℕ → EventRow
unfolding state_hash
logged h run_id event state payload last = record {
  id = suc last;
  run_id = run_id;
  event = event;
  revision = state.revision;
  state_hash = state_hash h state;
  payload = payload;
}

-- What an appended event does to the database.
pub append_event-ok :
    (h : Hashing) (run_id event : String) (state : RunState) (payload : Value) (db : Database)
    (u : Unit {0}) (after : Database)
    → append_event h run_id event state payload db ≡ (ok u, after)
    → after ≡ record db {
      run_events = db.run_events ++ logged h run_id event state payload db.last_event_id ∷ [];
      last_event_id = suc db.last_event_id;
    }
unfolding append_event insert_event logged
append_event-ok h run_id event state payload db u after e =
    let q = run-ok (insert_event run_id event state.revision (state_hash h state) payload) db e in
    let (_, _, q1) =
      Result.>>=-eq-ok (Result.require (has_run run_id db.runs) integrity_error) _ q in
    sym (ok-injective _ _ q1)

abbrev pub committed :
    Hashing → String → Event → Option String → Value → Run → RunState → Database → Database
committed h run_id event hash cost row t db = record db {
  runs = update_rows run_id row.state_json (state_document t) db.runs;
  run_events =
      db.run_events
      ++ logged h run_id (event_text event) t (transition_payload hash cost) db.last_event_id ∷ [];
  last_event_id = suc db.last_event_id;
}

-- The steps of a transition that succeeded.
pub record Steps (h : Hashing) (run_id : String) (event : Event) (expected : ℕ)
    (hash : Option String) (cost : Value) (db : Database) (t : RunState) (after : Database)
    : Type 0 where
  pub row : Run
  pub spec : RunSpec
  pub before : RunState
  pub row_found : find_run run_id db.runs ≡ some row
  pub spec_read : spec_from_json row.spec_json ≡ ok spec
  pub state_read : state_from_json row.state_json ≡ ok before
  pub current : before.revision ≡ expected
  pub stepped : apply_transition h before event spec hash cost ≡ ok t
  pub written : after ≡ committed h run_id event hash cost row t db

pub found-some : (o : Option Run) (row : Run) → found o ≡ ok row → o ≡ some row
found-some none row e = cc
found-some (some r) row e = cc

pub transition-Steps :
    (h : Hashing) (run_id : String) (event : Event) (expected : ℕ) (hash : Option String)
    (cost : Value) (db : Database) (t : RunState) (after : Database)
    → transition h run_id event expected hash cost db ≡ (ok t, after)
    → Steps h run_id event expected hash cost db t after
unfolding transition transition_statements update_state
transition-Steps h run_id event expected hash cost db t after e =
    let e0 = transact-ok (transition_statements h run_id event expected hash cost) db e in
    let (row, q1, e1) = lift-ok (found (find_run run_id db.runs)) _ db e0 in
    let (spec, q2, e2) = lift-ok (spec_from_json row.spec_json) _ db e1 in
    let (s, q3, e3) = lift-ok (state_from_json row.state_json) _ db e2 in
    let (_, q4, e4) =
      lift-ok (Result.require (s.revision == expected) (storage_conflict "revision mismatch")) _ db
        e3 in
    let (u, q5, e5) = lift-ok (apply_transition h s event spec hash cost) _ db e4 in
    let (w, qw, ew) = lift-ok (state_json u) _ db e5 in
    let db1 : Database = record db { runs = update_rows run_id row.state_json w db.runs } in
    let (_, q6, e6) =
      lift-ok
        (Result.require (row_count run_id row.state_json db.runs == 1)
          (storage_conflict "run changed during transition"))
        _ db1 ew in
    let (v, db2, q7, e7) =
      continue-ok (append_event h run_id (event_text event) u (transition_payload hash cost) db1) _
        e6 in
    let (same_state, same_db) = pure-ok u t db2 after e7 in
    record {
      row = row;
      spec = spec;
      before = s;
      row_found = found-some (find_run run_id db.runs) row q1;
      spec_read = q2;
      state_read = q3;
      current =
          equal_revision s.revision expected
            (require-ok (s.revision == expected) (storage_conflict "revision mismatch") q4);
      stepped = stepped_to u t same_state q5;
      written = written_to u t w row db2 after (state_json-ok u w qw) same_state same_db (
          append_event-ok h run_id (event_text event) u (transition_payload hash cost) db1 v db2
            q7);
    }
  where
    equal_revision : (m n : ℕ) → (m == n) ≡ true → m ≡ n
    equal_revision m n q = ground arith

    stepped_to : {r : Result RunState} (u t : RunState) → u ≡ t → r ≡ ok u → r ≡ ok t
    stepped_to u t p q = cc

    written_to :
        (u t : RunState) (w : Value) (row : Run) (db2 after : Database)
        → state_document u ≡ w
        → u ≡ t
        → db2 ≡ after
        → db2 ≡ record db {
          runs = update_rows run_id row.state_json w db.runs;
          run_events =
              db.run_events
              ++ logged h run_id
                  (event_text event)
                  u
                  (transition_payload hash cost)
                  db.last_event_id
                ∷ [];
          last_event_id = suc db.last_event_id;
        }
        → after ≡ committed h run_id event hash cost row t db
    written_to u t w row db2 after o p q r = cc
