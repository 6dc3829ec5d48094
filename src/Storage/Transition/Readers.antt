-- ===== src/Storage/Transition/Readers.antt =====
-- `transition` as the store's readers see it.
use hermes_agentic_variation.Base.{
  ℕ, String, List, [], ◌∷◌, ◌++◌, Option, some, ◌≡◌, ◌≢◌, refl, sym, eq_iff,
}
use hermes_agentic_variation.Base.Result.{ok}
use hermes_agentic_variation.Base.Value.{Value}
use hermes_agentic_variation.Contracts.Identity.{Hashing}
use hermes_agentic_variation.Contracts.RunSpec.{RunSpec}
use hermes_agentic_variation.Contracts.RunSpec.Stored.{spec_from_json}
use hermes_agentic_variation.StateMachine.{Event, RunState, apply_transition}
use hermes_agentic_variation.Storage.Reads.{events_of, events, load_run, loaded, event_text}
use hermes_agentic_variation.Storage.Rows.{
  find_run-update_rows, find_run-update_rows-other, events_of-append, other-eq,
}
use hermes_agentic_variation.Storage.Runs.{transition_payload, transition}
use hermes_agentic_variation.Storage.State.{state_document, state_from_json, state_round_trip}
use hermes_agentic_variation.Storage.Tables.{Run, EventRow, Database, find_run}
use hermes_agentic_variation.Storage.Transition.{logged, committed, transition-Steps}

-- A run that is found loads what its row encodes.
pub load_run-found :
    (run_id : String) (db : Database) (row : Run) (spec : RunSpec) (s : RunState)
    → find_run run_id db.runs ≡ some row
    → spec_from_json row.spec_json ≡ ok spec
    → state_from_json row.state_json ≡ ok s
    → load_run run_id db ≡ ok (spec, s)
unfolding load_run loaded
load_run-found run_id db row spec s f p q = rw (f, p, q)

-- What the store's readers see of a transition that succeeded.
pub record Transitions (h : Hashing) (run_id : String) (event : Event) (expected : ℕ)
    (hash : Option String) (cost : Value) (db : Database) (t : RunState) (after : Database)
    : Type 0 where
  pub spec : RunSpec
  pub before : RunState
  pub loaded_before : load_run run_id db ≡ ok (spec, before)
  pub current : before.revision ≡ expected
  pub stepped : apply_transition h before event spec hash cost ≡ ok t
  pub loaded_after : load_run run_id after ≡ ok (spec, t)
  pub one_event :
      events run_id after
      ≡ events run_id db
        ++ logged h run_id (event_text event) t (transition_payload hash cost) db.last_event_id ∷ []
  pub others :
      (other : String)
      → other ≢ run_id
      → (load_run other after ≡ load_run other db) × (events other after ≡ events other db)

pub events-of-run :
    (id : String) (row : EventRow) → row.run_id ≡ id → events_of id (row ∷ []) ≡ row ∷ []
unfolding events_of
events-of-run id row e = rw ((eq_iff row.run_id id).1 e)

pub events-of-other :
    (id : String) (row : EventRow) → row.run_id ≢ id → events_of id (row ∷ []) ≡ []
unfolding events_of
events-of-other id row ne = rw (other-eq row.run_id id ne)

pub append-nil : {A : Type 0} (xs : List A) → (xs ++ []) ≡ xs
append-nil [] = refl
append-nil (x ∷ xs) = rw (append-nil xs)

module _ (h : Hashing) (run_id : String) (event : Event) (hash : Option String) (cost : Value)
    (row : Run) (t : RunState) (db : Database) where
  abbrev after : Database
  after = committed h run_id event hash cost row t db

  reloaded :
      (spec : RunSpec)
      → find_run run_id db.runs ≡ some row
      → spec_from_json row.spec_json ≡ ok spec
      → load_run run_id after ≡ ok (spec, t)
  reloaded spec f p =
      load_run-found run_id after (record row { state_json = state_document t }) spec t
        (find_run-update_rows run_id (state_document t) db.runs row f) p (state_round_trip t)

  abbrev new_event : EventRow
  new_event = logged h run_id (event_text event) t (transition_payload hash cost) db.last_event_id

  one_more : events run_id after ≡ events run_id db ++ new_event ∷ []
  unfolding events logged
  one_more =
      rw (
        events_of-append run_id db.run_events (new_event ∷ []),
        events-of-run run_id new_event refl,
      )

  apart :
      (other : String)
      → other ≢ run_id
      → (load_run other after ≡ load_run other db) × (events other after ≡ events other db)
  unfolding events load_run logged
  apart other ne = (
    rw (find_run-update_rows-other run_id other row.state_json (state_document t) db.runs ne),
    rw
        (
          events_of-append other db.run_events (new_event ∷ []),
          events-of-other other new_event (λ q. ne (sym q)),
        )
        (append-nil (events_of other db.run_events)),
  )

-- A transition that succeeds starts from the state that `load_run` gives at the expected revision,
-- makes the step of `apply_transition`, and after it `load_run` gives the RunSpec as before and
-- the new state, `events` gives the earlier events and one more with the new revision and the
-- digest of the new state, and no other run's state or events change.
pub transition-Transitions :
    (h : Hashing) (run_id : String) (event : Event) (expected : ℕ) (hash : Option String)
    (cost : Value) (db : Database) (t : RunState) (after : Database)
    → transition h run_id event expected hash cost db ≡ (ok t, after)
    → Transitions h run_id event expected hash cost db t after
transition-Transitions h run_id event expected hash cost db t after e =
    let w = transition-Steps h run_id event expected hash cost db t after e in
    record {
      spec = w.spec;
      before = w.before;
      loaded_before =
          load_run-found run_id db w.row w.spec w.before w.row_found w.spec_read w.state_read;
      current = w.current;
      stepped = w.stepped;
      loaded_after =
          rw w.written
            (reloaded h run_id event hash cost w.row t db w.spec w.row_found w.spec_read);
      one_event = rw w.written (one_more h run_id event hash cost w.row t db);
      others = λ other ne. rw w.written (apart h run_id event hash cost w.row t db other ne);
    }
