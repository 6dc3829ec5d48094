-- ===== src/Verdict/Reports.antt =====
-- What the store holds for a run whose attempt a transition has ended.
use hermes_agentic_variation.Base.{
  String, Bool, true, false, Option, none, ◌≡◌, refl, sym, ◌∙◌, arith, ℕ, if◌then◌else◌,
}
use hermes_agentic_variation.Base.Float.{Float}
use hermes_agentic_variation.Base.Result.{ok}
use hermes_agentic_variation.Base.Value.{Value}
use hermes_agentic_variation.Contracts.Identity.{Hashing}
use hermes_agentic_variation.Contracts.RunSpec.{RunSpec}
use hermes_agentic_variation.StateMachine.{
  Status, running, evaluating, supervising, succeeded, no_result, outcome, is_truthy, Event,
  candidate_ready, RunState, dispatch, status_after, no_cost,
}
use hermes_agentic_variation.StateMachine.Accepted.{apply_transition-Accepted}
use hermes_agentic_variation.StateMachine.Invariant.{ends_attempt}
use hermes_agentic_variation.Storage.Monad.{continue-ok, lift-ok, transact-ok}
use hermes_agentic_variation.Storage.Reads.{load_run, found, writable}
use hermes_agentic_variation.Storage.Runs.{transition, record_observation, observation_statements}
use hermes_agentic_variation.Storage.State.{state_json, state_from_json}
use hermes_agentic_variation.Storage.Tables.{Database, find_run}
use hermes_agentic_variation.Storage.Transition.{append_event-ok}
use hermes_agentic_variation.Storage.Transition.Readers.{transition-Transitions}
use hermes_agentic_variation.Verdict.{verdict, best_hash, decide, conclude}

-- A child of the run is at work, or its result is under way.
abbrev pub is_busy : Status → Bool
is_busy running = true
is_busy evaluating = true
is_busy supervising = true
is_busy _ = false

-- The events after which a run waits for the next call, or has ended.
abbrev pub settles : Event → Bool
settles Event.approve = true
settles Event.cancel = true
settles Event.complete = true
settles Event.supervisor_applied = true
settles Event.supervisor_failed = true
settles event = ends_attempt event

-- The answer's status is the one that the ledger holds, and no child is at work for the run.
pub record Reports (run_id : String) (status : Status) (db : Database) : Type 0 where
  pub spec : RunSpec
  pub state : RunState
  pub loaded : load_run run_id db ≡ ok (spec, state)
  pub told : status ≡ state.status
  pub settled : is_busy state.status ≡ false

pub Reports-same :
    (run_id : String) (status : Status) (db after : Database)
    → load_run run_id after ≡ load_run run_id db
    → Reports run_id status db
    → Reports run_id status after
Reports-same run_id status db after same r = record {
  spec = r.spec;
  state = r.state;
  loaded = same ∙ r.loaded;
  told = r.told;
  settled = r.settled;
}

pub Reports-along :
    (run_id : String) (a b : Status) (db after : Database)
    → a ≡ b
    → db ≡ after
    → Reports run_id a db
    → Reports run_id b after
Reports-along run_id a b db after p q r = rw (sym p, sym q) r

outcome-settled :
    (best : Option String) (status : Status) → status ≡ outcome best → is_busy status ≡ false
outcome-settled best status e = rw e (settled (is_truthy best))
  where
    settled : (b : Bool) → is_busy (if b then succeeded else no_result) ≡ false
    settled true = refl
    settled false = refl

dispatch-settled :
    (event : Event) (s t : RunState) (spec : RunSpec) (hash : Option String) (delta : Float)
    → settles event ≡ true
    → dispatch event s spec hash delta ≡ ok t
    → is_busy t.status ≡ false
unfolding dispatch status_after
dispatch-settled Event.evaluation_eligible s t spec none delta ends e = cc
dispatch-settled Event.supervisor_failed s t spec hash delta ends e =
    outcome-settled s.best_candidate_hash t.status (ground arith)
dispatch-settled Event.complete s t spec hash delta ends e =
    outcome-settled s.best_candidate_hash t.status (ground arith)
dispatch-settled Event.cancel s t spec hash delta ends e = ground arith
dispatch-settled _ s t spec hash delta ends e = ground arith

-- A transition that settles a run.
pub transition-Reports :
    (h : Hashing) (run_id : String) (event : Event) (n : ℕ) (hash : Option String) (cost : Value)
    (db : Database) (t : RunState) (after : Database)
    → settles event ≡ true
    → transition h run_id event n hash cost db ≡ (ok t, after)
    → Reports run_id t.status after
transition-Reports h run_id event n hash cost db t after ends e =
    let w = transition-Transitions h run_id event n hash cost db t after e in
    let a = apply_transition-Accepted h w.before event w.spec hash cost t w.stepped in
    record {
      spec = w.spec;
      state = t;
      loaded = w.loaded_after;
      told = refl;
      settled = dispatch-settled event w.before t w.spec hash a.delta ends a.stepped;
    }

pub verdict_ends : (b : Bool) → settles (verdict b) ≡ true
unfolding verdict
verdict_ends true = refl
verdict_ends false = refl

pub decide-Reports :
    (h : Hashing) (run_id : String) (s : RunState) (hash : String) (eligible : Bool) (db : Database)
    (t : RunState) (after : Database)
    → decide h run_id s hash eligible db ≡ (ok t, after)
    → Reports run_id t.status after
unfolding decide
decide-Reports h run_id s hash eligible db t after e =
    transition-Reports h run_id (verdict eligible) s.revision (best_hash eligible hash) no_cost db t
      after (verdict_ends eligible) e

pub conclude-Reports :
    (h : Hashing) (run_id : String) (s : RunState) (hash : String) (eligible : Bool) (db : Database)
    (t : RunState) (after : Database)
    → conclude h run_id s hash eligible db ≡ (ok t, after)
    → Reports run_id t.status after
unfolding conclude
conclude-Reports h run_id s hash eligible db t after e =
    let (ready, d, _, e1) =
      continue-ok (transition h run_id candidate_ready s.revision none no_cost db) _ e in
    decide-Reports h run_id ready hash eligible d t after e1

-- An observation leaves the runs as they are.
pub record_observation-load_run :
    (h : Hashing) (run_id event : String) (payload : Value) (db : Database) (u : Unit {0})
    (after : Database) (other : String)
    → record_observation h run_id event payload db ≡ (ok u, after)
    → load_run other after ≡ load_run other db
unfolding record_observation observation_statements load_run
record_observation-load_run h run_id event payload db u after other e =
    let e0 = transact-ok (observation_statements h run_id event payload) db e in
    let (row, _, e1) = lift-ok (found (find_run run_id db.runs)) _ db e0 in
    let (s, _, e2) = lift-ok (state_from_json row.state_json) _ db e1 in
    let (_, _, e2) = lift-ok (state_json s) _ db e2 in
    let (_, _, e3) = lift-ok (writable payload) _ db e2 in
    rw (append_event-ok h run_id event s payload db u after e3) refl
