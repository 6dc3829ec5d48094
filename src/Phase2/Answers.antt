-- ===== src/Phase2/Answers.antt =====
-- What a method that changes a run leaves: `step`, `cancel` and `create_run` of phase2.py.
use hermes_agentic_variation.Base.{String, Option, none, some, ◌≡◌, refl, ap, sym}
use hermes_agentic_variation.Base.Result
use hermes_agentic_variation.Base.Result.{value_error, ok}
use hermes_agentic_variation.Base.Value.{Value}
use hermes_agentic_variation.Contracts.Identity.{Hashing}
use hermes_agentic_variation.Contracts.Memory.{ContinuationMemory}
use hermes_agentic_variation.Contracts.RunSpec
use hermes_agentic_variation.Contracts.RunSpec.{RunSpec}
use hermes_agentic_variation.Controller.Answers.{status_of}
use hermes_agentic_variation.Controller.Steps
use hermes_agentic_variation.Controller.Steps.{Phase1Controller, Reply, require_enabled, cancel_run}
use hermes_agentic_variation.Controller.StepAnswers.{step-Reports}
use hermes_agentic_variation.Phase2.Fresh.{IsFresh, refresh_memory-IsFresh}
use hermes_agentic_variation.Phase2.Methods.{as_phase2, spec_args, create, error_of, step, cancel}
use hermes_agentic_variation.Phase2.Refresh.{refresh_memory}
use hermes_agentic_variation.StateMachine.{Status, Event, approve, RunState, no_cost}
use hermes_agentic_variation.Storage.Monad.{continue-ok, lift-ok, pure-ok}
use hermes_agentic_variation.Storage.Reads.{load_run}
use hermes_agentic_variation.Storage.Runs.{create_run, transition}
use hermes_agentic_variation.Storage.Tables.{Database}
use hermes_agentic_variation.Verdict.{is_in_flight}
use hermes_agentic_variation.Verdict.Reports.{Reports, transition-Reports}

-- The status that is told is the stored one, no child is at work, and the memory is that of the
-- stored state.
pub record Answered (h : Hashing) (run_id : String) (status : Status) (db : Database) : Type 0 where
  pub reports : Reports run_id status db
  pub fresh : IsFresh h run_id reports.state db

pub Answered-along :
    (h : Hashing) (run_id : String) (a b : Status) (db after : Database)
    → a ≡ b
    → db ≡ after
    → Answered h run_id a db
    → Answered h run_id b after
Answered-along h run_id a b db after p q r = rw (sym p, sym q) r

pub Answered-state :
    (h : Hashing) (run_id : String) (a b : RunState) (db after : Database)
    → a ≡ b
    → db ≡ after
    → Answered h run_id a.status db
    → Answered h run_id b.status after
Answered-state h run_id a b db after p q r = rw (sym p, sym q) r

-- The refresh after the last transition.
pub refresh_memory-Answered :
    (h : Hashing) (run_id : String) (failure advice : Option String) (status : Status)
    (db : Database) (memory : ContinuationMemory) (after : Database)
    → Reports run_id status db
    → refresh_memory h run_id failure advice db ≡ (ok memory, after)
    → Answered h run_id status after
refresh_memory-Answered h run_id failure advice status db memory after r e =
    let fresh =
      refresh_memory-IsFresh h run_id failure advice db memory after r.spec r.state e r.loaded in
    record {
      reports = record {
        spec = fresh.spec;
        state = r.state;
        loaded = fresh.loaded;
        told = r.told;
        settled = r.settled;
      };
      fresh = fresh;
    }

-- When a step answers, whatever the child did, the status that it tells is the one that the ledger then holds for the run, no child is at work for the run any more, and the memory that is stored for it has the revision, the status and the best candidate of the stored state.
pub step-Answered :
    (c : Phase1Controller) (run_id : String) (db : Database) (reply : Reply) (after : Database)
    → step c run_id db ≡ (ok reply, after)
    → Answered c.hashing run_id (status_of reply) after
unfolding step
step-Answered c run_id db reply after e =
    let (answer, d1, q, e1) = continue-ok (Steps.step (as_phase2 c) run_id db) _ e in
    let (memory, d2, saved, e2) =
      continue-ok (refresh_memory c.hashing run_id (error_of answer) none d1) _ e1 in
    let (same, same_db) = pure-ok answer reply d2 after e2 in
    Answered-along c.hashing run_id (status_of answer) (status_of reply) d2 after
      (ap status_of same) same_db
      (refresh_memory-Answered c.hashing run_id (error_of answer) none (status_of answer) d1 memory
        d2 (step-Reports (as_phase2 c) run_id db answer d1 q) saved)

-- A cancellation tells the stored status, and leaves the memory of the stored state.
pub cancel-Answered :
    (c : Phase1Controller) (run_id : String) (db : Database) (t : RunState) (after : Database)
    → cancel c run_id db ≡ (ok t, after)
    → Answered c.hashing run_id t.status after
unfolding cancel cancel_run require_enabled
cancel-Answered c run_id db t after e =
    let (s, d1, q, e1) = continue-ok (cancel_run (as_phase2 c) run_id db) _ e in
    let (memory, d2, saved, e2) =
      continue-ok (refresh_memory c.hashing run_id (some "CANCELLED") none d1) _ e1 in
    let (same, same_db) = pure-ok s t d2 after e2 in
    let (_, _, q1) = lift-ok (Result.require c.enabled (as_phase2 c).disabled) _ db q in
    let (found, _, q2) = lift-ok (load_run run_id db) _ db q1 in
    let (_, _, q3) =
      lift-ok
        (Result.raise_if (is_in_flight found.1.status)
          (value_error "in-flight cancellation is not claimed in Phase 1"))
        _ db q2 in
    Answered-state c.hashing run_id s t d2 after same same_db (
      refresh_memory-Answered c.hashing run_id (some "CANCELLED") none s.status d1 memory d2
        (transition-Reports c.hashing run_id Event.cancel found.1.revision none no_cost db s d1 refl
          q3)
        saved)

-- A new run is told as it is stored, and has a memory of its stored state.
pub create-Answered :
    (c : Phase1Controller) (run_id : String) (objective receipt : Value) (db : Database)
    (t : RunState) (after : Database)
    → create c run_id objective receipt db ≡ (ok t, after)
    → Answered c.hashing run_id t.status after
unfolding create require_enabled
create-Answered c run_id objective receipt db t after e =
    let (_, _, e1) = lift-ok (Result.require c.enabled (as_phase2 c).disabled) _ db e in
    let (spec, _, e2) =
      lift-ok (RunSpec.new (spec_args c.hashing run_id objective receipt c.wait_seconds)) _ db e1 in
    let (s, d1, _, e3) = continue-ok (create_run c.hashing spec db) _ e2 in
    let (approved, d2, q, e4) =
      continue-ok (transition c.hashing run_id approve s.revision none no_cost d1) _ e3 in
    let (memory, d3, saved, e5) = continue-ok (refresh_memory c.hashing run_id none none d2) _ e4 in
    let (same, same_db) = pure-ok approved t d3 after e5 in
    Answered-state c.hashing run_id approved t d3 after same same_db (
      refresh_memory-Answered c.hashing run_id none none approved.status d2 memory d3
        (transition-Reports c.hashing run_id approve s.revision none no_cost d1 approved d2 refl q)
        saved)
