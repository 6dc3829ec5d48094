-- ===== src/Storage/Transition/Stale.antt =====
-- Optimistic concurrency: a transition from an old revision.
use hermes_agentic_variation.Base.{ℕ, ◌+◌, ◌==◌, String, true, false, Option, ◌≡◌, ◌≢◌, arith}
use hermes_agentic_variation.Base.Result.{Error, Result, storage_conflict, ok, err, >>=-eq-ok}
use hermes_agentic_variation.Base.Value.{Value}
use hermes_agentic_variation.Contracts.Identity.{Hashing}
use hermes_agentic_variation.Contracts.RunSpec.{RunSpec}
use hermes_agentic_variation.Contracts.RunSpec.Stored.{spec_from_json}
use hermes_agentic_variation.StateMachine.{Event, RunState, apply_transition}
use hermes_agentic_variation.StateMachine.Effect.{apply_transition-Changes}
use hermes_agentic_variation.Storage.Reads.{load_run, loaded, found}
use hermes_agentic_variation.Storage.Runs.{transition, transition_statements}
use hermes_agentic_variation.Storage.State.{state_from_json}
use hermes_agentic_variation.Storage.Tables.{Database, find_run}
use hermes_agentic_variation.Storage.Transition.{found-some}
use hermes_agentic_variation.Storage.Transition.Readers.{transition-Transitions}

-- A transition whose expected revision is not the run's is refused as a conflict, whatever the
-- event, and changes nothing.
pub transition-stale :
    (h : Hashing) (run_id : String) (event : Event) (expected : ℕ) (hash : Option String)
    (cost : Value) (db : Database) (spec : RunSpec) (s : RunState)
    → load_run run_id db ≡ ok (spec, s)
    → s.revision ≢ expected
    → transition h run_id event expected hash cost db
      ≡ (err (storage_conflict "revision mismatch"), db)
unfolding load_run loaded transition transition_statements
transition-stale h run_id event expected hash cost db spec s l ne =
    let (row, f, e1) = >>=-eq-ok (found (find_run run_id db.runs)) _ l in
    let (spec1, p, e2) = >>=-eq-ok (spec_from_json row.spec_json) _ e1 in
    let (s1, q, e3) = >>=-eq-ok (state_from_json row.state_json) _ e2 in
    let same : s1 ≡ s = same_state spec1 spec s1 s e3 in
    rw (found-some (find_run run_id db.runs) row f, p, q, same, differs s.revision expected ne)
  where
    same_state :
        (a b : RunSpec) (x y : RunState)
        → ◌≡◌ {A = Result (RunSpec × RunState)} (ok (a, x)) (ok (b, y))
        → x ≡ y
    same_state a b x y e = cc

    differs : (m n : ℕ) → m ≢ n → (m == n) ≡ false
    differs m n ne = ground arith

-- Of two transitions from one revision only the first succeeds: after it, the second is refused
-- as a conflict and changes nothing.
pub no_lost_update :
    (h : Hashing) (run_id : String) (event second : Event) (expected : ℕ)
    (hash second_hash : Option String) (cost second_cost : Value) (db : Database) (t : RunState)
    (after : Database)
    → transition h run_id event expected hash cost db ≡ (ok t, after)
    → transition h run_id second expected second_hash second_cost after
      ≡ (err (storage_conflict "revision mismatch"), after)
no_lost_update h run_id event second expected hash second_hash cost second_cost db t after e =
    let w = transition-Transitions h run_id event expected hash cost db t after e in
    let c = apply_transition-Changes h w.spec w.before t event hash cost w.stepped in
    transition-stale h run_id second expected second_hash second_cost after w.spec t w.loaded_after
      (λ same. later w.before.revision t.revision expected w.current c.next_revision same)
  where
    later : (a b n : ℕ) → a ≡ n → b ≡ a + 1 → b ≢ n
    later a b n p q r = omega arith

-- A transition that the state machine refuses is refused by the store with the same error, and
-- changes nothing.
pub transition-refused :
    (h : Hashing) (run_id : String) (event : Event) (hash : Option String) (cost : Value)
    (db : Database) (spec : RunSpec) (s : RunState) (e : Error)
    → load_run run_id db ≡ ok (spec, s)
    → apply_transition h s event spec hash cost ≡ err e
    → transition h run_id event s.revision hash cost db ≡ (err e, db)
unfolding load_run loaded transition transition_statements
transition-refused h run_id event hash cost db spec s e l refused =
    let (row, f, e1) = >>=-eq-ok (found (find_run run_id db.runs)) _ l in
    let (spec1, p, e2) = >>=-eq-ok (spec_from_json row.spec_json) _ e1 in
    let (s1, q, e3) = >>=-eq-ok (state_from_json row.state_json) _ e2 in
    let (same_spec, same_state) = pair spec1 spec s1 s e3 in
    rw (
      found-some (find_run run_id db.runs) row f,
      p,
      q,
      same_spec,
      same_state,
      equal s.revision,
      refused,
    )
  where
    pair :
        (a b : RunSpec) (x y : RunState)
        → ◌≡◌ {A = Result (RunSpec × RunState)} (ok (a, x)) (ok (b, y))
        → (a ≡ b) × (x ≡ y)
    pair a b x y q = (cc, cc)

    equal : (n : ℕ) → (n == n) ≡ true
    equal n = ground arith
