-- ===== src/Storage/Calls/Recorded.antt =====
-- The last event of a run against its stored state.
use hermes_agentic_variation.Base.{
  ℕ, suc, String, false, List, [], ◌∷◌, ◌++◌, Option, some, ◌≡◌, ◌≢◌, refl, sym, ◌∙◌, inl, inr,
  str_eq, eq_iff, Bool-cases,
}
use hermes_agentic_variation.Base.Result.{Result, ok, >>=-eq-ok, ok-injective}
use hermes_agentic_variation.Base.Value.{Value}
use hermes_agentic_variation.Contracts.Identity.{Hashing}
use hermes_agentic_variation.Contracts.RunSpec.{RunSpec}
use hermes_agentic_variation.Contracts.RunSpec.Stored.{spec_from_json}
use hermes_agentic_variation.StateMachine.{Event, RunState}
use hermes_agentic_variation.Storage.Calls.Untouched.{Untouched}
use hermes_agentic_variation.Storage.Monad.{lift-ok, transact-ok}
use hermes_agentic_variation.Storage.Reads.{
  event_text, load_run, loaded, found, events, events_of, writable,
}
use hermes_agentic_variation.Storage.Rows.{events_of-append}
use hermes_agentic_variation.Storage.Runs.{
  transition, transition_payload, record_observation, observation_statements,
}
use hermes_agentic_variation.Storage.State.{state_hash, state_json, state_from_json}
use hermes_agentic_variation.Storage.Tables.{Run, EventRow, Database, find_run}
use hermes_agentic_variation.Storage.Transition.{logged, append_event-ok, found-some}
use hermes_agentic_variation.Storage.Transition.Readers.{
  Transitions, transition-Transitions, events-of-run, events-of-other, append-nil,
}

-- The run's last event has its state's revision and digest.
pub record Logged (h : Hashing) (id : String) (s : RunState) (db : Database) : Type 0 where
  pub earlier : List EventRow
  pub last : EventRow
  pub log : events id db ≡ earlier ++ last ∷ []
  pub revision : last.revision ≡ s.revision
  pub digest : last.state_hash ≡ state_hash h s

abbrev pub Recorded : Hashing → Database → Type 0
Recorded h db =
    (id : String) (spec : RunSpec) (s : RunState) → load_run id db ≡ ok (spec, s) → Logged h id s db

same_state :
    (a b : RunSpec) (x y : RunState)
    → ◌≡◌ {A = Result (RunSpec × RunState)} (ok (a, x)) (ok (b, y))
    → x ≡ y
same_state a b x y e = cc

-- A run whose state and events are as before.
pub kept :
    (h : Hashing) (id : String) (spec : RunSpec) (s : RunState) (db after : Database)
    → Recorded h db
    → load_run id after ≡ load_run id db
    → events id after ≡ events id db
    → load_run id after ≡ ok (spec, s)
    → Logged h id s after
kept h id spec s db after rec same_load same_events l =
    let w = rec id spec s (sym same_load ∙ l) in
    record {
      earlier = w.earlier;
      last = w.last;
      log = same_events ∙ w.log;
      revision = w.revision;
      digest = w.digest;
    }

-- A run whose events end in the one that was just logged.
fresh :
    (h : Hashing) (id event : String) (s t : RunState) (payload : Value) (n : ℕ)
    (earlier : List EventRow) (after : Database)
    → t ≡ s
    → events id after ≡ earlier ++ logged h id event t payload n ∷ []
    → Logged h id s after
unfolding logged
fresh h id event s t payload n earlier after same log = record {
  earlier = earlier;
  last = logged h id event t payload n;
  log = log;
  revision = rw same;
  digest = rw same;
}

pub Untouched-Recorded :
    (h : Hashing) (db after : Database) → Untouched db after → Recorded h db → Recorded h after
unfolding load_run events
Untouched-Recorded h db after u rec id spec s l =
    kept h id spec s db after rec (rw u.runs) (rw u.run_events) l

pub transition-Recorded :
    (h : Hashing) (run_id : String) (event : Event) (n : ℕ) (hash : Option String) (cost : Value)
    (db : Database) (t : RunState) (after : Database)
    → transition h run_id event n hash cost db ≡ (ok t, after)
    → Recorded h db
    → Recorded h after
transition-Recorded h run_id event n hash cost db t after e rec id spec s l =
    let w = transition-Transitions h run_id event n hash cost db t after e in
    elim (Bool-cases (str_eq id run_id)) [
      | inl q ↦ let same = (eq_iff id run_id).0 q in own w same l
      | inr q ↦
          let (a, b) = w.others id (λ p. apart id run_id p q) in kept h id spec s db after rec a b l
    ]
  where
    apart : (a b : String) → a ≡ b → str_eq a b ≡ false → ⊥
    apart a b p q = let r = (eq_iff a b).1 p in cc

    own :
        (w : Transitions h run_id event n hash cost db t after)
        → id ≡ run_id
        → load_run id after ≡ ok (spec, s)
        → Logged h id s after
    own w same l =
        let l' : load_run run_id after ≡ ok (spec, s) = rw (sym same) l in
        rw same (
          fresh h run_id (event_text event) s t (transition_payload hash cost) db.last_event_id
            (events run_id db) after (same_state w.spec spec t s (sym w.loaded_after ∙ l'))
            w.one_event)

module _ (h : Hashing) (run_id event : String) (t : RunState) (payload : Value)
    (db : Database) where
  abbrev row : EventRow
  row = logged h run_id event t payload db.last_event_id

  abbrev pub appended : Database
  appended = record db {
    run_events = db.run_events ++ row ∷ [];
    last_event_id = suc db.last_event_id;
  }

  events-own : events run_id appended ≡ events run_id db ++ row ∷ []
  unfolding events logged
  events-own = rw (events_of-append run_id db.run_events (row ∷ []), events-of-run run_id row refl)

  events-apart : (id : String) → id ≢ run_id → events id appended ≡ events id db
  unfolding events logged
  events-apart id ne =
      rw (events_of-append id db.run_events (row ∷ []), events-of-other id row (λ q. ne (sym q)))
        (append-nil (events_of id db.run_events))

  -- The state that a run's row gives.
  loaded_state :
      (r : Run) (spec : RunSpec) (s : RunState)
      → find_run run_id db.runs ≡ some r
      → state_from_json r.state_json ≡ ok t
      → load_run run_id appended ≡ ok (spec, s)
      → t ≡ s
  unfolding load_run loaded
  loaded_state r spec s f q l =
      let (r1, f1, l1) = >>=-eq-ok (found (find_run run_id db.runs)) _ l in
      let (spec1, _, l2) = >>=-eq-ok (spec_from_json r1.spec_json) _ l1 in
      let (s1, q1, l3) = >>=-eq-ok (state_from_json r1.state_json) _ l2 in
      let same_row : r ≡ r1 = some-same r r1 (sym f ∙ found-some (find_run run_id db.runs) r1 f1) in
      ok-injective t s1 (sym q ∙ along same_row q1) ∙ same_state spec1 spec s1 s l3
    where
      some-same : (a b : Run) → some a ≡ some b → a ≡ b
      some-same a b e = cc

      along :
          {a b : Run} {x : RunState}
          → a ≡ b
          → state_from_json b.state_json ≡ ok x
          → state_from_json a.state_json ≡ ok x
      along e q = rw e q

  -- An event that carries the state of its run's row.
  pub appended-Recorded :
      (r : Run)
      → find_run run_id db.runs ≡ some r
      → state_from_json r.state_json ≡ ok t
      → ((id : String) (spec : RunSpec) (s : RunState)
          → id ≢ run_id
          → load_run id db ≡ ok (spec, s)
          → Logged h id s db)
      → Recorded h appended
  unfolding load_run
  appended-Recorded r f q others id spec s l = elim (Bool-cases (str_eq id run_id)) [
    | inl e ↦
        let same = (eq_iff id run_id).0 e in
        let l' : load_run run_id appended ≡ ok (spec, s) = rw (sym same) l in
        rw same (
          fresh h run_id event s t payload db.last_event_id (events run_id db) appended
            (loaded_state r spec s f q l') events-own)
    | inr e ↦
        let ne : id ≢ run_id = λ p. differs id run_id p e in
        let w = others id spec s ne l in
        record {
          earlier = w.earlier;
          last = w.last;
          log = events-apart id ne ∙ w.log;
          revision = w.revision;
          digest = w.digest;
        }
  ]
    where
      differs : (a b : String) → a ≡ b → str_eq a b ≡ false → ⊥
      differs a b p q = let r = (eq_iff a b).1 p in cc

pub observation-Recorded :
    (h : Hashing) (run_id event : String) (payload : Value) (db : Database) (u : Unit {0})
    (after : Database)
    → record_observation h run_id event payload db ≡ (ok u, after)
    → Recorded h db
    → Recorded h after
unfolding record_observation observation_statements
observation-Recorded h run_id event payload db u after e rec =
    let e0 = transact-ok (observation_statements h run_id event payload) db e in
    let (r, f, e1) = lift-ok (found (find_run run_id db.runs)) _ db e0 in
    let (s, q, e2) = lift-ok (state_from_json r.state_json) _ db e1 in
    let (_, _, e2) = lift-ok (state_json s) _ db e2 in
    let (_, _, e3) = lift-ok (writable payload) _ db e2 in
    rw (append_event-ok h run_id event s payload db u after e3) (
      appended-Recorded h run_id event s payload db r (found-some (find_run run_id db.runs) r f) q
        (λ id spec t ne l. rec id spec t l))
