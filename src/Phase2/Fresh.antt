-- ===== src/Phase2/Fresh.antt =====
-- The memory that `_refresh_memory` leaves.
use hermes_agentic_variation.Base.{
  ℕ, String, List, Option, none, some, ◌≡◌, refl, sym, ◌∙◌, inl, inr, Bool-cases, is_blank,
}
use hermes_agentic_variation.Base.Result.{Result, contract_error, ok, err, >>=-eq-ok}
use hermes_agentic_variation.Base.Value.{Value, str}
use hermes_agentic_variation.Contracts.Checks.{is_digest, require_text, require_digest}
use hermes_agentic_variation.Contracts.Identity.{Hashing}
use hermes_agentic_variation.Contracts.Json.{natural, optional_text}
use hermes_agentic_variation.Contracts.Memory
use hermes_agentic_variation.Contracts.Memory.{
  MemoryArgs, ContinuationMemory, require_natural, require_optional_digest,
}
use hermes_agentic_variation.Contracts.Memory.Accepted.{new-Accepted}
use hermes_agentic_variation.Contracts.RunSpec.{RunSpec}
use hermes_agentic_variation.Contracts.RunSpec.Stored.{identity}
use hermes_agentic_variation.Phase2.Refresh.{
  memory_args, effective_advice, current_revision, refresh_memory,
}
use hermes_agentic_variation.StateMachine.{RunState}
use hermes_agentic_variation.Storage.Calls.Untouched.{Untouched, save_memory-Leaves}
use hermes_agentic_variation.Storage.Evidence.{lineage, supervisor_advice}
use hermes_agentic_variation.Storage.Memories.{load_memory, save_memory}
use hermes_agentic_variation.Storage.Memories.Saved.{save_memory-Saved}
use hermes_agentic_variation.Storage.Monad.{continue-ok, lift-ok, pure-ok}
use hermes_agentic_variation.Storage.Reads.{load_run}
use hermes_agentic_variation.Storage.State.{status_text}
use hermes_agentic_variation.Storage.Tables.{Database}

-- The stored memory is that of the stored state.
pub record IsFresh (h : Hashing) (run_id : String) (state : RunState) (db : Database) : Type 0 where
  pub spec : RunSpec
  pub loaded : load_run run_id db ≡ ok (spec, state)
  pub memory : ContinuationMemory
  pub remembered : load_memory run_id db ≡ ok (some memory)
  pub bound : memory.run_spec_hash ≡ identity h spec
  pub revision : memory.state_revision ≡ state.revision
  pub status : memory.run_status ≡ status_text state.status
  pub best : memory.best_candidate_hash ≡ state.best_candidate_hash

require_text-same : (name s t : String) → require_text name (str s) ≡ ok t → t ≡ s
unfolding require_text
require_text-same name s t h = elim (Bool-cases (is_blank s)) [
  | inl e ↦
      let p : err (contract_error name "must be a non-empty string") ≡ ok t = rw (sym h, e) in cc
  | inr e ↦ let p : ok s ≡ ok t = rw (sym h, e) in cc
]

require_digest-same : (name s t : String) → require_digest name (str s) ≡ ok t → t ≡ s
unfolding require_digest
require_digest-same name s t h = elim (Bool-cases (is_digest s)) [
  | inl e ↦ let p : ok s ≡ ok t = rw (sym h, e) in cc
  | inr e ↦
      let p : err (contract_error name "must be a lowercase SHA-256 digest") ≡ ok t =
        rw (sym h, e) in
      cc
]

require_natural-same : (name : String) (m n : ℕ) → require_natural name (natural m) ≡ ok n → n ≡ m
unfolding require_natural
require_natural-same name m n h = cc

optional-same :
    (name : String) (o p : Option String)
    → require_optional_digest name (optional_text o) ≡ ok p
    → p ≡ o
unfolding require_optional_digest
optional-same name none p h = cc
optional-same name (some s) p h =
    let (t, q, e) = >>=-eq-ok (require_digest name (str s)) _ h in
    let same : t ≡ s = require_digest-same name s t q in cc

load_run-along :
    (run_id : String) (db after : Database)
    → after.runs ≡ db.runs
    → load_run run_id after ≡ load_run run_id db
unfolding load_run
load_run-along run_id db after e = rw e refl

pub loaded_unique :
    (a b : RunSpec) (x y : RunState)
    → ◌≡◌ {A = Result (RunSpec × RunState)} (ok (a, x)) (ok (b, y))
    → (a ≡ b) × (x ≡ y)
loaded_unique a b x y q = (cc, cc)

built-IsFresh :
    (h : Hashing) (run_id : String) (spec : RunSpec) (state : RunState)
    (previous : Option ContinuationMemory) (documents : List Value × List Value)
    (failure advice : Option String) (m : ContinuationMemory) (db : Database) (u : Unit {0})
    (after : Database)
    → load_run run_id db ≡ ok (spec, state)
    → Memory.new (memory_args h spec state previous documents failure advice) ≡ ok m
    → save_memory h run_id m (current_revision previous) db ≡ (ok u, after)
    → IsFresh h run_id state after
unfolding memory_args
built-IsFresh h run_id spec state previous documents failure advice m db u after l made saved =
    let args : MemoryArgs = memory_args h spec state previous documents failure advice in
    let w = new-Accepted args m made in
    let left : Untouched db (save_memory h run_id m (current_revision previous) db).1 =
      save_memory-Leaves h run_id m (current_revision previous) db in
    record {
      spec = spec;
      loaded = load_run-along run_id db after (runs_of db _ u after saved left) ∙ l;
      memory = m;
      remembered =
          (save_memory-Saved h run_id args m (current_revision previous) db u after made
            saved).loaded;
      bound = require_digest-same _ _ m.run_spec_hash w.run_spec_hash;
      revision = require_natural-same _ _ m.state_revision w.state_revision;
      status = require_text-same _ _ m.run_status w.run_status;
      best = optional-same _ state.best_candidate_hash m.best_candidate_hash w.best_candidate_hash;
    }
  where
    runs_of :
        (before : Database) (x : Result (Unit {0}) × Database) (v : Unit {0}) (d : Database)
        → x ≡ (ok v, d)
        → Untouched before x.1
        → d.runs ≡ before.runs
    runs_of before x v d p w = let q : x.1 ≡ d = cc in rw (sym q) w.runs

-- The memory of a state, saved over the previous one.
pub refresh_memory-IsFresh :
    (h : Hashing) (run_id : String) (failure advice : Option String) (db : Database)
    (memory : ContinuationMemory) (after : Database) (spec : RunSpec) (state : RunState)
    → refresh_memory h run_id failure advice db ≡ (ok memory, after)
    → load_run run_id db ≡ ok (spec, state)
    → IsFresh h run_id state after
unfolding refresh_memory
refresh_memory-IsFresh h run_id failure advice db memory after spec state e l =
    let (found, p, e1) = lift-ok (load_run run_id db) _ db e in
    let (previous, _, e2) = lift-ok (load_memory run_id db) _ db e1 in
    let effective : Option String = effective_advice h advice (supervisor_advice run_id db) in
    let (m, made, e3) =
      lift-ok
        (Memory.new (memory_args h found.0 found.1 previous (lineage run_id db) failure effective))
        _ db e2 in
    let (u, d, saved, e4) =
      continue-ok (save_memory h run_id m (current_revision previous) db) _ e3 in
    let (same, same_db) = pure-ok m memory d after e4 in
    let (same_spec, same_state) = loaded_unique found.0 spec found.1 state (sym p ∙ l) in
    along found.1 d same_state same_db (
      built-IsFresh h run_id found.0 found.1 previous (lineage run_id db) failure effective m db u d
        p made saved)
  where
    along :
        (x : RunState) (d : Database)
        → x ≡ state
        → d ≡ after
        → IsFresh h run_id x d
        → IsFresh h run_id state after
    along x d a b w = rw (sym a, sym b) w
