-- ===== src/Contracts/Memory.antt =====
-- contracts.py: `ContinuationMemory`, and storage.py: `_memory_from_json`.
pub mod Accepted
pub mod RoundTrip
use hermes_agentic_variation.Base.{
  ℕ, suc, String, Bool, true, false, not, List, [], ◌∷◌, Option, none, some, any, all, len, length,
  str_eq, ltb, ◌&&◌, if◌then◌else◌, refl, ◌≡◌,
}
use hermes_agentic_variation.Base.Int.{pos}
use hermes_agentic_variation.Base.Float.{int}
use hermes_agentic_variation.Base.Result.{
  contract_error, storage_conflict, key_error, type_error, Result, ok, err, require, raise_if,
  ◌>>=◌, ◌>>◌,
}
use hermes_agentic_variation.Base.Value.{Value, null, num, str, tuple, dict, Entries, entry}
use hermes_agentic_variation.Contracts.Checks.{
  is_digest, require_text, require_digest, require_text_tuple, require_positive,
}
use hermes_agentic_variation.Contracts.Identity.{Hashing}
use hermes_agentic_variation.Contracts.Json.{
  fields, text_list, text_values, natural, optional_text, get,
}
use hermes_agentic_variation.Contracts.RunSpec.Stored.{
  argument, pop, tuple_item, is_version, known, known,
}

-- The values that the constructor is called with.
pub record MemoryArgs : Type 0 where
  pub run_spec_hash : Value
  pub memory_revision : Value
  pub run_status : Value
  pub state_revision : Value
  pub best_candidate_hash : Value
  pub recent_candidate_hashes : Value
  pub recent_evaluation_hashes : Value
  pub recent_failure_signatures : Value
  pub tried_hypotheses : Value
  pub supervisor_advice_hash : Value

pub record ContinuationMemory : Type 0 where
  pub run_spec_hash : String
  pub memory_revision : ℕ
  pub run_status : String
  pub state_revision : ℕ
  pub best_candidate_hash : Option String
  pub recent_candidate_hashes : List String
  pub recent_evaluation_hashes : List String
  pub recent_failure_signatures : List String
  pub tried_hypotheses : List String
  pub supervisor_advice_hash : Option String

-- `type(x) is not int or x < 0`
unfoldable pub require_natural : String → Value → Result ℕ
require_natural name (num (int (pos n))) = ok n
require_natural name _ = err (contract_error name "must be a non-negative integer")

-- A digest, unless it is None.
unfoldable pub require_optional_digest : String → Value → Result (Option String)
unfolding require_digest
require_optional_digest name null = ok none
require_optional_digest name v = do s ← require_digest name v; ok (some s)

-- At most five digests.
unfoldable pub require_digests : String → Value → Result (List String)
unfolding require_text_tuple
require_digests name v = do
  ss ← require_text_tuple name true v
  raise_if (ltb 5 (length ss)) (contract_error name "must contain at most five items")
  require (all is_digest ss) (contract_error name "must be a lowercase SHA-256 digest")
  ok ss

-- At most five texts of at most 300 characters.
unfoldable pub require_notes : String → Value → Result (List String)
unfolding require_text_tuple
require_notes name v = do
  ss ← require_text_tuple name true v
  raise_if (ltb 5 (length ss)) (contract_error name "must contain at most five items")
  raise_if (any (λ s. ltb 300 (len s)) ss)
      (contract_error name "entries must be at most 300 characters")
  ok ss

-- `ContinuationMemory.__post_init__`
unfoldable pub new : MemoryArgs → Result ContinuationMemory
unfolding require_natural require_optional_digest require_digests require_notes
new a = do
  run_spec_hash ← require_digest "run_spec_hash" a.run_spec_hash
  run_status ← require_text "run_status" a.run_status
  memory_revision ← require_positive "memory_revision" a.memory_revision
  state_revision ← require_natural "state_revision" a.state_revision
  best ← require_optional_digest "best_candidate_hash" a.best_candidate_hash
  advice ← require_optional_digest "supervisor_advice_hash" a.supervisor_advice_hash
  candidates ← require_digests "recent_candidate_hashes" a.recent_candidate_hashes
  evaluations ← require_digests "recent_evaluation_hashes" a.recent_evaluation_hashes
  failures ← require_notes "recent_failure_signatures" a.recent_failure_signatures
  hypotheses ← require_notes "tried_hypotheses" a.tried_hypotheses
  ok (record {
    run_spec_hash = run_spec_hash;
    memory_revision = memory_revision;
    run_status = run_status;
    state_revision = state_revision;
    best_candidate_hash = best;
    recent_candidate_hashes = candidates;
    recent_evaluation_hashes = evaluations;
    recent_failure_signatures = failures;
    tried_hypotheses = hypotheses;
    supervisor_advice_hash = advice;
  })

abbrev memory_version : String
memory_version = "avo.continuation-memory.v1"

unfoldable pub to_dict : ContinuationMemory → Value
to_dict m = dict (
    fields (
      ("contract_version", str memory_version)
      ∷ ("run_spec_hash", str m.run_spec_hash)
      ∷ ("memory_revision", natural m.memory_revision)
      ∷ ("run_status", str m.run_status)
      ∷ ("state_revision", natural m.state_revision)
      ∷ ("best_candidate_hash", optional_text m.best_candidate_hash)
      ∷ ("recent_candidate_hashes", text_list m.recent_candidate_hashes)
      ∷ ("recent_evaluation_hashes", text_list m.recent_evaluation_hashes)
      ∷ ("recent_failure_signatures", text_list m.recent_failure_signatures)
      ∷ ("tried_hypotheses", text_list m.tried_hypotheses)
      ∷ ("supervisor_advice_hash", optional_text m.supervisor_advice_hash)
      ∷ []))

-- `memory.identity`
unfoldable pub identity : Hashing → ContinuationMemory → String
identity h m = h.of_json (to_dict m)

abbrev memory_fields : List String
memory_fields =
    "run_spec_hash" ∷ "memory_revision" ∷ "run_status" ∷ "state_revision" ∷ "best_candidate_hash"
    ∷ "recent_candidate_hashes" ∷ "recent_evaluation_hashes" ∷ "recent_failure_signatures"
    ∷ "tried_hypotheses" ∷ "supervisor_advice_hash" ∷ []

-- The call `ContinuationMemory(**data)`.
unfoldable pub memory_of_kwargs : Entries → Result ContinuationMemory
unfolding argument new
memory_of_kwargs es = do
  require (known memory_fields es) type_error
  run_spec_hash ← argument "run_spec_hash" es
  memory_revision ← argument "memory_revision" es
  run_status ← argument "run_status" es
  state_revision ← argument "state_revision" es
  best ← argument "best_candidate_hash" es
  candidates ← argument "recent_candidate_hashes" es
  evaluations ← argument "recent_evaluation_hashes" es
  failures ← argument "recent_failure_signatures" es
  hypotheses ← argument "tried_hypotheses" es
  advice ← argument "supervisor_advice_hash" es
  new (record {
    run_spec_hash = run_spec_hash;
    memory_revision = memory_revision;
    run_status = run_status;
    state_revision = state_revision;
    best_candidate_hash = best;
    recent_candidate_hashes = candidates;
    recent_evaluation_hashes = evaluations;
    recent_failure_signatures = failures;
    tried_hypotheses = hypotheses;
    supervisor_advice_hash = advice;
  })

-- `_memory_from_json`
unfoldable pub memory_from_json : Value → Result ContinuationMemory
unfolding memory_of_kwargs tuple_item
memory_from_json (dict es) = do
  require (is_version memory_version (get "contract_version" es))
      (storage_conflict "unsupported ContinuationMemory contract version")
  a ← tuple_item "recent_candidate_hashes" (pop "contract_version" es)
  b ← tuple_item "recent_evaluation_hashes" a
  c ← tuple_item "recent_failure_signatures" b
  d ← tuple_item "tried_hypotheses" c
  memory_of_kwargs d
memory_from_json _ = err type_error
