-- ===== src/Phase2/Refresh.antt =====
-- phase2.py: `_refresh_memory`.
use hermes_agentic_variation.Base.{
  ℕ, zero, suc, ◌+◌, ◌-◌, String, List, [], ◌∷◌, ◌++◌, Option, none, some, str_eq, length, drop,
  map, if◌then◌else◌,
}
use hermes_agentic_variation.Base.Value.{Value, str, tuple, dict}
use hermes_agentic_variation.Contracts.Identity.{Hashing}
use hermes_agentic_variation.Contracts.Json.{get, natural, optional_text, text_values}
use hermes_agentic_variation.Contracts.Memory
use hermes_agentic_variation.Contracts.Memory.{MemoryArgs, ContinuationMemory}
use hermes_agentic_variation.Contracts.RunSpec.{RunSpec}
use hermes_agentic_variation.Contracts.RunSpec.Stored.{identity}
use hermes_agentic_variation.StateMachine.{RunState}
use hermes_agentic_variation.Storage.Evidence.{lineage, supervisor_advice}
use hermes_agentic_variation.Storage.Memories.{load_memory, save_memory}
use hermes_agentic_variation.Storage.Monad.{Action, pure, lift, gets, ◌>>=◌, ◌>>◌}
use hermes_agentic_variation.Storage.Reads.{load_run}
use hermes_agentic_variation.Storage.State.{status_text}

-- `items[-5:]`
abbrev pub last_five {ℓ} : {A : Type ℓ} → List A → List A
last_five xs = drop (length xs - 5) xs

-- `text[:n]`
unfoldable pub take_text : ℕ → String → String
take_text zero s = String.[]
take_text (suc n) String.[] = String.[]
take_text (suc n) (String.◌∷◌ c s) = String.◌∷◌ c (take_text n s)

-- The hypothesis of a candidate's document, if it has one that is not empty.
abbrev hypothesis_in : Option Value → List String
hypothesis_in (some (str s)) = if str_eq s "" then [] else take_text 300 s ∷ []
hypothesis_in _ = []

abbrev hypothesis_of : Value → List String
hypothesis_of (dict es) = hypothesis_in (get "hypothesis" es)
hypothesis_of _ = []

unfoldable pub hypotheses : List Value → List String
unfolding take_text
hypotheses [] = []
hypotheses (v ∷ vs) = hypothesis_of v ++ hypotheses vs

-- The earlier failures, and `failure[:300]` unless it is None or empty.
abbrev earlier : Option ContinuationMemory → List String
earlier none = []
earlier (some m) = m.recent_failure_signatures

abbrev one_more : Option String → List String
unfolding take_text
one_more none = []
one_more (some s) = if str_eq s "" then [] else take_text 300 s ∷ []

unfoldable pub failures : Option ContinuationMemory → Option String → List String
unfolding take_text
failures previous failure = earlier previous ++ one_more failure

-- `items[-1]`, if there are any.
unfoldable pub last_of : List Value → Option Value
last_of [] = none
last_of (v ∷ []) = some v
last_of (v ∷ w ∷ vs) = last_of (w ∷ vs)

abbrev hash_of : Hashing → Option Value → Option String
hash_of h none = none
hash_of h (some v) = some (h.of_json v)

-- `effective_advice`: the hash that is given, or that of the last stored advice.
unfoldable pub effective_advice : Hashing → Option String → List Value → Option String
unfolding last_of
effective_advice h (some hash) stored = some hash
effective_advice h none stored = hash_of h (last_of stored)

abbrev pub current_revision : Option ContinuationMemory → ℕ
current_revision none = 0
current_revision (some m) = m.memory_revision

abbrev texts_of : List String → Value
texts_of ss = tuple (text_values ss)

-- The arguments of the new memory.
unfoldable pub memory_args :
    Hashing
    → RunSpec
    → RunState
    → Option ContinuationMemory
    → List Value × List Value
    → Option String
    → Option String
    → MemoryArgs
unfolding hypotheses failures
memory_args h spec state previous documents failure advice = record {
  run_spec_hash = str (identity h spec);
  memory_revision = natural (current_revision previous + 1);
  run_status = str (status_text state.status);
  state_revision = natural state.revision;
  best_candidate_hash = optional_text state.best_candidate_hash;
  recent_candidate_hashes = texts_of (map h.of_json (last_five documents.0));
  recent_evaluation_hashes = texts_of (map h.of_json (last_five documents.1));
  recent_failure_signatures = texts_of (last_five (failures previous failure));
  tried_hypotheses = texts_of (hypotheses (last_five documents.0));
  supervisor_advice_hash = optional_text advice;
}

-- `_refresh_memory`
unfoldable pub refresh_memory :
    Hashing → String → Option String → Option String → Action ContinuationMemory
unfolding load_run load_memory lineage supervisor_advice effective_advice memory_args Memory.new
    save_memory
refresh_memory h run_id failure advice_hash = do
  loaded? ← gets (load_run run_id)
  loaded ← lift loaded?
  previous? ← gets (load_memory run_id)
  previous ← lift previous?
  documents ← gets (lineage run_id)
  stored ← gets (supervisor_advice run_id)
  memory ← lift (
      Memory.new (
        memory_args h loaded.0 loaded.1 previous documents failure
          (effective_advice h advice_hash stored)))
  save_memory h run_id memory (current_revision previous)
  pure memory
