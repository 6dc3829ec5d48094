-- ===== src/Contracts/Memory/RoundTrip.antt =====
-- A continuation memory is read back from its stored document.
use hermes_agentic_variation.Base.{
  ℕ, String, true, false, List, Option, none, some, ◌≡◌, refl, sym, ◌∙◌, any, all, length, len, ltb,
}
use hermes_agentic_variation.Base.Result.{
  contract_error, ok, require, raise_if, >>=-eq-ok, ok-injective, require-ok, raise_if-ok,
}
use hermes_agentic_variation.Base.Value.{Value, null, str, tuple}
use hermes_agentic_variation.Contracts.Checks.{
  is_digest, require_text, require_digest, require_text_tuple, require_positive,
}
use hermes_agentic_variation.Contracts.Checks.Again.{
  require_text-again, require_digest-again, require_text_tuple-again, require_positive-again,
}
use hermes_agentic_variation.Contracts.Json.{text_values, natural, optional_text}
use hermes_agentic_variation.Contracts.Memory.Accepted.{new-Accepted}
use hermes_agentic_variation.Contracts.Memory.{
  MemoryArgs, ContinuationMemory, require_natural, require_optional_digest, require_digests,
  require_notes, new, to_dict, memory_of_kwargs, memory_from_json,
}
use hermes_agentic_variation.Contracts.RunSpec.Stored.{argument, tuple_item}

abbrev args_of : ContinuationMemory → MemoryArgs
args_of m = record {
  run_spec_hash = str m.run_spec_hash;
  memory_revision = natural m.memory_revision;
  run_status = str m.run_status;
  state_revision = natural m.state_revision;
  best_candidate_hash = optional_text m.best_candidate_hash;
  recent_candidate_hashes = tuple (text_values m.recent_candidate_hashes);
  recent_evaluation_hashes = tuple (text_values m.recent_evaluation_hashes);
  recent_failure_signatures = tuple (text_values m.recent_failure_signatures);
  tried_hypotheses = tuple (text_values m.tried_hypotheses);
  supervisor_advice_hash = optional_text m.supervisor_advice_hash;
}

memory_from_json-to_dict : (m : ContinuationMemory) → memory_from_json (to_dict m) ≡ new (args_of m)
unfolding memory_from_json to_dict memory_of_kwargs argument tuple_item
memory_from_json-to_dict m = refl

require_natural-again :
    (name : String) (v : Value) (n : ℕ)
    → require_natural name v ≡ ok n
    → require_natural name (natural n) ≡ ok n
unfolding require_natural
require_natural-again name v n h = refl

optional-again :
    (name : String) (v : Value) (o : Option String)
    → require_optional_digest name v ≡ ok o
    → require_optional_digest name (optional_text o) ≡ ok o
unfolding require_optional_digest
optional-again name v none h = refl
optional-again name null (some s) h = cc
optional-again name (str t) (some s) h =
    let (u, p, q) = >>=-eq-ok (require_digest name (str t)) _ h in
    let same : u ≡ s = cc in
    let again : require_digest name (str s) ≡ ok s =
      require_digest-again name (str t) s (rw (p, same)) in
    rw again
optional-again name _ (some s) h = cc

digests-again :
    (name : String) (v : Value) (ss : List String)
    → require_digests name v ≡ ok ss
    → require_digests name (tuple (text_values ss)) ≡ ok ss
unfolding require_digests
digests-again name v ss h =
    let (ts, p, h1) = >>=-eq-ok (require_text_tuple name true v) _ h in
    let (_, a, h2) =
      >>=-eq-ok
        (raise_if (ltb 5 (length ts)) (contract_error name "must contain at most five items")) _
        h1 in
    let (_, b, h3) =
      >>=-eq-ok
        (require (all is_digest ts) (contract_error name "must be a lowercase SHA-256 digest")) _
        h2 in
    rw (sym (ok-injective ts ss h3)) (
      accepted ts (require_text_tuple-again name true v ts p) (raise_if-ok _ _ a)
        (require-ok _ _ b))
  where
    accepted :
        (ts : List String)
        → require_text_tuple name true (tuple (text_values ts)) ≡ ok ts
        → ltb 5 (length ts) ≡ false
        → all is_digest ts ≡ true
        → require_digests name (tuple (text_values ts)) ≡ ok ts
    accepted ts p a b = rw (p, a, b)

notes-again :
    (name : String) (v : Value) (ss : List String)
    → require_notes name v ≡ ok ss
    → require_notes name (tuple (text_values ss)) ≡ ok ss
unfolding require_notes
notes-again name v ss h =
    let (ts, p, h1) = >>=-eq-ok (require_text_tuple name true v) _ h in
    let (_, a, h2) =
      >>=-eq-ok
        (raise_if (ltb 5 (length ts)) (contract_error name "must contain at most five items")) _
        h1 in
    let (_, b, h3) =
      >>=-eq-ok
        (raise_if (any (λ s. ltb 300 (len s)) ts)
          (contract_error name "entries must be at most 300 characters"))
        _ h2 in
    rw (sym (ok-injective ts ss h3)) (
      accepted ts (require_text_tuple-again name true v ts p) (raise_if-ok _ _ a)
        (raise_if-ok _ _ b))
  where
    accepted :
        (ts : List String)
        → require_text_tuple name true (tuple (text_values ts)) ≡ ok ts
        → ltb 5 (length ts) ≡ false
        → any (λ s. ltb 300 (len s)) ts ≡ false
        → require_notes name (tuple (text_values ts)) ≡ ok ts
    accepted ts p a b = rw (p, a, b)

new-accepted :
    (a : MemoryArgs) (m : ContinuationMemory)
    → require_digest "run_spec_hash" a.run_spec_hash ≡ ok m.run_spec_hash
    → require_text "run_status" a.run_status ≡ ok m.run_status
    → require_positive "memory_revision" a.memory_revision ≡ ok m.memory_revision
    → require_natural "state_revision" a.state_revision ≡ ok m.state_revision
    → require_optional_digest "best_candidate_hash" a.best_candidate_hash ≡ ok m.best_candidate_hash
    → require_optional_digest "supervisor_advice_hash" a.supervisor_advice_hash
      ≡ ok m.supervisor_advice_hash
    → require_digests "recent_candidate_hashes" a.recent_candidate_hashes
      ≡ ok m.recent_candidate_hashes
    → require_digests "recent_evaluation_hashes" a.recent_evaluation_hashes
      ≡ ok m.recent_evaluation_hashes
    → require_notes "recent_failure_signatures" a.recent_failure_signatures
      ≡ ok m.recent_failure_signatures
    → require_notes "tried_hypotheses" a.tried_hypotheses ≡ ok m.tried_hypotheses
    → new a ≡ ok m
unfolding new
new-accepted a m b c d e f g h i j k = rw (b, c, d, e, f, g, h, i, j, k)

-- A memory that the constructor accepted is read back from the document that is stored of it.
pub memory_round_trip :
    (a : MemoryArgs) (m : ContinuationMemory) → new a ≡ ok m → memory_from_json (to_dict m) ≡ ok m
memory_round_trip a m e =
    let w = new-Accepted a m e in
    memory_from_json-to_dict m
    ∙ new-accepted (args_of m) m (require_digest-again _ _ m.run_spec_hash w.run_spec_hash)
        (require_text-again _ _ m.run_status w.run_status)
        (require_positive-again _ _ m.memory_revision w.memory_revision)
        (require_natural-again _ _ m.state_revision w.state_revision)
        (optional-again _ _ m.best_candidate_hash w.best_candidate_hash)
        (optional-again _ _ m.supervisor_advice_hash w.supervisor_advice_hash)
        (digests-again _ a.recent_candidate_hashes m.recent_candidate_hashes
          w.recent_candidate_hashes)
        (digests-again _ a.recent_evaluation_hashes m.recent_evaluation_hashes
          w.recent_evaluation_hashes)
        (notes-again _ a.recent_failure_signatures m.recent_failure_signatures
          w.recent_failure_signatures)
        (notes-again _ a.tried_hypotheses m.tried_hypotheses w.tried_hypotheses)
