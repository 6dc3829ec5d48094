-- ===== src/Contracts/Memory/Accepted.antt =====
-- What the checks of `ContinuationMemory` returned for a memory that it accepted.
use hermes_agentic_variation.Base.{◌≡◌, sym}
use hermes_agentic_variation.Base.Result.{ok, >>=-eq-ok, ok-injective}
use hermes_agentic_variation.Contracts.Checks.{require_text, require_digest, require_positive}
use hermes_agentic_variation.Contracts.Memory.{
  MemoryArgs, ContinuationMemory, require_natural, require_optional_digest, require_digests,
  require_notes, new,
}

pub record Accepted (a : MemoryArgs) (m : ContinuationMemory) : Type 0 where
  pub run_spec_hash : require_digest "run_spec_hash" a.run_spec_hash ≡ ok m.run_spec_hash
  pub run_status : require_text "run_status" a.run_status ≡ ok m.run_status
  pub memory_revision : require_positive "memory_revision" a.memory_revision ≡ ok m.memory_revision
  pub state_revision : require_natural "state_revision" a.state_revision ≡ ok m.state_revision
  pub best_candidate_hash :
      require_optional_digest "best_candidate_hash" a.best_candidate_hash ≡ ok m.best_candidate_hash
  pub supervisor_advice_hash :
      require_optional_digest "supervisor_advice_hash" a.supervisor_advice_hash
      ≡ ok m.supervisor_advice_hash
  pub recent_candidate_hashes :
      require_digests "recent_candidate_hashes" a.recent_candidate_hashes
      ≡ ok m.recent_candidate_hashes
  pub recent_evaluation_hashes :
      require_digests "recent_evaluation_hashes" a.recent_evaluation_hashes
      ≡ ok m.recent_evaluation_hashes
  pub recent_failure_signatures :
      require_notes "recent_failure_signatures" a.recent_failure_signatures
      ≡ ok m.recent_failure_signatures
  pub tried_hypotheses : require_notes "tried_hypotheses" a.tried_hypotheses ≡ ok m.tried_hypotheses

pub new-Accepted : (a : MemoryArgs) (m : ContinuationMemory) → new a ≡ ok m → Accepted a m
unfolding new
new-Accepted a m e =
    let (hash, q1, e1) = >>=-eq-ok (require_digest "run_spec_hash" a.run_spec_hash) _ e in
    let (status, q2, e2) = >>=-eq-ok (require_text "run_status" a.run_status) _ e1 in
    let (revision, q3, e3) =
      >>=-eq-ok (require_positive "memory_revision" a.memory_revision) _ e2 in
    let (state, q4, e4) = >>=-eq-ok (require_natural "state_revision" a.state_revision) _ e3 in
    let (best, q5, e5) =
      >>=-eq-ok (require_optional_digest "best_candidate_hash" a.best_candidate_hash) _ e4 in
    let (advice, q6, e6) =
      >>=-eq-ok (require_optional_digest "supervisor_advice_hash" a.supervisor_advice_hash) _ e5 in
    let (cs, q7, e7) =
      >>=-eq-ok (require_digests "recent_candidate_hashes" a.recent_candidate_hashes) _ e6 in
    let (es, q8, e8) =
      >>=-eq-ok (require_digests "recent_evaluation_hashes" a.recent_evaluation_hashes) _ e7 in
    let (fs, q9, e9) =
      >>=-eq-ok (require_notes "recent_failure_signatures" a.recent_failure_signatures) _ e8 in
    let (hs, q10, e10) = >>=-eq-ok (require_notes "tried_hypotheses" a.tried_hypotheses) _ e9 in
    let built : ContinuationMemory = record {
      run_spec_hash = hash;
      memory_revision = revision;
      run_status = status;
      state_revision = state;
      best_candidate_hash = best;
      recent_candidate_hashes = cs;
      recent_evaluation_hashes = es;
      recent_failure_signatures = fs;
      tried_hypotheses = hs;
      supervisor_advice_hash = advice;
    } in
    let w : Accepted a built = record {
      run_spec_hash = q1;
      run_status = q2;
      memory_revision = q3;
      state_revision = q4;
      best_candidate_hash = q5;
      supervisor_advice_hash = q6;
      recent_candidate_hashes = q7;
      recent_evaluation_hashes = q8;
      recent_failure_signatures = q9;
      tried_hypotheses = q10;
    } in
    rw (sym (ok-injective built m e10)) w
