-- ===== src/Verdict/Replayed.antt =====
-- The replay of an attempt that the ledger has, against the verdict that it stands for.
use hermes_agentic_variation.Base.{
  ℕ, ◌<◌, String, true, List, [], ◌∷◌, ◌++◌, length, ltb, length-append, ◌≡◌, refl, arith,
}
use hermes_agentic_variation.Base.Result.{ok}
use hermes_agentic_variation.Base.Value.{Value}
use hermes_agentic_variation.Contracts.Evaluation
use hermes_agentic_variation.Contracts.Evaluation.{EvaluationResult}
use hermes_agentic_variation.Contracts.Identity.{Hashing}
use hermes_agentic_variation.StateMachine.{Status, running, RunState}
use hermes_agentic_variation.Storage.Tables.{Database}
use hermes_agentic_variation.Verdict.{conclude, last_item, is_eligible, resumed, replay}

last_item-append : (vs : List Value) (v : Value) → last_item (vs ++ v ∷ []) ≡ ok v
unfolding last_item
last_item-append [] v = refl
last_item-append (w ∷ []) v = refl
last_item-append (w ∷ x ∷ vs) v = last_item-append (x ∷ vs) v

-- The replay of a running run is its conclusion by the last documents.
pub replay-conclude :
    (h : Hashing) (run_id : String) (s : RunState) (cs es : List Value) (c e : Value)
    (documents : List Value × List Value) (db : Database)
    → s.status ≡ running
    → documents.0 ≡ (cs ++ c ∷ [])
    → documents.1 ≡ (es ++ e ∷ [])
    → replay h run_id s documents db ≡ conclude h run_id s (h.of_json c) (is_eligible e) db
unfolding replay resumed
replay-conclude h run_id s cs es c e documents db st p q =
    rw (p, q, last_item-append cs c, last_item-append es e) (from s.status st)
  where
    from :
        (status : Status)
        → status ≡ running
        → resumed status h run_id s (h.of_json c) (is_eligible e) db
          ≡ conclude h run_id s (h.of_json c) (is_eligible e) db
    from status r = rw r refl

pub to_dict-is_eligible : (e : EvaluationResult) → is_eligible (Evaluation.to_dict e) ≡ e.eligible
unfolding is_eligible Evaluation.to_dict
to_dict-is_eligible e = refl

-- One more than the verdicts.
pub ltb-append :
    (vs : List Value) (v : Value) (n : ℕ) → length vs ≡ n → ltb n (length (vs ++ v ∷ [])) ≡ true
ltb-append vs v n h = below _ _ (omega (arith, h, length-append {0} vs (v ∷ [])))
  where
    below : (m k : ℕ) → m < k → ltb m k ≡ true
    below m k q = ground arith
