-- ===== src/Evaluator/Eligibility.antt =====
-- Eligibility against its description in docs/PHASE0.md: correctness and scores, key by key.
use hermes_agentic_variation.Base.{
  String, Bool, true, false, not, ◌&&◌, ◌||◌, List, [], ◌∷◌, Option, none, some, all, any, ◌≡◌, ◌↔◌,
  ◌⊎◌, refl, sym, arith, str_eq,
}
use hermes_agentic_variation.Base.Logic.{and-true, true-and, &&-iff, ||-iff}
use hermes_agentic_variation.Base.Float.{Number}
use hermes_agentic_variation.Base.Result.{
  contract_error, ok, require, raise_if, >>=-eq-ok, ok-injective,
}
use hermes_agentic_variation.Base.Value.{Value, bool, num, str, tuple, Entries}
use hermes_agentic_variation.Contracts.Checks.{
  is_digest, require_text, require_digest, require_text_tuple,
}
use hermes_agentic_variation.Contracts.Candidate.{Candidate}
use hermes_agentic_variation.Contracts.Evaluation
use hermes_agentic_variation.Contracts.Evaluation.{Scores, EvaluationResult}
use hermes_agentic_variation.Contracts.Identity.{Hashing}
use hermes_agentic_variation.Contracts.Json.{get, text_values}
use hermes_agentic_variation.Contracts.RunSpec.{RunSpec}
use hermes_agentic_variation.Contracts.RunSpec.Stored.{identity}
use hermes_agentic_variation.Evaluator.{
  FixtureOutcome, has, is_flag, is_pareto, flag, holds, require_score, scores_at, all_scores,
  any_scores, non_regressing_at, better_at, strict_required, result_of, evaluate,
}

-- A property of every key, and of some key.
abbrev pub Every : (String → Type 0) → List String → Type 0
Every P [] = Unit
Every P (k ∷ ks) = P k × Every P ks

abbrev pub Some : (String → Type 0) → List String → Type 0
Some P [] = ⊥
Some P (k ∷ ks) = P k ⊎ Some P ks

-- The scores at a key are numbers that stand in the relation.
abbrev pub At : (Number → Number → Bool) → Entries → Entries → String → Type 0
At r scores baseline k =
    (a : Number) × (b : Number) × (get k scores ≡ some (num a))
    × (get k baseline ≡ some (num b))
    × (r a b ≡ true)

abbrev pub Passes : Entries → String → Type 0
Passes correctness k = get k correctness ≡ some (bool true)

-- What makes a candidate eligible.
pub record Eligible (spec : RunSpec) (baseline : Entries) (o : FixtureOutcome) : Type 0 where
  pub correct : Every (Passes o.correctness) spec.correctness_predicates
  pub non_regressing :
      Every (At (non_regressing_at spec.comparison) o.scores baseline) spec.score_keys
  pub strictly_better :
      strict_required spec ≡ true
      → Some (At (better_at spec.comparison) o.scores baseline) spec.score_keys

holds-Passes : (es : Entries) (k : String) → (holds es k ≡ true) ↔ Passes es k
holds-Passes es k = (λ h. read (get k es) h, λ h. write (get k es) h)
  where
    read :
        (v : Option Value)
        → elim (flag v) [ none ↦ false | some b ↦ b ] ≡ true
        → v ≡ some (bool true)
    read v h = ground arith

    write :
        (v : Option Value)
        → v ≡ some (bool true)
        → elim (flag v) [ none ↦ false | some b ↦ b ] ≡ true
    write v h = rw h

Every-Passes : (es : Entries) (ks : List String) → (all (holds es) ks ≡ true) ↔ Every (Passes es) ks
Every-Passes es [] = (λ _. tt, λ _. refl)
Every-Passes es (k ∷ ks) = (
  λ h. let (a, b) = and-true _ _ h in ((holds-Passes es k).0 a, (Every-Passes es ks).0 b),
  λ h. true-and _ _ ((holds-Passes es k).1 h.0) ((Every-Passes es ks).1 h.1),
)

require_score-num : (v : Option Value) (n : Number) → require_score v ≡ ok n → v ≡ some (num n)
unfolding require_score
require_score-num v n h = ground arith

scores_at-cons :
    (es : Entries) (k : String) (ks : List String) (ss : Scores)
    → scores_at es (k ∷ ks) ≡ ok ss
    → (n : Number) × (rest : Scores) × (get k es ≡ some (num n))
      × (scores_at es ks ≡ ok rest)
      × (ss ≡ (k, n) ∷ rest)
unfolding scores_at
scores_at-cons es k ks ss h =
    let (n, read, h1) = >>=-eq-ok (require_score (get k es)) _ h in
    let (rest, more, h2) = >>=-eq-ok (scores_at es ks) _ h1 in
    (n, rest, require_score-num (get k es) n read, more, sym (ok-injective _ _ h2))

module _ (p : Number → Number → Bool) (scores baseline : Entries) where
  -- At one key whose scores are known.
  At-known :
      (k : String) (a b : Number)
      → get k scores ≡ some (num a)
      → get k baseline ≡ some (num b)
      → (p a b ≡ true) ↔ At p scores baseline k
  At-known k a b ea eb =
      (λ h. (a, b, ea, eb, h), λ h. let (c, d, ec, ed, r) = h in cc (r, same ea ec, same eb ed))
    where
      same : {o : Option Value} {m n : Number} → o ≡ some (num m) → o ≡ some (num n) → m ≡ n
      same e f = cc

  all_scores-Every :
      (ks : List String) (ss bs : Scores)
      → scores_at scores ks ≡ ok ss
      → scores_at baseline ks ≡ ok bs
      → (all_scores p ss bs ≡ true) ↔ Every (At p scores baseline) ks
  unfolding scores_at all_scores
  all_scores-Every [] ss bs hs hb = rw (sym (ok-injective [] ss hs)) (λ _. tt, λ _. refl)
  all_scores-Every (k ∷ ks) ss bs hs hb =
      let (a, as', ea, ha, ess) = scores_at-cons scores k ks ss hs in
      let (b, bs', eb, hb', ebs) = scores_at-cons baseline k ks bs hb in
      rw (ess, ebs) (&&-iff _ _ (At-known k a b ea eb) (all_scores-Every ks as' bs' ha hb'))

  any_scores-Some :
      (ks : List String) (ss bs : Scores)
      → scores_at scores ks ≡ ok ss
      → scores_at baseline ks ≡ ok bs
      → (any_scores p ss bs ≡ true) ↔ Some (At p scores baseline) ks
  unfolding scores_at any_scores
  any_scores-Some [] ss bs hs hb = rw (sym (ok-injective [] ss hs)) (λ e. cc, λ e. absurd e)
  any_scores-Some (k ∷ ks) ss bs hs hb =
      let (a, as', ea, ha, ess) = scores_at-cons scores k ks ss hs in
      let (b, bs', eb, hb', ebs) = scores_at-cons baseline k ks bs hb in
      rw (ess, ebs) (||-iff _ _ (At-known k a b ea eb) (any_scores-Some ks as' bs' ha hb'))

-- The verdict's Boolean on the three tests.
verdict-true :
    (p n b s : Bool)
    → (p && n && (b || not s)) ≡ true
    → (p ≡ true) × (n ≡ true) × (s ≡ true → b ≡ true)
verdict-true p n b s h =
    let (c, e) = and-true (p && n) (b || not s) h in
    let (a, d) = and-true p n c in (a, d, λ x. ground arith)

true-verdict :
    (p n b s : Bool) → p ≡ true → n ≡ true → (s ≡ true → b ≡ true) → (p && n && (b || not s)) ≡ true
true-verdict p n b true x y z = rw (x, y, z refl)
true-verdict p n true false x y z = rw (x, y)
true-verdict p n false false x y z = rw (x, y)

new-same : (x r : EvaluationResult) → Evaluation.new x ≡ ok r → x ≡ r
unfolding Evaluation.new
new-same x r e =
    let (_, _, e1) = >>=-eq-ok (require_text "evaluation_id" (str x.evaluation_id)) _ e in
    let (_, _, e2) = >>=-eq-ok (require_text "evaluator_id" (str x.evaluator_id)) _ e1 in
    let (_, _, e3) = >>=-eq-ok (require_text "reason" (str x.reason)) _ e2 in
    let (_, _, e4) = >>=-eq-ok (require_digest "candidate_hash" (str x.candidate_hash)) _ e3 in
    let (_, _, e5) = >>=-eq-ok (require_digest "run_spec_hash" (str x.run_spec_hash)) _ e4 in
    let (_, _, e6) =
      >>=-eq-ok (require_text_tuple "evidence_hashes" false (tuple (text_values x.evidence_hashes)))
        _ e5 in
    let (_, _, e7) =
      >>=-eq-ok
        (raise_if (any (λ d. not (is_digest d)) x.evidence_hashes)
          (contract_error "evidence_hashes" "must be a lowercase SHA-256 digest"))
        _ e6 in
    let (_, _, e8) =
      >>=-eq-ok
        (raise_if (x.eligible && not x.correctness_passed)
          (contract_error "eligible" "cannot be true when correctness failed"))
        _ e7 in
    let (_, _, e9) = >>=-eq-ok (Evaluation.require_scores "scores" x.scores) _ e8 in
    let (_, _, e10) =
      >>=-eq-ok (Evaluation.require_scores "baseline_scores" x.baseline_scores) _ e9 in
    ok-injective x r e10

result-eligible :
    (h : Hashing) (spec : RunSpec) (c : Candidate) (baseline : Entries) (o : FixtureOutcome)
    (ss bs : Scores)
    → scores_at o.scores spec.score_keys ≡ ok ss
    → scores_at baseline spec.score_keys ≡ ok bs
    → ((result_of h spec c baseline o ss bs).eligible ≡ true) ↔ Eligible spec baseline o
unfolding result_of
result-eligible h spec c baseline o ss bs hs hb = (
  λ e.
      let (p, n, s) = verdict-true _ _ _ _ e in
      record {
        correct = (Every-Passes o.correctness spec.correctness_predicates).0 p;
        non_regressing =
            (all_scores-Every (non_regressing_at spec.comparison) o.scores baseline spec.score_keys
                ss bs hs hb).0
              n;
        strictly_better = λ x.
            (any_scores-Some (better_at spec.comparison) o.scores baseline spec.score_keys ss bs hs
                hb).0
              (s x);
      },
  λ w.
      true-verdict _ _ _ _ ((Every-Passes o.correctness spec.correctness_predicates).1 w.correct)
        ((all_scores-Every (non_regressing_at spec.comparison) o.scores baseline spec.score_keys ss
            bs hs hb).1
          w.non_regressing)
        (λ x.
          (any_scores-Some (better_at spec.comparison) o.scores baseline spec.score_keys ss bs hs
              hb).1
            (w.strictly_better x)),
)

-- A result of the evaluator says that the candidate is eligible exactly if every correctness
-- predicate is true, no required score is worse than the baseline's in the RunSpec's direction
-- and, where strict improvement is asked for, some required score is better.
pub evaluate_eligible :
    (h : Hashing) (spec : RunSpec) (c : Candidate) (baseline : Entries) (o : FixtureOutcome)
    (r : EvaluationResult)
    → evaluate h spec c baseline o ≡ ok r
    → (r.eligible ≡ true) ↔ Eligible spec baseline o
unfolding evaluate
evaluate_eligible h spec c baseline o r e =
    let (_, _, e1) =
      >>=-eq-ok
        (require (str_eq c.run_spec_hash (identity h spec))
          (contract_error "candidate" "RunSpec hash does not match"))
        _ e in
    let (_, _, e2) =
      >>=-eq-ok
        (raise_if (is_pareto spec.comparison)
          (contract_error "comparison" "fixture evaluator does not implement pareto comparison"))
        _ e1 in
    let (_, _, e3) =
      >>=-eq-ok
        (raise_if (str_eq o.evidence "") (contract_error "evidence" "must be non-empty bytes")) _
        e2 in
    let (_, _, e4) =
      >>=-eq-ok
        (require (all (has o.correctness) spec.correctness_predicates)
          (contract_error "correctness_predicates" "are missing from fixture outcome"))
        _ e3 in
    let (_, _, e5) =
      >>=-eq-ok
        (require (all (is_flag o.correctness) spec.correctness_predicates)
          (contract_error "correctness_predicates" "must resolve to booleans"))
        _ e4 in
    let (_, _, e6) =
      >>=-eq-ok
        (require (all (has o.scores) spec.score_keys && all (has baseline) spec.score_keys)
          (contract_error "score_keys" "are missing from candidate or baseline scores"))
        _ e5 in
    let (ss, hs, e7) = >>=-eq-ok (scores_at o.scores spec.score_keys) _ e6 in
    let (bs, hb, e8) = >>=-eq-ok (scores_at baseline spec.score_keys) _ e7 in
    rw (sym (new-same (result_of h spec c baseline o ss bs) r e8))
      (result-eligible h spec c baseline o ss bs hs hb)
