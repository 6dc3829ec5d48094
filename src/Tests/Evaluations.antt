-- ===== src/Tests/Evaluations.antt =====
-- The evaluator on an outcome like those of tests/test_evaluator.py.
use hermes_agentic_variation.Base.{true, [], ◌∷◌, none, ◌≡◌, ◌↔◌, refl, hex_digits, is_blank}
use hermes_agentic_variation.Base.Int.{pos}
use hermes_agentic_variation.Base.Float.{int, le_float, lt_float, exact, to_float, round_units}
use hermes_agentic_variation.Base.Result.{ok}
use hermes_agentic_variation.Base.Value.{bool, num, Entries, end, entry}
use hermes_agentic_variation.Contracts.Candidate
use hermes_agentic_variation.Contracts.Candidate.{Candidate}
use hermes_agentic_variation.Contracts.Checks.{require_text, require_digest, require_text_tuple}
use hermes_agentic_variation.Contracts.Evaluation
use hermes_agentic_variation.Contracts.Evaluation.{Scores, EvaluationResult}
use hermes_agentic_variation.Contracts.RunSpec.Stored.{identity}
use hermes_agentic_variation.Evaluator.{
  FixtureOutcome, non_regressing_at, better_at, reason_for, result_of, evaluate,
}
use hermes_agentic_variation.Evaluator.Eligibility.{Eligible, evaluate_eligible}
use hermes_agentic_variation.Tests.Samples.{hex_a, hex_b, hashing, spec}

abbrev pub proposal : Candidate
proposal = record {
  candidate_id = "candidate-1";
  run_spec_hash = hex_a;
  parent_candidate_id = none;
  artifact_digest = hex_b;
  child_result_hash = hex_b;
  changed_paths = "src/fixture.py" ∷ [];
  hypothesis = "Raise the score.";
}

abbrev pub outcome : FixtureOutcome
outcome = record {
  correctness = entry "tests_pass" (bool true) end;
  scores = entry "score" (num (int (pos 12))) end;
  evidence = "fixture evidence";
}

abbrev pub baseline : Entries
baseline = entry "score" (num (int (pos 10))) end

unfoldable pub verdict : EvaluationResult
unfolding result_of
verdict =
    result_of hashing spec proposal baseline outcome (("score", int (pos 12)) ∷ [])
      (("score", int (pos 10)) ∷ [])

evaluates : evaluate hashing spec proposal baseline outcome ≡ ok verdict
unfolding evaluate verdict identity to_float round_units Evaluation.new require_text is_blank
    reason_for non_regressing_at le_float require_digest hex_digits Candidate.identity
    require_text_tuple better_at lt_float
evaluates = refl

evaluate_eligible_example : (verdict.eligible ≡ true) ↔ Eligible spec baseline outcome
evaluate_eligible_example =
    evaluate_eligible hashing spec proposal baseline outcome verdict evaluates

-- The outcome is eligible indeed.
is_eligible : verdict.eligible ≡ true
unfolding verdict non_regressing_at le_float better_at lt_float exact
is_eligible = refl
