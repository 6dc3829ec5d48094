-- ===== src/Tests/Samples.antt =====
-- The data of the tests: a RunSpec like the one of tests/test_state_machine.py, and digests.
use hermes_agentic_variation.Base.{◌^◌, ◌*◌, String, true, [], ◌∷◌, ◌≡◌, refl, hex_digits}
use hermes_agentic_variation.Base.Int.{pos}
use hermes_agentic_variation.Base.Float.{float, finite}
use hermes_agentic_variation.Base.Value.{end}
use hermes_agentic_variation.Contracts.Checks.{is_digest}
use hermes_agentic_variation.Contracts.Identity.{Hashing}
use hermes_agentic_variation.Contracts.RunSpec.{RunSpec, maximize, disabled}

abbrev pub hex_a : String
hex_a = "aaaaaaaaaaaaaaaaaaaaaaaaaaaaaaaaaaaaaaaaaaaaaaaaaaaaaaaaaaaaaaaa"

abbrev pub hex_b : String
hex_b = "bbbbbbbbbbbbbbbbbbbbbbbbbbbbbbbbbbbbbbbbbbbbbbbbbbbbbbbbbbbbbbbb"

pub hex_a_digest : is_digest hex_a ≡ true
unfolding hex_digits
hex_a_digest = refl

pub hex_b_digest : is_digest hex_b ≡ true
unfolding hex_digits
hex_b_digest = refl

-- One digest for every document: the least that the interface asks for.
abbrev pub hashing : Hashing
hashing = record {
  of_json = λ v. hex_a;
  of_json-is_digest = λ v. hex_a_digest;
  of_text = λ s. hex_a;
  of_text-is_digest = λ s. hex_a_digest;
}

abbrev pub spec : RunSpec
spec = record {
  run_id = "run-001";
  target_root = "/workspace/example";
  seed_digest = hex_a;
  objective = "Improve the fixture.";
  exclusions = [];
  evaluator_id = "fixture.score.v1";
  evaluator_config = end;
  correctness_predicates = "tests_pass" ∷ [];
  score_keys = "score" ∷ [];
  comparison = maximize;
  allowed_toolsets = "file" ∷ [];
  network_policy = disabled;
  max_steps = 3;
  max_wall_seconds = 60;
  max_cost_usd = float (finite (pos (2 * 2 ^ 1074)));
  no_progress_limit = 2;
  approval_receipt = "approved";
}
