-- ===== src/Phase3/Eligible.antt =====
-- Which mutations of Phase 3 are eligible.
use mathlib.Core.Path.{subst}
use hermes_agentic_variation.Base.{
  String, Bool, true, false, [], ◌∷◌, some, Option, str_eq, eq_iff, inl, ◌≡◌, ◌↔◌, refl, ap,
  if◌then◌else◌,
}
use hermes_agentic_variation.Base.Float.{Number, exact, le_float, lt_float}
use hermes_agentic_variation.Base.Value.{Value, bool, num, Entries, end, entry}
use hermes_agentic_variation.Contracts.RunSpec.{RunSpec, minimize}
use hermes_agentic_variation.Controller.Fixture.{whole}
use hermes_agentic_variation.Evaluator.{FixtureOutcome, non_regressing_at, better_at}
use hermes_agentic_variation.Evaluator.Eligibility.{Eligible, Every, At, Passes}
use hermes_agentic_variation.Phase3.Methods.{Phase3Controller}
use hermes_agentic_variation.Phase3.Mutate.{outcome_of}
use hermes_agentic_variation.Workspace.Files.{FileSystem}
use hermes_agentic_variation.Workspace.Methods.{CommandResult}

-- What `create_run` sets of the RunSpec for the evaluator.
pub record IsFixture (spec : RunSpec) : Type 0 where
  pub correctness_predicates :
      spec.correctness_predicates ≡ ("tests_pass" ∷ "mutation_matches" ∷ [])
  pub score_keys : spec.score_keys ≡ ("test_failures" ∷ [])
  pub comparison : spec.comparison ≡ minimize

-- `{"test_failures": 1.0}`
abbrev pub baseline_scores : Entries
baseline_scores = entry "test_failures" (num (whole 1)) end

truth : (b : Bool) → ◌≡◌ {A = Option Value} (some (bool b)) (some (bool true)) → b ≡ true
truth true h = refl
truth false h = cc

zero_is_less :
    (r : Number → Number → Bool)
    → r (whole 0) (whole 1) ≡ true
    → (b : Bool) → b ≡ true
    → At r
        (entry "test_failures" (num (if b then whole 0 else whole 1)) end)
        baseline_scores
        "test_failures"
zero_is_less r h b t =
    (whole 0, whole 1, ap (λ x. some (num (if x then whole 0 else whole 1))) t, refl, h)

module _ (F : FileSystem) (c : Phase3Controller F) where
  pub outcome_of-Eligible :
      (spec : RunSpec) (mutation tree_hash : String) (command : CommandResult)
      → IsFixture spec
      → Eligible spec baseline_scores (outcome_of F c mutation tree_hash command)
        ↔ ((command.tests_passed ≡ true) × (mutation ≡ "filter_even"))
  unfolding outcome_of non_regressing_at le_float exact better_at lt_float
  outcome_of-Eligible spec mutation tree_hash command f = (passed, eligible)
    where
      o : FixtureOutcome
      o = outcome_of F c mutation tree_hash command

      passed :
          Eligible spec baseline_scores o
          → (command.tests_passed ≡ true) × (mutation ≡ "filter_even")
      passed e =
          let every : Every (Passes o.correctness) ("tests_pass" ∷ "mutation_matches" ∷ []) =
            subst (Every (Passes o.correctness)) f.correctness_predicates e.correct in
          (
            truth command.tests_passed every.0,
            (eq_iff mutation "filter_even").0 (truth (str_eq mutation "filter_even") every.1.0),
          )

      eligible :
          (command.tests_passed ≡ true) × (mutation ≡ "filter_even")
          → Eligible spec baseline_scores o
      eligible (t, m) = record {
        correct = rw f.correctness_predicates (
          ap (λ b. some (bool b)) t,
          (ap (λ b. some (bool b)) ((eq_iff mutation "filter_even").1 m), tt),
        );
        non_regressing =
            rw (f.score_keys, f.comparison)
              (zero_is_less (non_regressing_at minimize) refl command.tests_passed t, tt);
        strictly_better = λ _.
            rw (f.score_keys, f.comparison)
              (inl (zero_is_less (better_at minimize) refl command.tests_passed t));
      }
