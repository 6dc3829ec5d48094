-- ===== src/Phase3/Answers.antt =====
-- What an answer of `mutate` tells of the ledger, of the disk's tests and of the mutation.
use mathlib.Core.Path.{subst⁻¹}
use hermes_agentic_variation.Base.{
  String, Bool, true, false, List, Option, none, some, ◌≡◌, ◌↔◌, refl, sym, ap, ◌∙◌, if◌then◌else◌,
}
use hermes_agentic_variation.Base.Result
use hermes_agentic_variation.Base.Result.{Result, disabled_error, ok, err, ok-injective}
use hermes_agentic_variation.Child.{ChildOutcome, child_payload, summary_of}
use hermes_agentic_variation.Contracts.Candidate
use hermes_agentic_variation.Contracts.Candidate.{Candidate}
use hermes_agentic_variation.Contracts.Identity.{Hashing}
use hermes_agentic_variation.Contracts.MutationReceipt
use hermes_agentic_variation.Contracts.MutationReceipt.{MutationReceipt}
use hermes_agentic_variation.Contracts.RunSpec.{RunSpec}
use hermes_agentic_variation.Effect.{Effect, continue-ok, lift-ok, pure-ok, on_first, on_second}
use hermes_agentic_variation.Evaluator.{evaluate}
use hermes_agentic_variation.Evaluator.Eligibility.{evaluate_eligible}
use hermes_agentic_variation.Phase3.Data.{applied_payload, is_allowed, parse_child_payload}
use hermes_agentic_variation.Phase3.Eligible.{IsFixture, baseline_scores, outcome_of-Eligible}
use hermes_agentic_variation.Phase3.Ledger.{fail_attempt, recorded}
use hermes_agentic_variation.Phase3.Methods.{
  Phase3Controller, World, require_enabled, load_phase3_run,
}
use hermes_agentic_variation.Phase3.Mutate.{
  Reply, failed, mutated, fail, candidate_of, outcome_of, receipt_of, judge, mutate_allowed, choose,
  finish, run_child, mutate, command_payload,
}
use hermes_agentic_variation.Phase3.Reports.{fail_attempt-Reports, recorded-Reports}
use hermes_agentic_variation.StateMachine.{Status, start_step, RunState, no_cost}
use hermes_agentic_variation.Storage.Runs.{transition, record_observation}
use hermes_agentic_variation.Storage.Tables.{Database}
use hermes_agentic_variation.Verdict.Reports.{Reports}
use hermes_agentic_variation.Workspace.Files.{FileSystem}
use hermes_agentic_variation.Workspace.Methods
use hermes_agentic_variation.Workspace.Methods.{CommandResult}

abbrev pub status_of : Reply → Status
status_of (failed status error) = status
status_of (mutated status mutation command evaluation receipt) = status

-- A verdict is on an allowed mutation, and favourable exactly if the tests passed with the one that
-- fits.
abbrev pub Judged : Reply → Type 0
Judged (failed status error) = Unit
Judged (mutated status mutation command evaluation receipt) =
    (is_allowed mutation ≡ true)
    × ((evaluation.eligible ≡ true) ↔ ((command.tests_passed ≡ true) × (mutation ≡ "filter_even")))

pub record Told (run_id : String) (reply : Reply) (db : Database) : Type 0 where
  pub reports : Reports run_id (status_of reply) db
  pub judged : Judged reply

module _ (F : FileSystem) (c : Phase3Controller F) (run_id : String) where
  first :
      {A : Type 0} (m : Database → Result A × Database) (w : World F) (a : A) (after : World F)
      → on_first m w ≡ (ok a, after)
      → ◌≡◌ {A = Result A × Database} (m w.0) (ok a, after.0)
  first m w a after e = ap (λ x. (x.0, x.1.0)) e

  along :
      (a b : Reply) (w after : World F)
      → a ≡ b
      → w ≡ after
      → Told run_id a w.0
      → Told run_id b after.0
  along a b w after p q t = rw (sym p, sym q) t

  fail-Told :
      (s : RunState) (error : String) (w : World F) (reply : Reply) (after : World F)
      → fail F c run_id s error w ≡ (ok reply, after)
      → Told run_id reply after.0
  unfolding fail
  fail-Told s error w reply after e =
      let (status, w1, q, e1) =
        continue-ok (on_first (fail_attempt c.hashing run_id s error) w) _ e in
      let (same, same_w) = pure-ok (failed status error) reply w1 after e1 in
      along _ reply w1 after same same_w (record {
        reports =
            fail_attempt-Reports c.hashing run_id s error w.0 status w1.0
              (first (fail_attempt c.hashing run_id s error) w status w1 q);
        judged = tt;
      })

  judge-Told :
      (spec : RunSpec) (s : RunState) (child : ChildOutcome) (mutation rationale : String)
      (changed : List String) (tree_hash : String) (command : CommandResult) (w : World F)
      (reply : Reply) (after : World F)
      → IsFixture spec
      → is_allowed mutation ≡ true
      → judge F c run_id spec s child mutation rationale changed tree_hash command w
        ≡ (ok reply, after)
      → Told run_id reply after.0
  unfolding judge
  judge-Told spec s child mutation rationale changed tree_hash command w reply after fixture allowed
        e =
      let h : Hashing = c.hashing in
      let (candidate, _, e1) =
        lift-ok (Candidate.new (candidate_of F c run_id spec child changed tree_hash rationale)) _ w
          e in
      let (evaluation, q, e2) =
        lift-ok
          (evaluate h spec candidate baseline_scores (outcome_of F c mutation tree_hash command)) _
          w e1 in
      let (receipt, _, e3) =
        lift-ok
          (MutationReceipt.new
            (receipt_of F c run_id spec candidate evaluation mutation changed tree_hash command))
          _ w e2 in
      let (t, w1, r, e4) =
        continue-ok (on_first (recorded h run_id s candidate evaluation receipt) w) _ e3 in
      let (same, same_w) =
        pure-ok (mutated t.status mutation command evaluation receipt) reply w1 after e4 in
      let eligible =
        evaluate_eligible h spec candidate baseline_scores
          (outcome_of F c mutation tree_hash command) evaluation q in
      let fits = outcome_of-Eligible F c spec mutation tree_hash command fixture in
      along _ reply w1 after same same_w (record {
        reports =
            recorded-Reports h run_id s candidate evaluation receipt w.0 t w1.0
              (first (recorded h run_id s candidate evaluation receipt) w t w1 r);
        judged = (allowed, (λ x. fits.0 (eligible.0 x), λ x. eligible.1 (fits.1 x)));
      })

  mutate_allowed-Told :
      (spec : RunSpec) (s : RunState) (child : ChildOutcome) (mutation rationale : String)
      (w : World F) (reply : Reply) (after : World F)
      → IsFixture spec
      → is_allowed mutation ≡ true
      → mutate_allowed F c run_id spec s child mutation rationale w ≡ (ok reply, after)
      → Told run_id reply after.0
  unfolding mutate_allowed
  mutate_allowed-Told spec s child mutation rationale w reply after fixture allowed e =
      let repo : F.Location = F.of_text spec.target_root in
      let (changed, w1, _, e1) =
        continue-ok (on_second (Methods.apply F c.workspace repo mutation) w) _ e in
      let (tree_hash, _, e2) = lift-ok (Methods.tree_hash F c.workspace repo w1.1) _ w1 e1 in
      let (_, w2, _, e3) =
        continue-ok
          (on_first
            (record_observation c.hashing run_id "mutation_applied"
              (applied_payload mutation changed tree_hash))
            w1)
          _ e2 in
      let (command, w3, _, e4) =
        continue-ok (on_second (Methods.evaluate F c.workspace repo) w2) _ e3 in
      let (_, w4, _, e5) =
        continue-ok
          (on_first
            (record_observation c.hashing run_id "command_result" (command_payload F c command)) w3)
          _ e4 in
      judge-Told spec s child mutation rationale changed tree_hash command w4 reply after fixture
        allowed e5

  choose-Told :
      (spec : RunSpec) (s : RunState) (child : ChildOutcome) (choice : Option (String × String))
      (w : World F) (reply : Reply) (after : World F)
      → IsFixture spec
      → choose F c run_id spec s child choice w ≡ (ok reply, after)
      → Told run_id reply after.0
  unfolding choose
  choose-Told spec s child none w reply after fixture e =
      fail-Told s "INVALID_CHILD_PAYLOAD" w reply after e
  choose-Told spec s child (some (mutation, rationale)) w reply after fixture e =
      from (is_allowed mutation) refl e
    where
      from :
          (b : Bool)
          → is_allowed mutation ≡ b
          → (if b
                then mutate_allowed F c run_id spec s child mutation rationale
                else fail F c run_id s "MUTATION_NOT_ALLOWED")
              w
            ≡ (ok reply, after)
          → Told run_id reply after.0
      from true allowed q =
          mutate_allowed-Told spec s child mutation rationale w reply after fixture allowed q
      from false allowed q = fail-Told s "MUTATION_NOT_ALLOWED" w reply after q

  finish-Told :
      (spec : RunSpec) (s : RunState) (answer : Option ChildOutcome) (w : World F) (reply : Reply)
      (after : World F)
      → IsFixture spec
      → finish F c run_id spec s answer w ≡ (ok reply, after)
      → Told run_id reply after.0
  unfolding finish
  finish-Told spec s none w reply after fixture e = fail-Told s "CHILD_LAUNCH_ERROR" w reply after e
  finish-Told spec s (some child) w reply after fixture e =
      let (_, w1, _, e1) =
        continue-ok
          (on_first (record_observation c.hashing run_id "child_result" (child_payload child)) w) _
          e in
      from (summary_of child) w1 e1
    where
      branch : Option String → Effect (World F) Reply
      branch summary = elim summary [
        | none ↦ fail F c run_id s "CHILD_FAILED"
        | some t ↦ choose F c run_id spec s child (parse_child_payload c.loads t)
      ]

      from :
          (summary : Option String) (w1 : World F)
          → branch summary w1 ≡ (ok reply, after)
          → Told run_id reply after.0
      from none w1 q = fail-Told s "CHILD_FAILED" w1 reply after q
      from (some t) w1 q =
          choose-Told spec s child (parse_child_payload c.loads t) w1 reply after fixture q

  -- If `mutate` answers for a run whose RunSpec has the predicates, the score and the comparison that `create_run` sets, then the status it tells is the one that the ledger holds for the run, and no child is at work for it. If it tells of a verdict, then the mutation is one of the two that are allowed, and it is eligible exactly if the fixed test command passed and the mutation is filter_even.
  pub mutate-Told :
      (w : World F) (spec : RunSpec) (s : RunState) (reply : Reply) (after : World F)
      → load_phase3_run F c run_id w ≡ ok (spec, s)
      → IsFixture spec
      → mutate F c run_id w ≡ (ok reply, after)
      → Told run_id reply after.0
  unfolding mutate require_enabled
  mutate-Told w spec s reply after loads fixture e =
      let (_, _, e1) =
        lift-ok (Result.require c.enabled (disabled_error "Phase 3 execution is disabled")) _ w e in
      let (loaded, q, e2) = lift-ok (load_phase3_run F c run_id w) _ w e1 in
      let (t, w1, _, e3) =
        continue-ok
          (on_first (transition c.hashing run_id start_step loaded.1.revision none no_cost) w) _
          e2 in
      let (answer, w2, _, e4) =
        continue-ok (run_child F c run_id w1) (finish F c run_id loaded.0 t) e3 in
      let same : loaded.0 ≡ spec =
        ap (λ (x : RunSpec × RunState). x.0) (ok-injective _ _ (sym q ∙ loads)) in
      finish-Told loaded.0 t answer w2 reply after (subst⁻¹ IsFixture same fixture) e4
