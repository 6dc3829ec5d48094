-- ===== src/Phase3/Creates.antt =====
-- What `create_run` of Phase 3 asks for, and what it leaves.
use hermes_agentic_variation.Base.{
  ℕ, is_blank, String, true, false, [], ◌∷◌, none, ◌≡◌, refl, sym, ap, ◌∙◌,
}
use hermes_agentic_variation.Base.Result
use hermes_agentic_variation.Base.Result.{
  Result, contract_error, disabled_error, value_error, workspace_violation, ok, >>=-eq-ok,
  ok-injective, require-ok,
}
use hermes_agentic_variation.Base.Value.{Value, str, tuple}
use hermes_agentic_variation.Contracts.Checks.{
  require_text, require_digest, require_text_tuple, require_positive, finite_nonneg, texts,
}
use hermes_agentic_variation.Contracts.Json.{natural, text_values}
use hermes_agentic_variation.Contracts.RunSpec
use hermes_agentic_variation.Contracts.RunSpec.{RunSpec}
use hermes_agentic_variation.Contracts.Identity.{Hashing}
use hermes_agentic_variation.Contracts.RunSpec.{minimize}
use hermes_agentic_variation.Controller.Cancel.{dispatch-approve}
use hermes_agentic_variation.Effect.{continue-ok, lift-ok, pure-ok, on_first, on_second}
use hermes_agentic_variation.Patch.Lines.{append}
use hermes_agentic_variation.Phase3.Data.{spec_args, is_short_text, created_payload}
use hermes_agentic_variation.Phase3.Ledger.{record_created}
use hermes_agentic_variation.Phase3.Methods.{
  Phase3Controller, World, Created, create, require_enabled,
}
use hermes_agentic_variation.StateMachine.{ready, approve, RunState, no_cost}
use hermes_agentic_variation.StateMachine.Accepted.{apply_transition-Accepted}
use hermes_agentic_variation.Storage.Monad
use hermes_agentic_variation.Storage.Reads.{load_run}
use hermes_agentic_variation.Storage.Runs.{create_run, transition, record_observation}
use hermes_agentic_variation.Storage.Tables.{Database}
use hermes_agentic_variation.Storage.Transition.Readers.{transition-Transitions}
use hermes_agentic_variation.Verdict.Reports.{record_observation-load_run}
use hermes_agentic_variation.Workspace.Files.{FileSystem}
use hermes_agentic_variation.Workspace.Methods as Repository
use hermes_agentic_variation.Workspace.Methods.{is_repository_id}
use hermes_agentic_variation.Phase3.Eligible.{IsFixture}

predicates_accepted :
    require_text_tuple "correctness_predicates" false
      (tuple (text_values ("tests_pass" ∷ "mutation_matches" ∷ [])))
    ≡ ok ("tests_pass" ∷ "mutation_matches" ∷ [])
unfolding require_text_tuple texts is_blank
predicates_accepted = refl

keys_accepted :
    require_text_tuple "score_keys" false (tuple (text_values ("test_failures" ∷ [])))
    ≡ ok ("test_failures" ∷ [])
unfolding require_text_tuple texts is_blank
keys_accepted = refl

comparison_accepted : RunSpec.require_comparison (str "minimize") ≡ ok minimize
unfolding RunSpec.require_comparison
comparison_accepted = refl

new-IsFixture :
    (run_id target_root tree_hash : String) (objective receipt : Value) (seconds : ℕ)
    (spec : RunSpec)
    → RunSpec.new (spec_args run_id target_root tree_hash objective receipt seconds) ≡ ok spec
    → IsFixture spec
unfolding RunSpec.new spec_args
new-IsFixture run_id target_root tree_hash objective receipt seconds spec e =
    let (_, _, e1) = >>=-eq-ok (require_text "run_id" (str run_id)) _ e in
    let (_, _, e2) = >>=-eq-ok (require_text "target_root" (str target_root)) _ e1 in
    let (_, _, e3) = >>=-eq-ok (require_text "objective" objective) _ e2 in
    let (_, _, e4) = >>=-eq-ok (require_text "evaluator_id" _) _ e3 in
    let (_, _, e5) = >>=-eq-ok (require_text "approval_receipt" receipt) _ e4 in
    let (_, _, e6) = >>=-eq-ok (require_digest "seed_digest" (str tree_hash)) _ e5 in
    let (_, _, e7) = >>=-eq-ok (require_text_tuple "exclusions" true _) _ e6 in
    let (ps, p, e8) = >>=-eq-ok (require_text_tuple "correctness_predicates" false _) _ e7 in
    let (ks, k, e9) = >>=-eq-ok (require_text_tuple "score_keys" false _) _ e8 in
    let (_, _, e10) = >>=-eq-ok (require_text_tuple "allowed_toolsets" false _) _ e9 in
    let (comparison, q, e11) = >>=-eq-ok (RunSpec.require_comparison (str "minimize")) _ e10 in
    let (_, _, e12) = >>=-eq-ok (RunSpec.require_network_policy _) _ e11 in
    let (_, _, e13) = >>=-eq-ok (require_positive "max_steps" _) _ e12 in
    let (_, _, e14) = >>=-eq-ok (require_positive "max_wall_seconds" (natural seconds)) _ e13 in
    let (_, _, e15) = >>=-eq-ok (finite_nonneg _ _) _ e14 in
    let (_, _, e16) = >>=-eq-ok (require_positive "no_progress_limit" _) _ e15 in
    let (_, _, e17) = >>=-eq-ok (RunSpec.freeze_config "evaluator_config" _) _ e16 in
    let same = ok-injective _ spec e17 in
    record {
      correctness_predicates =
          ap (λ (x : RunSpec). x.correctness_predicates) (sym same)
          ∙ ok-injective ps ("tests_pass" ∷ "mutation_matches" ∷ []) (sym p ∙ predicates_accepted);
      score_keys =
          ap (λ (x : RunSpec). x.score_keys) (sym same)
          ∙ ok-injective ks ("test_failures" ∷ []) (sym k ∙ keys_accepted);
      comparison =
          ap (λ (x : RunSpec). x.comparison) (sym same)
          ∙ ok-injective comparison minimize (sym q ∙ comparison_accepted);
    }

record_created-Ready :
    (h : Hashing) (run_id : String) (spec : RunSpec) (tree_hash : String) (db : Database)
    (t : RunState) (after : Database)
    → record_created h run_id spec tree_hash db ≡ (ok t, after)
    → (t.status ≡ ready) × ((stored : RunSpec) × (load_run run_id after ≡ ok (stored, t)))
unfolding record_created
record_created-Ready h run_id spec tree_hash db t after e =
    let (s, d1, _, e1) = Monad.continue-ok (create_run h spec db) _ e in
    let (approved, d2, q, e2) =
      Monad.continue-ok (transition h run_id approve s.revision none no_cost d1) _ e1 in
    let (u, d3, r, e3) =
      Monad.continue-ok
        (record_observation h run_id "repo_created" (created_payload run_id tree_hash) d2) _ e2 in
    let (same, same_db) = Monad.pure-ok approved t d3 after e3 in
    let w = transition-Transitions h run_id approve s.revision none no_cost d1 approved d2 q in
    let a = apply_transition-Accepted h w.before approve w.spec none no_cost approved w.stepped in
    let kept =
      record_observation-load_run h run_id "repo_created" (created_payload run_id tree_hash) d2 u d3
        run_id r in
    rw (sym same, sym same_db)
      (dispatch-approve w.before approved w.spec a.delta a.stepped, (w.spec, kept ∙ w.loaded_after))

module _ (F : FileSystem) (c : Phase3Controller F) where
  -- What a run that was created had to pass, and how it is stored.
  pub record Ready (token : String) (objective receipt : Value) (w : World F) (made : Created)
      (after : World F) : Type 0 where
    pub enabled : c.enabled ≡ true
    pub objective_accepted : is_short_text objective ≡ true
    pub receipt_accepted : is_short_text receipt ≡ true
    pub named : is_repository_id F c.workspace.repository_prefix (append "phase3-" token) ≡ true
    pub spec : RunSpec
    pub asked :
        RunSpec.new (
          spec_args
            (append "phase3-" token)
            made.repository_path
            made.baseline_tree_hash
            objective
            receipt
            c.wait_seconds)
        ≡ ok spec
    pub fixture : IsFixture spec
    pub ready : made.state.status ≡ ready
    pub stored : RunSpec
    pub loaded : load_run (append "phase3-" token) after.0 ≡ ok (stored, made.state)

  named_by_create :
      (id : String) (d : F.Disk) (repo : F.Location) (after : F.Disk)
      → Repository.create F c.workspace id d ≡ (ok repo, after)
      → is_repository_id F c.workspace.repository_prefix id ≡ true
  unfolding Repository.create
  named_by_create id d repo after e =
      let (_, q, _) =
        lift-ok
          (Result.require (is_repository_id F c.workspace.repository_prefix id)
            (workspace_violation "repository_id is invalid"))
          _ d e in
      require-ok _ _ q

  -- If `create_run` answers, then the plugin was enabled, the objective and the approval receipt are texts that are not blank with at most 1000 characters, and the run's id has the form of a repository's id. The RunSpec that was made has the evaluator's predicates, score and comparison, and the stored run is ready, with the state that is told.
  pub create-Ready :
      (token : String) (objective receipt : Value) (w : World F) (made : Created) (after : World F)
      → create F c token objective receipt w ≡ (ok made, after)
      → Ready token objective receipt w made after
  unfolding create require_enabled
  create-Ready token objective receipt w made after e =
      let id : String = append "phase3-" token in
      let (_, on, e1) =
        lift-ok (Result.require c.enabled (disabled_error "Phase 3 execution is disabled")) _ w e in
      let (_, o, e2) =
        lift-ok
          (Result.require (is_short_text objective)
            (value_error "objective must be a non-empty string of at most 1000 characters"))
          _ w e1 in
      let (_, r, e3) =
        lift-ok
          (Result.require (is_short_text receipt)
            (value_error "approval_receipt must be a non-empty string of at most 1000 characters"))
          _ w e2 in
      let (repo, w1, q, e4) = continue-ok (on_second (Repository.create F c.workspace id) w) _ e3 in
      let (tree_hash, _, e5) = lift-ok (Repository.tree_hash F c.workspace repo w1.1) _ w1 e4 in
      let (spec, asked, e6) =
        lift-ok
          (RunSpec.new (spec_args id (F.to_text repo) tree_hash objective receipt c.wait_seconds)) _
          w1 e5 in
      let (t, w2, p, e7) =
        continue-ok (on_first (record_created c.hashing id spec tree_hash) w1) _ e6 in
      let answer : Created = record {
        state = t;
        repository_path = F.to_text repo;
        baseline_tree_hash = tree_hash;
      } in
      let (same, same_w) = pure-ok answer made w2 after e7 in
      let (is_ready, (stored, loads)) =
        record_created-Ready c.hashing id spec tree_hash w1.0 t w2.0 (ap (λ x. (x.0, x.1.0)) p) in
      along answer w2 same same_w (record {
        enabled = require-ok _ _ on;
        objective_accepted = require-ok _ _ o;
        receipt_accepted = require-ok _ _ r;
        named = named_by_create id w.1 repo w1.1 (ap (λ x. (x.0, x.1.1)) q);
        spec = spec;
        asked = asked;
        fixture =
            new-IsFixture id (F.to_text repo) tree_hash objective receipt c.wait_seconds spec asked;
        ready = is_ready;
        stored = stored;
        loaded = loads;
      })
    where
      along :
          (a : Created) (v : World F)
          → a ≡ made
          → v ≡ after
          → Ready token objective receipt w a v
          → Ready token objective receipt w made after
      along a v p q x = rw (sym p, sym q) x
