-- ===== src/Plugin/Bounds.antt =====
-- The factories of __init__.py, and the bounds of their settings.
use hermes_agentic_variation.Base.{
  ℕ, ◌≤◌, String, Bool, true, false, ◌&&◌, Option, none, some, leb, leb→le, ◌≡◌, ◌↔◌, refl, arith,
  inl, inr, Bool-cases,
}
use hermes_agentic_variation.Base.Int.{pos}
use hermes_agentic_variation.Base.Float.{int}
use hermes_agentic_variation.Base.Logic.{and-true, true-and}
use hermes_agentic_variation.Base.Result.{Error, Result, ok, err}
use hermes_agentic_variation.Base.Value.{Value, bool, num}
use hermes_agentic_variation.Child.{Lifecycle}
use hermes_agentic_variation.Contracts.Agreement.{is_true}
use hermes_agentic_variation.Contracts.Json.{natural}
use hermes_agentic_variation.Controller.Steps.{Phase1Controller}
use hermes_agentic_variation.Effect.{Effect}
use hermes_agentic_variation.Phase3.Methods.{Phase3Controller}
use hermes_agentic_variation.Plugin.{phase1_controller}
use hermes_agentic_variation.Plugin.Config.{
  get_config, is_enabled, within, wait_seconds, test_timeout, settings, once, Host, open_store,
  make_controller, controller_factory, phase2_controller_factory, make_phase3,
  phase3_controller_factory,
}
use hermes_agentic_variation.Workspace.Files.{FileSystem}
use hermes_agentic_variation.Workspace.Methods

within_bounds :
    (low high default : ℕ) (v : Value)
    → low ≤ default
    → default ≤ high
    → (low ≤ within low high default v) × (within low high default v ≤ high)
unfolding within
within_bounds low high default (num (int (pos n))) p q =
    elim (Bool-cases (leb low n && leb n high)) [
      | inl k ↦
          let (a, b) = and-true (leb low n) (leb n high) k in rw k (leb→le low n a, leb→le n high b)
      | inr k ↦ rw k (p, q)
    ]
within_bounds low high default (bool b) p q = (p, q)
within_bounds low high default _ p q = (p, q)

timeout_accepted :
    (F : FileSystem) (n : ℕ) → 1 ≤ n → n ≤ 60 → Methods.timeout_of F (num (int (pos n))) ≡ ok n
unfolding Methods.timeout_of
timeout_accepted F n p q = rw (true-and (leb 1 n) (leb n 60) (below 1 n p) (below n 60 q)) refl
  where
    below : (a b : ℕ) → a ≤ b → leb a b ≡ true
    below a b h = ground arith

-- A phase is on exactly if it is configured as True, and its children have 5 to 180 seconds.
pub record Within (configured : String → Option Value) (enabled_name : String) (enabled : Bool)
    (wait_seconds : ℕ) : Type 0 where
  pub switch : (enabled ≡ true) ↔ (configured enabled_name ≡ some (bool true))
  pub at_least : 5 ≤ wait_seconds
  pub at_most : wait_seconds ≤ 180

settings-Within :
    (host_configured : String → Option Value) (enabled_name wait_name : String)
    (lifecycle : Lifecycle)
    → let s = settings host_configured enabled_name wait_name lifecycle in
      Within host_configured enabled_name s.enabled s.wait_seconds
unfolding settings is_enabled wait_seconds
settings-Within configured enabled_name wait_name lifecycle =
    let (low, high) =
      within_bounds 5 180 120 (get_config configured wait_name (natural 120)) (omega arith)
        (omega arith) in
    record {
      switch = (from (configured enabled_name), to (configured enabled_name));
      at_least = low;
      at_most = high;
    }
  where
    from :
        (found : Option Value)
        → is_true (elim found [ none ↦ bool false | some v ↦ v ]) ≡ true
        → found ≡ some (bool true)
    from found h = ground arith

    to :
        (found : Option Value)
        → found ≡ some (bool true)
        → is_true (elim found [ none ↦ bool false | some v ↦ v ]) ≡ true
    to found h = rw h refl

-- A factory that is asked for the first time on a disk makes the controller, and from then on gives
-- that controller, without touching the disk.
pub record Makes {D A : Type 0} (factory : Effect (Option A × D) A) (d after : D) (c : A)
    : Type 0 where
  pub first : factory (none, d) ≡ (ok c, (some c, after))
  pub again : (later : D) → factory (some c, later) ≡ (ok c, (some c, later))

module _ (F : FileSystem) where
  pub record Configured (host : Host F) (data_dir : F.Location) (d after : F.Disk) : Type 0 where
    pub first : Phase1Controller
    pub second : Phase1Controller
    pub third : Phase3Controller F
    pub makes_first : Makes (controller_factory F host) d after first
    pub makes_second : Makes (phase2_controller_factory F host) d after second
    pub makes_third : Makes (phase3_controller_factory F host) d after third
    pub phase1 : Within host.configured "phase1_enabled" first.enabled first.wait_seconds
    pub phase2 : Within host.configured "phase2_enabled" second.enabled second.wait_seconds
    pub phase3 : Within host.configured "phase3_enabled" third.enabled third.wait_seconds
    pub root : third.workspace.root ≡ F.resolve (F.join data_dir "phase3-runs") after
    pub prefix : third.workspace.repository_prefix ≡ "phase3"
    pub at_least : 1 ≤ third.workspace.test_timeout_seconds
    pub at_most : third.workspace.test_timeout_seconds ≤ 60

  pub record Refused (host : Host F) (e : Error) (d after : F.Disk) : Type 0 where
    pub first : controller_factory F host (none, d) ≡ (err e, (none, after))
    pub second : phase2_controller_factory F host (none, d) ≡ (err e, (none, after))
    pub third : phase3_controller_factory F host (none, d) ≡ (err e, (none, after))

  abbrev pub Outcome : Host F → F.Location → F.Disk → F.Disk → Result (Unit {0}) → Type 0
  Outcome host data_dir d after (ok done) = Configured host data_dir d after
  Outcome host data_dir d after (err e) = Refused host e d after

  -- Whatever is configured, of whatever type: if the plugin's directory is found, git is found, and the directory of the runs is no existing link once the ledger is opened, then the opening of the ledger decides what the first call of each factory comes to. If the opening raises, then the factory raises the same error, leaves the disk as the opening left it, and remembers no controller. If the opening answers, then the factory answers, changes the disk no further, and from then on gives the same controller without touching the disk. Each of the three phases is then on exactly if its switch is configured as True, its children have 5 to 180 seconds, the tests of Phase 3 have 1 to 60, and the workspace's root is the resolved directory of the runs.
  pub factories-Configured :
      (host : Host F) (data_dir : F.Location) (d located after : F.Disk)
      (opened : Result (Unit {0}))
      → host.data_dir d ≡ (ok data_dir, located)
      → open_store F host data_dir located ≡ (opened, after)
      → (F.exists (F.join data_dir "phase3-runs") after
          && F.is_link (F.join data_dir "phase3-runs") after)
        ≡ false
      → host.git_found ≡ true
      → Outcome host data_dir d after opened
  unfolding controller_factory phase2_controller_factory phase3_controller_factory once
      make_controller make_phase3 Methods.new
  factories-Configured host data_dir d located after (err e) at opens no_link git = record {
    first = rw (at, opens) refl;
    second = rw (at, opens) refl;
    third = rw (at, opens) refl;
  }
  factories-Configured host data_dir d located after (ok done) at opens no_link git =
      let (low, high) =
        within_bounds 1 60 20
          (get_config host.configured "phase3_test_timeout_seconds" (natural 20)) (omega arith)
          (omega arith) in
      let s1 = settings host.configured "phase1_enabled" "phase1_wait_seconds" (host.lifecycle 1) in
      let s2 = settings host.configured "phase2_enabled" "phase2_wait_seconds" (host.lifecycle 2) in
      let s3 = settings host.configured "phase3_enabled" "phase3_wait_seconds" (host.lifecycle 3) in
      record {
        first = phase1_controller host.hashing host.loads host.dumps s1;
        second = phase1_controller host.hashing host.loads host.dumps s2;
        third = record {
          hashing = host.hashing;
          loads = host.loads;
          dumps = host.dumps;
          lifecycle = s3.lifecycle;
          others = host.others;
          workspace = record {
            root = F.resolve (F.join data_dir "phase3-runs") after;
            test_timeout_seconds = test_timeout host.configured;
            repository_prefix = "phase3";
            processes = host.processes;
            digests = host.digests;
          };
          enabled = s3.enabled;
          wait_seconds = s3.wait_seconds;
        };
        makes_first = record { first = rw (at, opens) refl; again = λ later. refl };
        makes_second = record { first = rw (at, opens) refl; again = λ later. refl };
        makes_third = record {
          first =
              rw
                (
                  at,
                  opens,
                  no_link,
                  git,
                  timeout_accepted F (test_timeout host.configured) low high,
                )
                refl;
          again = λ later. refl;
        };
        phase1 =
            settings-Within host.configured "phase1_enabled" "phase1_wait_seconds"
              (host.lifecycle 1);
        phase2 =
            settings-Within host.configured "phase2_enabled" "phase2_wait_seconds"
              (host.lifecycle 2);
        phase3 =
            settings-Within host.configured "phase3_enabled" "phase3_wait_seconds"
              (host.lifecycle 3);
        root = refl;
        prefix = refl;
        at_least = low;
        at_most = high;
      }
