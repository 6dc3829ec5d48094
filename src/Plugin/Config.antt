-- ===== src/Plugin/Config.antt =====
-- __init__.py: what `register` makes of the configuration, and the factories, which make a phase's
-- controller when it is first asked for.
use hermes_agentic_variation.Base.{
  ℕ, String, Bool, false, ◌&&◌, Option, none, some, leb, if◌then◌else◌,
}
use hermes_agentic_variation.Base.Int.{pos}
use hermes_agentic_variation.Base.Float.{int}
use hermes_agentic_variation.Base.Result.{Result, ok, err}
use hermes_agentic_variation.Effect.{Effect, pure, ◌>>=◌, ◌>>◌}
use hermes_agentic_variation.Base.Value.{Value, bool, num}
use hermes_agentic_variation.Child.{Request, Lifecycle}
use hermes_agentic_variation.Contracts.Agreement.{is_true}
use hermes_agentic_variation.Contracts.Identity.{Hashing}
use hermes_agentic_variation.Contracts.Json.{natural}
use hermes_agentic_variation.Controller.Steps.{Phase1Controller}
use hermes_agentic_variation.Phase3.Methods.{Phase3Controller}
use hermes_agentic_variation.Plugin.{Settings, phase1_controller}
use hermes_agentic_variation.Workspace.Files.{FileSystem, Processes, Digests}
use hermes_agentic_variation.Workspace.Methods

-- `ctx.get_config(name, default=default)`: none is a name that is not configured.
abbrev pub get_config : (String → Option Value) → String → Value → Value
get_config configured name default = elim (configured name) [ none ↦ default | some v ↦ v ]

-- `... is True`
unfoldable pub is_enabled : (String → Option Value) → String → Bool
is_enabled configured name = is_true (get_config configured name (bool false))

-- `raw if type(raw) is int and low <= raw <= high else default`
unfoldable pub within : ℕ → ℕ → ℕ → Value → ℕ
within low high default (num (int (pos n))) = if leb low n && leb n high then n else default
within low high default _ = default

unfoldable pub wait_seconds : (String → Option Value) → String → ℕ
unfolding within
wait_seconds configured name = within 5 180 120 (get_config configured name (natural 120))

unfoldable pub test_timeout : (String → Option Value) → ℕ
unfolding within
test_timeout configured =
    within 1 60 20 (get_config configured "phase3_test_timeout_seconds" (natural 20))

unfoldable pub settings : (String → Option Value) → String → String → Lifecycle → Settings
unfolding is_enabled wait_seconds
settings configured enabled_name wait_name lifecycle = record {
  enabled = is_enabled configured enabled_name;
  wait_seconds = wait_seconds configured wait_name;
  lifecycle = lifecycle;
}

-- `if instance is None: instance = ...`, then `return instance`. An exception leaves it as it was.
abbrev kept : {S A : Type 0} → Result A × S → Result A × (Option A × S)
kept (ok a, s) = (ok a, (some a, s))
kept (err e, s) = (err e, (none, s))

unfoldable pub once : {S A : Type 0} → Effect S A → Effect (Option A × S) A
once make (none, s) = kept (make s)
once make (some a, s) = (ok a, (some a, s))

module _ (F : FileSystem) where
  -- What the plugin is given: the configuration, the lifecycle of a phase's children, its
  -- directory (`plugin_data_dir`), and what SQLite does to the disk in `RunStore._initialize`.
  pub record Host : Type 0 where
    pub configured : String → Option Value
    pub hashing : Hashing
    pub loads : String → Option Value
    pub dumps : Value → String
    pub lifecycle : ℕ → Lifecycle
    pub others : Request → F.Disk → F.Disk
    pub data_dir : Effect F.Disk F.Location
    pub initialize : F.Location → Effect F.Disk (Unit {0})
    pub git_found : Bool
    pub processes : Processes F
    pub digests : Digests

  -- `RunStore(data_dir / "phase1.db")`, which makes the directories and the tables
  unfoldable pub open_store : Host → F.Location → Effect F.Disk (Unit {0})
  open_store host data_dir =
      let database_path = F.join data_dir "phase1.db" in
      F.make_dirs (F.parent database_path) >> host.initialize database_path

  unfoldable pub make_controller : Host → Settings → Effect F.Disk Phase1Controller
  unfolding open_store
  make_controller host s = do
    data_dir ← host.data_dir
    open_store host data_dir
    pure (phase1_controller host.hashing host.loads host.dumps s)

  unfoldable pub controller_factory :
      Host → Effect (Option Phase1Controller × F.Disk) Phase1Controller
  unfolding once make_controller settings
  controller_factory host = once (
      make_controller host
        (settings host.configured "phase1_enabled" "phase1_wait_seconds" (host.lifecycle 1)))

  unfoldable pub phase2_controller_factory :
      Host → Effect (Option Phase1Controller × F.Disk) Phase1Controller
  unfolding once make_controller settings
  phase2_controller_factory host = once (
      make_controller host
        (settings host.configured "phase2_enabled" "phase2_wait_seconds" (host.lifecycle 2)))

  unfoldable pub make_phase3 : Host → Effect F.Disk (Phase3Controller F)
  unfolding open_store settings test_timeout Methods.new
  make_phase3 host = do
    data_dir ← host.data_dir
    open_store host data_dir
    workspace ←
        Methods.new F (F.join data_dir "phase3-runs") (natural (test_timeout host.configured))
          "phase3" host.git_found host.processes host.digests
    let s = settings host.configured "phase3_enabled" "phase3_wait_seconds" (host.lifecycle 3)
    pure (record {
      hashing = host.hashing;
      loads = host.loads;
      dumps = host.dumps;
      lifecycle = s.lifecycle;
      others = host.others;
      workspace = workspace;
      enabled = s.enabled;
      wait_seconds = s.wait_seconds;
    })

  unfoldable pub phase3_controller_factory :
      Host → Effect (Option (Phase3Controller F) × F.Disk) (Phase3Controller F)
  unfolding once make_phase3
  phase3_controller_factory host = once (make_phase3 host)
