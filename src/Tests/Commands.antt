-- ===== src/Tests/Commands.antt =====
-- The plugin and its adapter on concrete data.
use hermes_agentic_variation.Base.{
  String, Option, ◌&&◌, str_eq, if◌then◌else◌, true, false, List, [], ◌∷◌, none, some, ◌≡◌, refl,
}
use hermes_agentic_variation.Base.Value.{Value, null, bool, str}
use hermes_agentic_variation.Child.{Request, ChildOutcome, leaf_request}
use hermes_agentic_variation.Child.Adapter
use hermes_agentic_variation.Child.Adapter.{Service, Terminal}
use hermes_agentic_variation.Child.Closed.{Closed, run-Closed}
use hermes_agentic_variation.Plugin.{
  Plugin, Settings, Command, create_phase2, step_phase2, cancel, create_phase3, mutate_phase3,
  reconcile_phase3, perform_all,
}
use hermes_agentic_variation.Base.Result.{ok}
use hermes_agentic_variation.Effect.{gets}
use hermes_agentic_variation.Contracts.Json.{natural}
use hermes_agentic_variation.Plugin.Bounds.{Configured, factories-Configured}
use hermes_agentic_variation.Plugin.Config.{Host, open_store}
use hermes_agentic_variation.Plugin.Refines.{perform_all-refines}
use hermes_agentic_variation.Storage.Calls.{Call, execute_all, observe}
use hermes_agentic_variation.Storage.Calls.Extends.{Extends}
use hermes_agentic_variation.Storage.Calls.Recorded.{Recorded}
use hermes_agentic_variation.Storage.Tables.{initial}
use hermes_agentic_variation.Tests.Disk.{disk, empty_disk}
use hermes_agentic_variation.Tests.Executable.{workspace}
use hermes_agentic_variation.Tests.Samples.{hashing}

-- Somebody else observes the run while its child is at work.
abbrev settings : Settings
settings = record {
  enabled = true;
  wait_seconds = 60;
  lifecycle = record { outcome = λ r. none; meanwhile = λ r. observe "phase2-01" "note" null ∷ [] };
}

abbrev plugin : Plugin disk
plugin = record {
  hashing = hashing;
  loads = λ s. none;
  dumps = λ v. "{}";
  phase1 = record settings { enabled = false };
  phase2 = settings;
  phase3 = settings;
  workspace = workspace;
  others = λ r d. d;
}

abbrev commands : List Command
commands =
    create_phase2 "phase2-01" (str "Improve.") (str "approved")
    ∷ step_phase2 "phase2-01"
    ∷ cancel "phase2-01"
    ∷ create_phase3 "0123456789abcdef" (str "Improve.") (str "approved")
    ∷ mutate_phase3 "phase3-0123456789abcdef"
    ∷ reconcile_phase3 "phase3-0123456789abcdef"
    ∷ []

perform_all-refines_example :
    ((calls : List Call) × ((perform_all disk plugin commands (initial, empty_disk)).0
        ≡ execute_all hashing calls initial))
    × Extends initial (perform_all disk plugin commands (initial, empty_disk)).0
    × Recorded hashing (perform_all disk plugin commands (initial, empty_disk)).0
perform_all-refines_example = perform_all-refines disk plugin commands (initial, empty_disk)

-- A switch that is no Boolean, a wait that is too long, and a timeout that is a Boolean.
abbrev configured : String → Option Value
configured name =
    if str_eq name "phase1_enabled"
    then some (str "yes")
    else if str_eq name "phase3_enabled"
    then some (bool true)
    else if str_eq name "phase3_wait_seconds"
    then some (natural 900)
    else if str_eq name "phase3_test_timeout_seconds"
    then some (bool true)
    else none

abbrev plugin_dir : disk.Location
plugin_dir = "agentic-variation" ∷ []

abbrev host : Host disk
host = record {
  configured = configured;
  hashing = hashing;
  loads = λ s. none;
  dumps = λ v. "{}";
  lifecycle = λ n. settings.lifecycle;
  others = λ r d. d;
  data_dir = gets (λ d. plugin_dir);
  initialize = λ path. disk.write_text path "tables";
  git_found = true;
  processes = workspace.processes;
  digests = workspace.digests;
}

-- The opening makes the directory and the ledger's file.
abbrev opened_disk : disk.Disk
opened_disk = (open_store disk host plugin_dir empty_disk).1

ledger_made : disk.read_bytes ("phase1.db" ∷ plugin_dir) opened_disk ≡ some (disk.utf8 "tables")
unfolding open_store
ledger_made = refl

opened : open_store disk host plugin_dir empty_disk ≡ (ok tt, opened_disk)
unfolding open_store
opened = refl

not_linked :
    (disk.exists ("phase3-runs" ∷ plugin_dir) opened_disk
      && disk.is_link ("phase3-runs" ∷ plugin_dir) opened_disk)
    ≡ false
unfolding open_store
not_linked = refl

factories-Configured_example : Configured disk host plugin_dir empty_disk opened_disk
factories-Configured_example =
    factories-Configured disk host plugin_dir empty_disk empty_disk opened_disk (ok tt) refl opened
      not_linked refl

abbrev request : Request
unfolding leaf_request
request = leaf_request "goal" "context" "phase2-01:supervisor:1" 60

-- The service sets a hash that is too short, and no usage.
abbrev terminal : Terminal
terminal = record {
  terminal_state = "SUCCEEDED";
  summary = str "{}";
  result_hash = str "abc";
  usage_metadata = null;
  error_message = none;
}

abbrev service : Service
service = record { timed_out = λ r. some false; cancel = λ r. some tt; result = λ r. some terminal }

abbrev answer : ChildOutcome
unfolding Adapter.finished
answer = Adapter.finished hashing terminal

runs : Adapter.run hashing service request ≡ some answer
unfolding Adapter.run answer request Adapter.after_result
runs = refl

run-Closed_example : Closed hashing service request answer
run-Closed_example = run-Closed hashing service request answer runs
