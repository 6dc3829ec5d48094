-- ===== src/Child.antt =====
-- controller.py: `ChildLifecycle`, the service that runs one child for a controller. The service
-- itself is not part of the plugin, so that what a child answers is a parameter. Other users of the
-- store may call it while the child runs: what they call is a parameter too.
pub mod Adapter
pub mod Closed
use hermes_agentic_variation.Base.{
  ℕ, String, not, ◌&&◌, List, [], ◌∷◌, Option, none, some, str_eq, if◌then◌else◌,
}
use hermes_agentic_variation.Base.Result.{Result, ok, err}
use hermes_agentic_variation.Base.Value.{Value, str, dict}
use hermes_agentic_variation.Contracts.Json.{fields, natural}
use hermes_agentic_variation.Contracts.Identity.{Hashing}
use hermes_agentic_variation.Storage.Calls.{Call, execute_all}
use hermes_agentic_variation.Storage.Monad.{Action, pure}

-- The arguments of `lifecycle.run`.
pub record Request : Type 0 where
  pub goal : String
  pub context : String
  pub role : String
  pub correlation_id : String
  pub allowed_toolsets : List String
  pub wait_seconds : ℕ

-- `ChildOutcome`, of which `error` is not read.
pub record ChildOutcome : Type 0 where
  pub terminal_state : String
  pub summary : Option String
  pub result_hash : String
  pub api_calls : ℕ

-- The outcome of a request, none where `run` raises, and the calls of the store that are made by
-- others before it returns.
pub record Lifecycle : Type 0 where
  pub outcome : Request → Option ChildOutcome
  pub meanwhile : Request → List Call

-- The request of a controller: a leaf with the one toolset that a RunSpec allows.
unfoldable pub leaf_request : String → String → String → ℕ → Request
leaf_request goal context correlation_id wait_seconds = record {
  goal = goal;
  context = context;
  role = "leaf";
  correlation_id = correlation_id;
  allowed_toolsets = "todo" ∷ [];
  wait_seconds = wait_seconds;
}

-- `try: child = self.lifecycle.run(...)`, none if the body raises, also while the arguments are
-- computed.
unfoldable pub launch : Hashing → Lifecycle → Result Request → Action (Option ChildOutcome)
unfolding execute_all
launch h l (err e) db = (ok none, db)
launch h l (ok request) db = (ok (l.outcome request), execute_all h (l.meanwhile request) db)

-- What is observed of an outcome.
abbrev pub child_payload : ChildOutcome → Value
child_payload child = dict (
    fields (
      ("terminal_state", str child.terminal_state)
      ∷ ("result_hash", str child.result_hash)
      ∷ ("api_calls", natural child.api_calls)
      ∷ []))

-- `child.terminal_state != "SUCCEEDED" or not child.summary`: none, or the summary
abbrev pub summary_of : ChildOutcome → Option String
summary_of child = elim child.summary [
  | none ↦ none
  | some s ↦ if str_eq child.terminal_state "SUCCEEDED" && not (str_eq s "") then some s else none
]
