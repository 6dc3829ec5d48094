-- ===== src/Child/Adapter.antt =====
-- runtime.py: `HermesLifecycleAdapter.run` over the subagent service of Hermes. What the service
-- does with a request is a parameter; where one of its calls raises, so does `run`.
use hermes_agentic_variation.Base.{
  ℕ, String, Bool, true, false, ◌==◌, Option, none, some, len, if◌then◌else◌,
}
use hermes_agentic_variation.Base.Float.{int}
use hermes_agentic_variation.Base.Int.{pos}
use hermes_agentic_variation.Base.Value.{Value, num, str, dict}
use hermes_agentic_variation.Child.{Request, ChildOutcome}
use hermes_agentic_variation.Contracts.Identity.{Hashing}
use hermes_agentic_variation.Contracts.Json.{get}
use hermes_agentic_variation.Patch.Lines.{append}

-- What the service has of a child: the text of its terminal state, and values that it may set.
pub record Terminal : Type 0 where
  pub terminal_state : String
  pub summary : Value
  pub result_hash : Value
  pub usage_metadata : Value
  pub error_message : Option String

-- The calls that `run` makes, none where the call raises: `launch` and `wait` with its `timed_out`,
-- `cancel`, and `result`.
pub record Service : Type 0 where
  pub timed_out : Request → Option Bool
  pub cancel : Request → Option (Unit {0})
  pub result : Request → Option Terminal

abbrev or_empty : Option String → String
or_empty none = ""
or_empty (some s) = s

-- `result.summary if isinstance(result.summary, str) else None`
abbrev text_of : Value → Option String
text_of (str s) = some s
text_of _ = none

-- A result hash of 64 characters, or the digest of what the result says.
unfoldable pub material : Terminal → String
unfolding append
material r =
    append r.terminal_state
      (append ":" (append (or_empty (text_of r.summary)) (append ":" (or_empty r.error_message))))

abbrev pub hash_in : Hashing → String → Value → String
hash_in h fallback (str s) = if len s == 64 then s else h.of_text fallback
hash_in h fallback _ = h.of_text fallback

unfoldable pub result_hash_of : Hashing → Terminal → String
unfolding material
result_hash_of h r = hash_in h (material r) r.result_hash

-- `usage.get("api_calls", 0)`, 0 unless it is an int that is not negative.
abbrev calls_in : Option Value → ℕ
calls_in (some (num (int (pos n)))) = n
calls_in _ = 0

unfoldable pub api_calls_of : Value → ℕ
api_calls_of (dict es) = calls_in (get "api_calls" es)
api_calls_of _ = 0

unfoldable pub timeout_outcome : Hashing → Request → ChildOutcome
unfolding append
timeout_outcome h request = record {
  terminal_state = "FAILED";
  summary = none;
  result_hash = h.of_text (append "timeout:" request.correlation_id);
  api_calls = 0;
}

unfoldable pub finished : Hashing → Terminal → ChildOutcome
unfolding result_hash_of api_calls_of
finished h r = record {
  terminal_state = r.terminal_state;
  summary = text_of r.summary;
  result_hash = result_hash_of h r;
  api_calls = api_calls_of r.usage_metadata;
}

unfoldable pub after_cancel : Hashing → Request → Option (Unit {0}) → Option ChildOutcome
unfolding timeout_outcome
after_cancel h request none = none
after_cancel h request (some u) = some (timeout_outcome h request)

unfoldable pub after_result : Hashing → Option Terminal → Option ChildOutcome
unfolding finished
after_result h none = none
after_result h (some r) = some (finished h r)

unfoldable pub after_wait : Hashing → Service → Request → Option Bool → Option ChildOutcome
unfolding timeout_outcome finished
after_wait h service request none = none
after_wait h service request (some true) = after_cancel h request (service.cancel request)
after_wait h service request (some false) = after_result h (service.result request)

-- `run`
unfoldable pub run : Hashing → Service → Request → Option ChildOutcome
unfolding after_wait
run h service request = after_wait h service request (service.timed_out request)
