-- ===== src/Storage/State.antt =====
-- storage.py: `_state_json`, `_state_hash` and `_state_from_json`. A document that this store did
-- not write is a type error here.
use hermes_agentic_variation.Base.{
  ℕ, Bool, true, false, ◌≡◌, refl, String, List, [], ◌∷◌, Option, none, some, str_eq, if◌then◌else◌,
}
use hermes_agentic_variation.Base.Int.{pos}
use hermes_agentic_variation.Base.Float.{Float, int, float, isfinite}
use hermes_agentic_variation.Base.Result.{type_error, value_error, Result, ok, err, ◌>>=◌}
use hermes_agentic_variation.Base.Value.{Value, null, num, str, dict}
use hermes_agentic_variation.Contracts.Identity.{Hashing}
use hermes_agentic_variation.Contracts.Json.{fields, natural, optional_text, get}
use hermes_agentic_variation.StateMachine.{
  Status, created, ready, running, evaluating, supervision_required, supervising, paused, succeeded,
  no_result, cancelled, budget_exhausted, failed, RunState,
}

unfoldable pub status_text : Status → String
status_text created = "created"
status_text ready = "ready"
status_text running = "running"
status_text evaluating = "evaluating"
status_text supervision_required = "supervision_required"
status_text supervising = "supervising"
status_text paused = "paused"
status_text succeeded = "succeeded"
status_text no_result = "no_result"
status_text cancelled = "cancelled"
status_text budget_exhausted = "budget_exhausted"
status_text failed = "failed"

abbrev statuses : List Status
statuses =
    created ∷ ready ∷ running ∷ evaluating ∷ supervision_required ∷ supervising ∷ paused ∷ succeeded
    ∷ no_result ∷ cancelled ∷ budget_exhausted ∷ failed ∷ []

unfoldable find_status : String → List Status → Result Status
unfolding status_text
find_status s [] = err type_error
find_status s (x ∷ xs) = if str_eq (status_text x) s then ok x else find_status s xs

abbrev optional_status : Option Status → Value
unfolding status_text
optional_status none = null
optional_status (some s) = str (status_text s)

-- `asdict(state)`
unfoldable pub state_document : RunState → Value
unfolding status_text
state_document s = dict (
    fields (
      ("run_spec_hash", str s.run_spec_hash)
      ∷ ("status", str (status_text s.status))
      ∷ ("revision", natural s.revision)
      ∷ ("steps_used", natural s.steps_used)
      ∷ ("consecutive_no_progress", natural s.consecutive_no_progress)
      ∷ ("best_candidate_hash", optional_text s.best_candidate_hash)
      ∷ ("cost_usd", num (float s.cost_usd))
      ∷ ("paused_from", optional_status s.paused_from)
      ∷ []))

-- `_state_json`: `json.dumps` refuses a cost that is not finite (`allow_nan=False`).
unfoldable pub state_json : RunState → Result Value
unfolding state_document
state_json s =
    if isfinite s.cost_usd
    then ok (state_document s)
    else err (value_error "Out of range float values")

-- `_state_hash`, where `_state_json` is given
unfoldable pub state_hash : Hashing → RunState → String
unfolding state_document
state_hash h s = h.of_json (state_document s)

read_text : Option Value → Result String
read_text (some (str s)) = ok s
read_text _ = err type_error

read_natural : Option Value → Result ℕ
read_natural (some (num (int (pos n)))) = ok n
read_natural _ = err type_error

read_float : Option Value → Result Float
read_float (some (num (float f))) = ok f
read_float _ = err type_error

read_optional_text : Option Value → Result (Option String)
read_optional_text (some null) = ok none
read_optional_text (some (str s)) = ok (some s)
read_optional_text _ = err type_error

read_status : Option Value → Result Status
unfolding find_status
read_status (some (str s)) = find_status s statuses
read_status _ = err type_error

read_optional_status : Option Value → Result (Option Status)
unfolding find_status
read_optional_status (some null) = ok none
read_optional_status (some (str s)) = do x ← find_status s statuses; ok (some x)
read_optional_status _ = err type_error

-- `_state_from_json`
unfoldable pub state_from_json : Value → Result RunState
unfolding read_text read_natural read_float read_optional_text read_status read_optional_status
state_from_json (dict es) = do
  run_spec_hash ← read_text (get "run_spec_hash" es)
  status ← read_status (get "status" es)
  revision ← read_natural (get "revision" es)
  steps_used ← read_natural (get "steps_used" es)
  consecutive_no_progress ← read_natural (get "consecutive_no_progress" es)
  best_candidate_hash ← read_optional_text (get "best_candidate_hash" es)
  cost_usd ← read_float (get "cost_usd" es)
  paused_from ← read_optional_status (get "paused_from" es)
  ok (record {
    run_spec_hash = run_spec_hash;
    status = status;
    revision = revision;
    steps_used = steps_used;
    consecutive_no_progress = consecutive_no_progress;
    best_candidate_hash = best_candidate_hash;
    cost_usd = cost_usd;
    paused_from = paused_from;
  })
state_from_json _ = err type_error

read-status : (s : Status) → find_status (status_text s) statuses ≡ ok s
unfolding find_status status_text
read-status created = refl
read-status ready = refl
read-status running = refl
read-status evaluating = refl
read-status supervision_required = refl
read-status supervising = refl
read-status paused = refl
read-status succeeded = refl
read-status no_result = refl
read-status cancelled = refl
read-status budget_exhausted = refl
read-status failed = refl

read-optional_text : (o : Option String) → read_optional_text (some (optional_text o)) ≡ ok o
unfolding read_optional_text
read-optional_text none = refl
read-optional_text (some s) = refl

read-optional_status : (o : Option Status) → read_optional_status (some (optional_status o)) ≡ ok o
unfolding read_optional_status find_status
read-optional_status none = refl
read-optional_status (some s) = rw (read-status s)

pub state_json-ok : (s : RunState) (v : Value) → state_json s ≡ ok v → state_document s ≡ v
unfolding state_json
state_json-ok s v e = decided (isfinite s.cost_usd) e
  where
    decided :
        (b : Bool)
        → ◌≡◌ {A = Result Value}
            (if b then ok (state_document s) else err (value_error "Out of range float values"))
            (ok v)
        → state_document s ≡ v
    decided true e = cc
    decided false e = cc

-- The document of a run state is read as that state.
pub state_round_trip : (s : RunState) → state_from_json (state_document s) ≡ ok s
unfolding state_from_json state_document read_status read_text read_natural read_float
state_round_trip s = rw (
  read-status s.status,
  read-optional_text s.best_candidate_hash,
  read-optional_status s.paused_from,
)
