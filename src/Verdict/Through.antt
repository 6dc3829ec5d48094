-- ===== src/Verdict/Through.antt =====
-- The verdicts and the children of the controllers reach the store only through its methods.
use hermes_agentic_variation.Base.{String, Bool, List, none, refl}
use hermes_agentic_variation.Base.Result.{Result, ok, err}
use hermes_agentic_variation.Base.Value.{Value}
use hermes_agentic_variation.Child.{Request, Lifecycle, launch}
use hermes_agentic_variation.Contracts.Identity.{Hashing}
use hermes_agentic_variation.StateMachine.{
  Status, created, running, candidate_ready, RunState, no_cost,
}
use hermes_agentic_variation.Storage.Calls.Through.{
  Through, Left-refl, bind-Through, lift-Through, pure-Through, transition-Through,
  observation-Through,
}
use hermes_agentic_variation.Storage.Runs.{transition, record_observation}
use hermes_agentic_variation.Verdict.{
  classification, verdict, best_hash, decide, conclude, last_item, is_eligible, resumed, replay,
  abandoned, abandon,
}

pub launch-Through : (h : Hashing) (l : Lifecycle) (r : Result Request) → Through h (launch h l r)
unfolding launch
launch-Through h l (ok request) db = (l.meanwhile request, refl)
launch-Through h l (err e) db = Left-refl h db

pub decide-Through :
    (h : Hashing) (run_id : String) (s : RunState) (hash : String) (eligible : Bool)
    → Through h (decide h run_id s hash eligible)
unfolding decide
decide-Through h run_id s hash eligible =
    transition-Through h run_id (verdict eligible) s.revision (best_hash eligible hash) no_cost

pub conclude-Through :
    (h : Hashing) (run_id : String) (s : RunState) (hash : String) (eligible : Bool)
    → Through h (conclude h run_id s hash eligible)
unfolding conclude
conclude-Through h run_id s hash eligible =
    bind-Through h (transition h run_id candidate_ready s.revision none no_cost) _
      (transition-Through h run_id candidate_ready s.revision none no_cost)
      (λ ready. decide-Through h run_id ready hash eligible)

resumed-Through :
    (status : Status) (h : Hashing) (run_id : String) (s : RunState) (hash : String)
    (eligible : Bool)
    → Through h (resumed status h run_id s hash eligible)
unfolding resumed
resumed-Through running h run_id s hash eligible = conclude-Through h run_id s hash eligible
resumed-Through created h run_id s hash eligible = decide-Through h run_id s hash eligible
resumed-Through _ h run_id s hash eligible = decide-Through h run_id s hash eligible

pub replay-Through :
    (h : Hashing) (run_id : String) (s : RunState) (documents : List Value × List Value)
    → Through h (replay h run_id s documents)
unfolding replay
replay-Through h run_id s documents = lift-Through h (last_item documents.0) _ (λ candidate.
    lift-Through h (last_item documents.1) _ (λ evaluation.
      resumed-Through s.status h run_id s (h.of_json candidate) (is_eligible evaluation)))

pub abandon-Through :
    (h : Hashing) (run_id : String) (s : RunState) → Through h (abandon h run_id s)
unfolding abandon
abandon-Through h run_id s =
    bind-Through h (transition h run_id (abandoned s.status).0 s.revision none no_cost) _
      (transition-Through h run_id (abandoned s.status).0 s.revision none no_cost)
      (λ after.
        bind-Through h
          (record_observation h run_id (abandoned s.status).1
            (classification (abandoned s.status).2))
          _
          (observation-Through h run_id (abandoned s.status).1
            (classification (abandoned s.status).2))
          (λ _. pure-Through h after))
