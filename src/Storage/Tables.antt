-- ===== src/Storage/Tables.antt =====
-- storage.py: the tables of `_initialize`, each a list of its rows in the order of `rowid`, and
-- the statements that the methods run on them.
use hermes_agentic_variation.Base.{
  ℕ, suc, String, Bool, not, List, [], ◌∷◌, ◌++◌, Option, none, some, any, str_eq, if◌then◌else◌,
}
use hermes_agentic_variation.Base.Result.{integrity_error, Result, ok, require, ◌>>=◌, ◌>>◌}
use hermes_agentic_variation.Base.Value.{Value}

-- A row of `runs`. A JSON column holds the document that its text encodes.
pub record Run : Type 0 where
  pub run_id : String
  pub run_spec_hash : String
  pub spec_json : Value
  pub state_json : Value

-- A row of `run_events`.
pub record EventRow : Type 0 where
  pub id : ℕ
  pub run_id : String
  pub event : String
  pub revision : ℕ
  pub state_hash : String
  pub payload : Value

-- A row of `candidates`, `supervisor_advice`, `mutation_receipts` or `sandbox_receipts`.
pub record Document : Type 0 where
  pub key : String
  pub run_id : String
  pub body : Value

-- A row of `evaluations`.
pub record Evaluation : Type 0 where
  pub key : String
  pub run_id : String
  pub candidate_hash : String
  pub body : Value

-- A row of `continuation_memory`.
pub record Memory : Type 0 where
  pub run_id : String
  pub memory_revision : ℕ
  pub memory_hash : String
  pub memory_json : Value

-- `last_event_id` is the sequence of AUTOINCREMENT; `schema_version` the row of that key.
pub record Database : Type 0 where
  pub schema_version : Option ℕ
  pub runs : List Run
  pub run_events : List EventRow
  pub last_event_id : ℕ
  pub candidates : List Document
  pub evaluations : List Evaluation
  pub continuation_memory : List Memory
  pub supervisor_advice : List Document
  pub mutation_receipts : List Document
  pub sandbox_receipts : List Document

-- `_initialize` on a new file.
abbrev pub initial : Database
initial = record {
  schema_version = some 5;
  runs = [];
  run_events = [];
  last_event_id = 0;
  candidates = [];
  evaluations = [];
  continuation_memory = [];
  supervisor_advice = [];
  mutation_receipts = [];
  sandbox_receipts = [];
}

-- `SELECT ... FROM runs WHERE run_id = ?`
unfoldable pub find_run : String → List Run → Option Run
find_run run_id [] = none
find_run run_id (r ∷ rs) = if str_eq r.run_id run_id then some r else find_run run_id rs

abbrev pub has_run : String → List Run → Bool
has_run run_id rs = any (λ r. str_eq r.run_id run_id) rs

-- PRIMARY KEY of `runs`.
unfoldable pub insert_run : Run → Database → Result Database
insert_run r db = do
  require (not (has_run r.run_id db.runs)) integrity_error
  ok (record db { runs = db.runs ++ r ∷ [] })

-- The row of `run_events` refers to its run.
unfoldable pub insert_event : String → String → ℕ → String → Value → Database → Result Database
insert_event run_id event revision state_hash payload db = do
  require (has_run run_id db.runs) integrity_error
  ok (record db {
    run_events =
        db.run_events
        ++ record {
          id = suc db.last_event_id;
          run_id = run_id;
          event = event;
          revision = revision;
          state_hash = state_hash;
          payload = payload;
        }
          ∷ [];
    last_event_id = suc db.last_event_id;
  })

-- The rows of a table whose rows refer to their run.
unfoldable pub insert_document : List Run → Document → List Document → Result (List Document)
insert_document runs d table = do
  require (not (any (λ x. str_eq x.key d.key) table)) integrity_error
  require (has_run d.run_id runs) integrity_error
  ok (table ++ d ∷ [])

unfoldable pub insert_candidate : Document → Database → Result Database
unfolding insert_document
insert_candidate d db = do
  table ← insert_document db.runs d db.candidates
  ok (record db { candidates = table })

unfoldable pub insert_evaluation : Evaluation → Database → Result Database
insert_evaluation e db = do
  require (not (any (λ x. str_eq x.key e.key) db.evaluations)) integrity_error
  require (has_run e.run_id db.runs) integrity_error
  require (any (λ c. str_eq c.key e.candidate_hash) db.candidates) integrity_error
  ok (record db { evaluations = db.evaluations ++ e ∷ [] })

unfoldable pub insert_advice : Document → Database → Result Database
unfolding insert_document
insert_advice d db = do
  table ← insert_document db.runs d db.supervisor_advice
  ok (record db { supervisor_advice = table })

unfoldable pub insert_mutation_receipt : Document → Database → Result Database
unfolding insert_document
insert_mutation_receipt d db = do
  table ← insert_document db.runs d db.mutation_receipts
  ok (record db { mutation_receipts = table })

unfoldable pub insert_sandbox_receipt : Document → Database → Result Database
unfolding insert_document
insert_sandbox_receipt d db = do
  table ← insert_document db.runs d db.sandbox_receipts
  ok (record db { sandbox_receipts = table })
