-- ===== src/Storage/Evidence.antt =====
-- storage.py: the methods of `RunStore` on candidates, evaluations, advice and receipts.
use hermes_agentic_variation.Base.{String, List, [], ◌∷◌, str_eq, if◌then◌else◌}
use hermes_agentic_variation.Base.Value.{Value}
use hermes_agentic_variation.Storage.Monad.{Action, run, transact, ◌>>◌}
use hermes_agentic_variation.Storage.Tables.{
  Document, Evaluation, Database, insert_candidate, insert_evaluation, insert_advice,
  insert_mutation_receipt, insert_sandbox_receipt,
}

-- What the store uses of a contract object: `identity` and the text of `to_dict()`.
pub record Artifact : Type 0 where
  pub identity : String
  pub document : Value

-- An evaluation also has the hash of its candidate.
pub record Evaluated : Type 0 where
  pub identity : String
  pub candidate_hash : String
  pub document : Value

abbrev pub row_of : String → Artifact → Document
row_of run_id a = record { key = a.identity; run_id = run_id; body = a.document }

abbrev pub evaluation_of : String → String → Evaluated → Evaluation
evaluation_of run_id candidate_hash e = record {
  key = e.identity;
  run_id = run_id;
  candidate_hash = candidate_hash;
  body = e.document;
}

-- `record_candidate`
unfoldable pub record_candidate : String → Artifact → Action (Unit {0})
unfolding insert_candidate
record_candidate run_id candidate = transact (run (insert_candidate (row_of run_id candidate)))

-- `record_evaluation`
unfoldable pub record_evaluation : String → Evaluated → Action (Unit {0})
unfolding insert_evaluation
record_evaluation run_id evaluation =
    transact (run (insert_evaluation (evaluation_of run_id evaluation.candidate_hash evaluation)))

-- The statements that the three attempts share.
unfoldable pub attempt_statements : String → Artifact → Evaluated → Action (Unit {0})
unfolding insert_candidate insert_evaluation
attempt_statements run_id candidate evaluation = do
  run (insert_candidate (row_of run_id candidate))
  run (insert_evaluation (evaluation_of run_id candidate.identity evaluation))

-- `record_attempt`
unfoldable pub record_attempt : String → Artifact → Evaluated → Action (Unit {0})
unfolding attempt_statements
record_attempt run_id candidate evaluation =
    transact (attempt_statements run_id candidate evaluation)

-- `record_mutation_attempt`
unfoldable pub mutation_attempt_statements :
    String → Artifact → Evaluated → Artifact → Action (Unit {0})
unfolding attempt_statements insert_mutation_receipt
mutation_attempt_statements run_id candidate evaluation receipt = do
  attempt_statements run_id candidate evaluation
  run (insert_mutation_receipt (row_of run_id receipt))

unfoldable pub record_mutation_attempt :
    String → Artifact → Evaluated → Artifact → Action (Unit {0})
unfolding mutation_attempt_statements
record_mutation_attempt run_id candidate evaluation receipt =
    transact (mutation_attempt_statements run_id candidate evaluation receipt)

-- `record_sandbox_attempt`
unfoldable pub sandbox_attempt_statements :
    String → Artifact → Evaluated → Artifact → Action (Unit {0})
unfolding attempt_statements insert_sandbox_receipt
sandbox_attempt_statements run_id candidate evaluation receipt = do
  attempt_statements run_id candidate evaluation
  run (insert_sandbox_receipt (row_of run_id receipt))

unfoldable pub record_sandbox_attempt : String → Artifact → Evaluated → Artifact → Action (Unit {0})
unfolding sandbox_attempt_statements
record_sandbox_attempt run_id candidate evaluation receipt =
    transact (sandbox_attempt_statements run_id candidate evaluation receipt)

-- `record_supervisor_advice`
unfoldable pub record_supervisor_advice : String → Artifact → Action (Unit {0})
unfolding insert_advice
record_supervisor_advice run_id advice = transact (run (insert_advice (row_of run_id advice)))

-- `record_mutation_receipt`
unfoldable pub record_mutation_receipt : String → Artifact → Action (Unit {0})
unfolding insert_mutation_receipt
record_mutation_receipt run_id receipt =
    transact (run (insert_mutation_receipt (row_of run_id receipt)))

-- `record_sandbox_receipt`
unfoldable pub record_sandbox_receipt : String → Artifact → Action (Unit {0})
unfolding insert_sandbox_receipt
record_sandbox_receipt run_id receipt =
    transact (run (insert_sandbox_receipt (row_of run_id receipt)))

-- `SELECT ... WHERE run_id = ? ORDER BY rowid`
unfoldable pub documents_of : String → List Document → List Value
documents_of run_id [] = []
documents_of run_id (d ∷ ds) =
    let rest = documents_of run_id ds in if str_eq d.run_id run_id then d.body ∷ rest else rest

unfoldable pub evaluations_of : String → List Evaluation → List Value
evaluations_of run_id [] = []
evaluations_of run_id (d ∷ ds) =
    let rest = evaluations_of run_id ds in if str_eq d.run_id run_id then d.body ∷ rest else rest

-- `supervisor_advice`, `mutation_receipts` and `sandbox_receipts`
unfoldable pub supervisor_advice : String → Database → List Value
unfolding documents_of
supervisor_advice run_id db = documents_of run_id db.supervisor_advice

unfoldable pub mutation_receipts : String → Database → List Value
unfolding documents_of
mutation_receipts run_id db = documents_of run_id db.mutation_receipts

unfoldable pub sandbox_receipts : String → Database → List Value
unfolding documents_of
sandbox_receipts run_id db = documents_of run_id db.sandbox_receipts

-- `lineage`: the candidates and the evaluations
unfoldable pub lineage : String → Database → List Value × List Value
unfolding documents_of evaluations_of
lineage run_id db = (documents_of run_id db.candidates, evaluations_of run_id db.evaluations)
