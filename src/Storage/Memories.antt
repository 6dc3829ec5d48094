-- ===== src/Storage/Memories.antt =====
-- storage.py: `save_memory` and `load_memory`.
pub mod Saved
use hermes_agentic_variation.Base.{
  ℕ, suc, ◌+◌, ◌==◌, ◌&&◌, String, Bool, not, any, List, [], ◌∷◌, ◌++◌, Option, none, some, str_eq,
  if◌then◌else◌,
}
use hermes_agentic_variation.Base.Result
use hermes_agentic_variation.Base.Result.{storage_conflict, integrity_error, Result, ok, err}
use hermes_agentic_variation.Contracts.Identity.{Hashing}
use hermes_agentic_variation.Contracts.Memory
use hermes_agentic_variation.Contracts.Memory.{ContinuationMemory, memory_from_json}
use hermes_agentic_variation.Storage.Monad.{
  Action, lift, gets, run, pure, require, transact, ◌>>=◌, ◌>>◌,
}
use hermes_agentic_variation.Storage.Tables.{Memory, Database, has_run}

-- `SELECT ... FROM continuation_memory WHERE run_id = ?`
unfoldable pub find_memory : String → List Memory → Option Memory
find_memory run_id [] = none
find_memory run_id (m ∷ ms) = if str_eq m.run_id run_id then some m else find_memory run_id ms

-- The row of a memory.
unfoldable pub memory_row : Hashing → String → ContinuationMemory → Memory
memory_row h run_id m = record {
  run_id = run_id;
  memory_revision = m.memory_revision;
  memory_hash = Memory.identity h m;
  memory_json = Memory.to_dict m;
}

-- The INSERT: a new primary key, and a run to refer to.
unfoldable pub insert_memory : Memory → Database → Result Database
insert_memory row db =
    if any (λ m. str_eq m.run_id row.run_id) db.continuation_memory
    then err integrity_error
    else if has_run row.run_id db.runs
    then ok (record db { continuation_memory = db.continuation_memory ++ row ∷ [] })
    else err integrity_error

-- The UPDATE, `WHERE run_id=? AND memory_revision=?`, and its row count
abbrev pub is_current : String → ℕ → Memory → Bool
is_current run_id revision m = str_eq m.run_id run_id && m.memory_revision == revision

unfoldable pub replace_memory : ℕ → Memory → List Memory → List Memory
replace_memory revision row [] = []
replace_memory revision row (m ∷ ms) =
    (if is_current row.run_id revision m then row else m) ∷ replace_memory revision row ms

unfoldable pub memory_count : String → ℕ → List Memory → ℕ
memory_count run_id revision [] = 0
memory_count run_id revision (m ∷ ms) =
    let rest = memory_count run_id revision ms in
    if is_current run_id revision m then suc rest else rest

unfoldable pub update_memory : ℕ → Memory → Action ℕ
unfolding replace_memory memory_count
update_memory revision row db = (
  ok (memory_count row.run_id revision db.continuation_memory),
  record db { continuation_memory = replace_memory revision row db.continuation_memory },
)

abbrev pub revision_of : Option Memory → ℕ
revision_of none = 0
revision_of (some m) = m.memory_revision

unfoldable pub write_memory : Option Memory → ℕ → Memory → Action (Unit {0})
unfolding insert_memory update_memory
write_memory none revision row = run (insert_memory row)
write_memory (some m) revision row = do
  count ← update_memory revision row
  require (count == 1) (storage_conflict "memory changed during update")

-- `save_memory`
unfoldable pub save_statements : Hashing → String → ContinuationMemory → ℕ → Action (Unit {0})
unfolding find_memory write_memory memory_row
save_statements h run_id memory expected_revision = do
  row ← gets (λ db. find_memory run_id db.continuation_memory)
  require (revision_of row == expected_revision) (storage_conflict "memory revision mismatch")
  require (memory.memory_revision == revision_of row + 1)
      (storage_conflict "memory revision must increase by one")
  write_memory row expected_revision (memory_row h run_id memory)

unfoldable pub save_memory : Hashing → String → ContinuationMemory → ℕ → Action (Unit {0})
unfolding save_statements
save_memory h run_id memory expected_revision =
    transact (save_statements h run_id memory expected_revision)

-- `load_memory`
abbrev pub some_memory : Result ContinuationMemory → Result (Option ContinuationMemory)
some_memory (ok memory) = ok (some memory)
some_memory (err e) = err e

abbrev pub read_memory : Option Memory → Result (Option ContinuationMemory)
read_memory none = ok none
read_memory (some m) = some_memory (memory_from_json m.memory_json)

unfoldable pub load_memory : String → Database → Result (Option ContinuationMemory)
unfolding find_memory
load_memory run_id db = read_memory (find_memory run_id db.continuation_memory)
