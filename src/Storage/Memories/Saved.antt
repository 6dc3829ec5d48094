-- ===== src/Storage/Memories/Saved.antt =====
-- What `save_memory` leaves for `load_memory`.
use hermes_agentic_variation.Base.{
  ℕ, ◌+◌, ◌==◌, String, Bool, true, false, List, [], ◌∷◌, ◌++◌, Option, none, some, ◌≡◌, ◌≢◌, refl,
  sym, inl, inr, any, str_eq, eq_iff, Bool-cases, arith,
}
use hermes_agentic_variation.Base.Result
use hermes_agentic_variation.Base.Result.{
  storage_conflict, integrity_error, Result, ok, err, require-ok, ok-injective,
}
use hermes_agentic_variation.Contracts.Identity.{Hashing}
use hermes_agentic_variation.Contracts.Memory
use hermes_agentic_variation.Contracts.Memory.{MemoryArgs, ContinuationMemory, memory_from_json}
use hermes_agentic_variation.Contracts.Memory.RoundTrip.{memory_round_trip}
use hermes_agentic_variation.Storage.Memories.{
  find_memory, memory_row, insert_memory, is_current, replace_memory, memory_count, update_memory,
  revision_of, write_memory, save_statements, save_memory, some_memory, load_memory,
}
use hermes_agentic_variation.Storage.Monad.{require, transact-ok, lift-ok, run-ok}
use hermes_agentic_variation.Storage.Rows.{other-eq}
use hermes_agentic_variation.Storage.Tables.{Memory, Database, has_run}

find_memory-append :
    (id : String) (ms : List Memory) (row : Memory)
    → find_memory id ms ≡ none
    → row.run_id ≡ id
    → find_memory id (ms ++ row ∷ []) ≡ some row
unfolding find_memory
find_memory-append id [] row h e = rw ((eq_iff row.run_id id).1 e)
find_memory-append id (m ∷ ms) row h e = elim (Bool-cases (str_eq m.run_id id)) [
  | inl q ↦ let p : some m ≡ none = rw (sym h, q) in cc
  | inr q ↦
      let p : find_memory id ms ≡ none = rw (sym h, q) in rw (q, find_memory-append id ms row p e)
]

find_memory-append-other :
    (id : String) (ms : List Memory) (row : Memory)
    → id ≢ row.run_id
    → find_memory id (ms ++ row ∷ []) ≡ find_memory id ms
unfolding find_memory
find_memory-append-other id [] row ne = rw (other-eq row.run_id id (λ q. ne (sym q)))
find_memory-append-other id (m ∷ ms) row ne = rw (find_memory-append-other id ms row ne)

find_memory-replace :
    (ms : List Memory) (m row : Memory)
    → find_memory row.run_id ms ≡ some m
    → find_memory row.run_id (replace_memory m.memory_revision row ms) ≡ some row
unfolding find_memory replace_memory
find_memory-replace [] m row h = cc
find_memory-replace (x ∷ xs) m row h = elim (Bool-cases (str_eq x.run_id row.run_id)) [
  | inl q ↦
      let p : some x ≡ some m = rw (sym h, q) in
      let same : x ≡ m = cc in
      let t : is_current row.run_id m.memory_revision x ≡ true =
        rw (q, same) (equal m.memory_revision) in
      rw (t, (eq_iff row.run_id row.run_id).1 refl)
  | inr q ↦
      let p : find_memory row.run_id xs ≡ some m = rw (sym h, q) in
      let t : is_current row.run_id m.memory_revision x ≡ false = rw q in
      rw (t, q, find_memory-replace xs m row p)
]
  where
    equal : (n : ℕ) → (n == n) ≡ true
    equal n = ground arith

find_memory-replace-other :
    (id : String) (n : ℕ) (ms : List Memory) (row : Memory)
    → id ≢ row.run_id
    → find_memory id (replace_memory n row ms) ≡ find_memory id ms
unfolding find_memory replace_memory
find_memory-replace-other id n [] row ne = refl
find_memory-replace-other id n (x ∷ xs) row ne = elim (Bool-cases (str_eq x.run_id row.run_id)) [
  | inl q ↦ elim (Bool-cases (is_current row.run_id n x)) [
    | inl t ↦
        let a : str_eq row.run_id id ≡ false = other-eq row.run_id id (λ q. ne (sym q)) in
        let b : str_eq x.run_id id ≡ false = rw ((eq_iff x.run_id row.run_id).0 q) a in
        rw (t, a, b, find_memory-replace-other id n xs row ne)
    | inr t ↦ rw (t, find_memory-replace-other id n xs row ne)
  ]
  | inr q ↦
      let t : is_current row.run_id n x ≡ false = rw q in
      rw (t, find_memory-replace-other id n xs row ne)
]

-- What the readers see of a row that is written.
record Written (row : Memory) (db after : Database) : Type 0 where
  stored : find_memory row.run_id after.continuation_memory ≡ some row
  apart :
      (other : String)
      → other ≢ row.run_id
      → find_memory other after.continuation_memory ≡ find_memory other db.continuation_memory

insert_memory-Written :
    (row : Memory) (db after : Database)
    → find_memory row.run_id db.continuation_memory ≡ none
    → insert_memory row db ≡ ok after
    → Written row db after
unfolding insert_memory
insert_memory-Written row db after f e =
    elim (Bool-cases (any (λ m. str_eq m.run_id row.run_id) db.continuation_memory)) [
      | inl d ↦
          let p : ◌≡◌ {A = Result Database} (err integrity_error) (ok after) = rw (sym e, d) in cc
      | inr d ↦ elim (Bool-cases (has_run row.run_id db.runs)) [
        | inl r ↦
            let p : ◌≡◌ {A = Result Database}
                (ok (record db { continuation_memory = db.continuation_memory ++ row ∷ [] }))
                (ok after) =
              rw (sym e, d, r) in
            rw (sym (ok-injective _ after p)) (record {
              stored = find_memory-append row.run_id db.continuation_memory row f refl;
              apart = find_memory-append-other' row db.continuation_memory;
            })
        | inr r ↦
            let p : ◌≡◌ {A = Result Database} (err integrity_error) (ok after) = rw (sym e, d, r) in
            cc
      ]
    ]
  where
    find_memory-append-other' :
        (row : Memory) (ms : List Memory) (other : String)
        → other ≢ row.run_id
        → find_memory other (ms ++ row ∷ []) ≡ find_memory other ms
    find_memory-append-other' row ms other ne = find_memory-append-other other ms row ne

write_memory-Written :
    (o : Option Memory) (row : Memory) (db : Database) (u : Unit {0}) (after : Database)
    → find_memory row.run_id db.continuation_memory ≡ o
    → write_memory o (revision_of o) row db ≡ (ok u, after)
    → Written row db after
unfolding write_memory update_memory
write_memory-Written none row db u after f e =
    insert_memory-Written row db after f (run-ok (insert_memory row) db e)
write_memory-Written (some m) row db u after f e =
    let replaced : Database = record db {
      continuation_memory = replace_memory m.memory_revision row db.continuation_memory;
    } in
    let w : Written row db replaced = record {
      stored = find_memory-replace db.continuation_memory m row f;
      apart = λ other ne.
          find_memory-replace-other other m.memory_revision db.continuation_memory row ne;
    } in
    unchanged (memory_count row.run_id m.memory_revision db.continuation_memory == 1) replaced e w
  where
    unchanged :
        (b : Bool) (d : Database)
        → require b (storage_conflict "memory changed during update") d ≡ (ok u, after)
        → Written row db d
        → Written row db after
    unchanged true d q w = let same : d ≡ after = cc in rw (sym same) w
    unchanged false d q w = cc

load_memory-row :
    (h : Hashing) (run_id : String) (memory : ContinuationMemory) (db : Database)
    → find_memory run_id db.continuation_memory ≡ some (memory_row h run_id memory)
    → memory_from_json (Memory.to_dict memory) ≡ ok memory
    → load_memory run_id db ≡ ok (some memory)
unfolding load_memory memory_row
load_memory-row h run_id memory db f r =
    let p : some_memory (memory_from_json (Memory.to_dict memory)) ≡ ok (some memory) = rw r in
    rw f p

load_memory-same :
    (run_id : String) (db after : Database)
    → find_memory run_id after.continuation_memory ≡ find_memory run_id db.continuation_memory
    → load_memory run_id after ≡ load_memory run_id db
unfolding load_memory
load_memory-same run_id db after f = rw f

-- What `save_memory` promises.
pub record Saved (run_id : String) (memory : ContinuationMemory) (expected : ℕ)
    (db after : Database) : Type 0 where
  pub current : revision_of (find_memory run_id db.continuation_memory) ≡ expected
  pub next : memory.memory_revision ≡ expected + 1
  pub loaded : load_memory run_id after ≡ ok (some memory)
  pub others : (other : String) → other ≢ run_id → load_memory other after ≡ load_memory other db

-- A memory that its constructor accepted and that was saved was saved over the expected revision and has the next one; `load_memory`
-- gives it back as it was, and gives for every other run what it gave before.
pub save_memory-Saved :
    (h : Hashing) (run_id : String) (a : MemoryArgs) (memory : ContinuationMemory) (expected : ℕ)
    (db : Database) (u : Unit {0}) (after : Database)
    → Memory.new a ≡ ok memory
    → save_memory h run_id memory expected db ≡ (ok u, after)
    → Saved run_id memory expected db after
unfolding save_memory save_statements memory_row
save_memory-Saved h run_id a memory expected db u after made e =
    let e0 = transact-ok (save_statements h run_id memory expected) db e in
    let (_, q1, e1) =
      lift-ok
        (Result.require (revision_of (find_memory run_id db.continuation_memory) == expected)
          (storage_conflict "memory revision mismatch"))
        _ db e0 in
    let (_, q2, e2) =
      lift-ok
        (Result.require
          (memory.memory_revision == revision_of (find_memory run_id db.continuation_memory) + 1)
          (storage_conflict "memory revision must increase by one"))
        _ db e1 in
    let at_expected =
      equal (revision_of (find_memory run_id db.continuation_memory)) expected
        (require-ok _ _ q1) in
    let w =
      write_memory-Written (find_memory run_id db.continuation_memory) (memory_row h run_id memory)
        db u after refl
        (at_revision (find_memory run_id db.continuation_memory) expected at_expected e2) in
    record {
      current = at_expected;
      next = next_of _ _ _ at_expected (equal _ _ (require-ok _ _ q2));
      loaded = load_memory-row h run_id memory after w.stored (memory_round_trip a memory made);
      others = λ other ne. load_memory-same other db after (w.apart other ne);
    }
  where
    equal : (m n : ℕ) → (m == n) ≡ true → m ≡ n
    equal m n q = ground arith

    next_of : (m r n : ℕ) → r ≡ n → m ≡ r + 1 → m ≡ n + 1
    next_of m r n p q = omega arith

    at_revision :
        (o : Option Memory) (n : ℕ)
        → revision_of o ≡ n
        → write_memory o n (memory_row h run_id memory) db ≡ (ok u, after)
        → write_memory o (revision_of o) (memory_row h run_id memory) db ≡ (ok u, after)
    at_revision o n p q = rw p q
