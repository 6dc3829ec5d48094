-- ===== src/Storage/Calls/Extends.antt =====
-- A later state of the ledger: rows are added, none is removed, and only a run's state and a
-- memory are ever replaced.
use hermes_agentic_variation.Base.{
  ℕ, String, Bool, true, false, List, [], ◌∷◌, ◌++◌, map, ◌≡◌, refl, sym, if◌then◌else◌,
}
use hermes_agentic_variation.Base.Value.{Value}
use hermes_agentic_variation.Storage.Runs.{is_target, update_rows}
use hermes_agentic_variation.Storage.Tables.{Run, EventRow, Document, Evaluation, Memory, Database}

abbrev pub Prefix {ℓ} : {A : Type ℓ} → List A → List A → Type ℓ
Prefix {A = A} xs ys = (zs : List A) × (ys ≡ xs ++ zs)

append_assoc {ℓ} : {A : Type ℓ} (xs ys zs : List A) → (xs ++ ys ++ zs) ≡ xs ++ (ys ++ zs)
append_assoc [] ys zs = refl
append_assoc (x ∷ xs) ys zs = rw (append_assoc xs ys zs)

append-nil {ℓ} : {A : Type ℓ} (xs : List A) → (xs ++ []) ≡ xs
append-nil [] = refl
append-nil (x ∷ xs) = rw (append-nil xs)

pub Prefix-refl {ℓ} : {A : Type ℓ} (xs : List A) → Prefix xs xs
Prefix-refl xs = ([], sym (append-nil xs))

pub Prefix-trans {ℓ} : {A : Type ℓ} (xs ys zs : List A) → Prefix xs ys → Prefix ys zs → Prefix xs zs
Prefix-trans xs ys zs (us, p) (vs, q) = (us ++ vs, rw (q, p) (append_assoc xs us vs))

-- What of a run never changes.
abbrev pub fixed : Run → String × String × Value
fixed r = (r.run_id, r.run_spec_hash, r.spec_json)

pub record Extends (db after : Database) : Type 0 where
  pub runs : Prefix (map fixed db.runs) (map fixed after.runs)
  pub run_events : Prefix db.run_events after.run_events
  pub candidates : Prefix db.candidates after.candidates
  pub evaluations : Prefix db.evaluations after.evaluations
  pub supervisor_advice : Prefix db.supervisor_advice after.supervisor_advice
  pub mutation_receipts : Prefix db.mutation_receipts after.mutation_receipts
  pub sandbox_receipts : Prefix db.sandbox_receipts after.sandbox_receipts

pub Extends-refl : (db : Database) → Extends db db
Extends-refl db = record {
  runs = Prefix-refl (map fixed db.runs);
  run_events = Prefix-refl db.run_events;
  candidates = Prefix-refl db.candidates;
  evaluations = Prefix-refl db.evaluations;
  supervisor_advice = Prefix-refl db.supervisor_advice;
  mutation_receipts = Prefix-refl db.mutation_receipts;
  sandbox_receipts = Prefix-refl db.sandbox_receipts;
}

pub Extends-trans : (a b c : Database) → Extends a b → Extends b c → Extends a c
Extends-trans a b c p q = record {
  runs = Prefix-trans _ _ _ p.runs q.runs;
  run_events = Prefix-trans _ _ _ p.run_events q.run_events;
  candidates = Prefix-trans _ _ _ p.candidates q.candidates;
  evaluations = Prefix-trans _ _ _ p.evaluations q.evaluations;
  supervisor_advice = Prefix-trans _ _ _ p.supervisor_advice q.supervisor_advice;
  mutation_receipts = Prefix-trans _ _ _ p.mutation_receipts q.mutation_receipts;
  sandbox_receipts = Prefix-trans _ _ _ p.sandbox_receipts q.sandbox_receipts;
}

pub map-append {ℓ κ} :
    {A : Type ℓ} {B : Type κ} (f : A → B) (xs ys : List A) → map f (xs ++ ys) ≡ map f xs ++ map f ys
map-append f [] ys = refl
map-append f (x ∷ xs) ys = rw (map-append f xs ys)

pub update_rows-fixed :
    (id : String) (old new : Value) (rows : List Run)
    → map fixed (update_rows id old new rows) ≡ map fixed rows
unfolding update_rows
update_rows-fixed id old new [] = refl
update_rows-fixed id old new (r ∷ rows) =
    rw (changed (is_target id old r), update_rows-fixed id old new rows)
  where
    changed : (b : Bool) → fixed (if b then record r { state_json = new } else r) ≡ fixed r
    changed true = refl
    changed false = refl

-- One table that grows, the others as they are.
module _ (db : Database) where
  pub with_runs :
      (rows : List Run)
      → Prefix (map fixed db.runs) (map fixed rows)
      → Extends db (record db { runs = rows })
  with_runs rows p =
      let e = Extends-refl db in
      record {
        runs = p;
        run_events = e.run_events;
        candidates = e.candidates;
        evaluations = e.evaluations;
        supervisor_advice = e.supervisor_advice;
        mutation_receipts = e.mutation_receipts;
        sandbox_receipts = e.sandbox_receipts;
      }

  pub with_run_events :
      (rows : List EventRow) (last : ℕ)
      → Prefix db.run_events rows
      → Extends db (record db { run_events = rows; last_event_id = last })
  with_run_events rows last p =
      let e = Extends-refl db in
      record {
        runs = e.runs;
        run_events = p;
        candidates = e.candidates;
        evaluations = e.evaluations;
        supervisor_advice = e.supervisor_advice;
        mutation_receipts = e.mutation_receipts;
        sandbox_receipts = e.sandbox_receipts;
      }

  pub with_candidates :
      (rows : List Document)
      → Prefix db.candidates rows
      → Extends db (record db { candidates = rows })
  with_candidates rows p =
      let e = Extends-refl db in
      record {
        runs = e.runs;
        run_events = e.run_events;
        candidates = p;
        evaluations = e.evaluations;
        supervisor_advice = e.supervisor_advice;
        mutation_receipts = e.mutation_receipts;
        sandbox_receipts = e.sandbox_receipts;
      }

  pub with_evaluations :
      (rows : List Evaluation)
      → Prefix db.evaluations rows
      → Extends db (record db { evaluations = rows })
  with_evaluations rows p =
      let e = Extends-refl db in
      record {
        runs = e.runs;
        run_events = e.run_events;
        candidates = e.candidates;
        evaluations = p;
        supervisor_advice = e.supervisor_advice;
        mutation_receipts = e.mutation_receipts;
        sandbox_receipts = e.sandbox_receipts;
      }

  pub with_supervisor_advice :
      (rows : List Document)
      → Prefix db.supervisor_advice rows
      → Extends db (record db { supervisor_advice = rows })
  with_supervisor_advice rows p =
      let e = Extends-refl db in
      record {
        runs = e.runs;
        run_events = e.run_events;
        candidates = e.candidates;
        evaluations = e.evaluations;
        supervisor_advice = p;
        mutation_receipts = e.mutation_receipts;
        sandbox_receipts = e.sandbox_receipts;
      }

  pub with_mutation_receipts :
      (rows : List Document)
      → Prefix db.mutation_receipts rows
      → Extends db (record db { mutation_receipts = rows })
  with_mutation_receipts rows p =
      let e = Extends-refl db in
      record {
        runs = e.runs;
        run_events = e.run_events;
        candidates = e.candidates;
        evaluations = e.evaluations;
        supervisor_advice = e.supervisor_advice;
        mutation_receipts = p;
        sandbox_receipts = e.sandbox_receipts;
      }

  pub with_sandbox_receipts :
      (rows : List Document)
      → Prefix db.sandbox_receipts rows
      → Extends db (record db { sandbox_receipts = rows })
  with_sandbox_receipts rows p =
      let e = Extends-refl db in
      record {
        runs = e.runs;
        run_events = e.run_events;
        candidates = e.candidates;
        evaluations = e.evaluations;
        supervisor_advice = e.supervisor_advice;
        mutation_receipts = e.mutation_receipts;
        sandbox_receipts = p;
      }

  pub with_memory : (rows : List Memory) → Extends db (record db { continuation_memory = rows })
  with_memory rows =
      let e = Extends-refl db in
      record {
        runs = e.runs;
        run_events = e.run_events;
        candidates = e.candidates;
        evaluations = e.evaluations;
        supervisor_advice = e.supervisor_advice;
        mutation_receipts = e.mutation_receipts;
        sandbox_receipts = e.sandbox_receipts;
      }
