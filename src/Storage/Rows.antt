-- ===== src/Storage/Rows.antt =====
-- What the statements on `runs` and `run_events` do to what is read.
use hermes_agentic_variation.Base.{
  String, Bool, true, false, List, [], ◌∷◌, ◌++◌, some, ◌≡◌, ◌≢◌, refl, sym, inl, inr, str_eq,
  eq_iff, Bool-cases, if◌then◌else◌,
}
use hermes_agentic_variation.Base.Same.{same_refl}
use hermes_agentic_variation.Base.Value.{Value}
use hermes_agentic_variation.Storage.Reads.{events_of}
use hermes_agentic_variation.Storage.Runs.{is_target, update_rows}
use hermes_agentic_variation.Storage.Tables.{Run, EventRow, find_run}

pub other-eq : (a b : String) → a ≢ b → str_eq a b ≡ false
other-eq a b ne = elim (Bool-cases (str_eq a b)) [
  | inl e ↦ absurd (ne ((eq_iff a b).0 e))
  | inr e ↦ e
]

pub find_run-id :
    (id : String) (rows : List Run) (row : Run) → find_run id rows ≡ some row → row.run_id ≡ id
unfolding find_run
find_run-id id [] row h = cc
find_run-id id (r ∷ rows) row h = elim (Bool-cases (str_eq r.run_id id)) [
  | inl e ↦
      let same_id : r.run_id ≡ id = (eq_iff r.run_id id).0 e in
      let p : some r ≡ some row = rw (sym h, e) in cc
  | inr e ↦ let p : find_run id rows ≡ some row = rw (sym h, e) in find_run-id id rows row p
]

-- The row that was read is the one that the update finds.
pub find_run-update_rows :
    (id : String) (new : Value) (rows : List Run) (row : Run)
    → find_run id rows ≡ some row
    → find_run id (update_rows id row.state_json new rows) ≡ some (record row { state_json = new })
unfolding find_run update_rows
find_run-update_rows id new [] row h = cc
find_run-update_rows id new (r ∷ rows) row h = elim (Bool-cases (str_eq r.run_id id)) [
  | inl e ↦
      let p : some r ≡ some row = rw (sym h, e) in
      let q : r ≡ row = cc in
      let t : is_target id row.state_json r ≡ true = rw (e, q, same_refl row.state_json) in
      rw (t, e, q)
  | inr e ↦
      let p : find_run id rows ≡ some row = rw (sym h, e) in
      let t : is_target id row.state_json r ≡ false = rw e in
      rw (t, e, find_run-update_rows id new rows row p)
]

changed-id :
    (b : Bool) (r : Run) (new : Value)
    → (if b then record r { state_json = new } else r).run_id ≡ r.run_id
changed-id true r new = refl
changed-id false r new = refl

-- The rows of other runs are left alone.
pub find_run-update_rows-other :
    (id other : String) (old new : Value) (rows : List Run)
    → other ≢ id
    → find_run other (update_rows id old new rows) ≡ find_run other rows
unfolding find_run update_rows
find_run-update_rows-other id other old new [] ne = refl
find_run-update_rows-other id other old new (r ∷ rows) ne = elim (Bool-cases (str_eq r.run_id id)) [
  | inl e ↦
      let apart : str_eq r.run_id other ≡ false =
        rw ((eq_iff r.run_id id).0 e) (other-eq id other (λ q. ne (sym q))) in
      rw (changed-id (is_target id old r) r new, apart)
        (find_run-update_rows-other id other old new rows ne)
  | inr e ↦
      let t : is_target id old r ≡ false = rw e in
      rw (t, find_run-update_rows-other id other old new rows ne)
]

pub events_of-append :
    (id : String) (xs ys : List EventRow)
    → events_of id (xs ++ ys) ≡ events_of id xs ++ events_of id ys
unfolding events_of
events_of-append id [] ys = refl
events_of-append id (x ∷ xs) ys = elim (Bool-cases (str_eq x.run_id id)) [
  | inl e ↦ rw (e, events_of-append id xs ys)
  | inr e ↦ rw (e, events_of-append id xs ys)
]
