-- ===== src/Tests/Disk.antt =====
-- A disk in memory, without links, for which the laws of the file system hold.
use Prim.Native.Char.{code}
use hermes_agentic_variation.Base.{
  ℕ, String, Bool, true, false, ◌&&◌, List, [], ◌∷◌, Option, none, some, str_eq, eq_iff, ◌≡◌, refl,
  sym, ap, ◌∙◌, inl, inr, Bool-cases, if◌then◌else◌,
}
use hermes_agentic_variation.Base.Logic.{and-true}
use hermes_agentic_variation.Base.Result.{Result, os_error, ok, err}
use hermes_agentic_variation.Workspace.Files.{FileSystem, View, IsLawful}

-- A location is the names from it up to the root.
abbrev Names : Type 0
Names = List String

abbrev same_names : Names → Names → Bool
same_names [] [] = true
same_names (a ∷ xs) (b ∷ ys) = str_eq a b && same_names xs ys
same_names [] (b ∷ ys) = false
same_names (a ∷ xs) [] = false

same_names_refl : (p : Names) → same_names p p ≡ true
same_names_refl [] = refl
same_names_refl (a ∷ xs) = rw ((eq_iff a a).1 refl, same_names_refl xs) refl

same_names_eq : (p q : Names) → same_names p q ≡ true → p ≡ q
same_names_eq [] [] h = refl
same_names_eq (a ∷ xs) (b ∷ ys) h =
    let (x, y) = and-true (str_eq a b) (same_names xs ys) h in
    rw ((eq_iff a b).0 x, same_names_eq xs ys y) refl
same_names_eq [] (b ∷ ys) h = cc
same_names_eq (a ∷ xs) [] h = cc

pub data Entry : Type 0 where
  absent folder : Entry
  file : List ℕ → Entry

abbrev Memory : Type 0
Memory = Names → Entry

abbrev put : Names → Entry → Memory → Memory
put p e d q = if same_names q p then e else d q

abbrev bytes_of : Entry → Option (List ℕ)
bytes_of (file bytes) = some bytes
bytes_of _ = none

abbrev is_folder : Entry → Bool
is_folder folder = true
is_folder _ = false

abbrev is_there : Entry → Bool
is_there absent = false
is_there _ = true

abbrev bytes : String → List ℕ
bytes String.[] = []
bytes (String.◌∷◌ c s) = code c ∷ bytes s

abbrev write : Names → List ℕ → Memory → Entry → Result (Unit {0}) × Memory
write p content d folder = (err os_error, d)
write p content d _ = (ok tt, put p (file content) d)

abbrev move : Names → Names → Memory → Entry → Result (Unit {0}) × Memory
move p q d (file content) = (ok tt, put q (file content) (put p absent d))
move p q d _ = (err os_error, d)

abbrev make : Names → Memory → Entry → Result (Unit {0}) × Memory
make p d absent = (ok tt, put p folder d)
make p d _ = (err os_error, d)

abbrev make_all : Names → Memory → Entry → Result (Unit {0}) × Memory
make_all p d folder = (ok tt, d)
make_all p d e = make p d e

abbrev name_of : Names → String
name_of [] = ""
name_of (s ∷ up) = s

abbrev parent_of : Names → Names
parent_of [] = []
parent_of (s ∷ up) = up

abbrev pub disk : FileSystem
disk = record {
  Disk = Memory;
  Location = Names;
  of_text = λ s. s ∷ "runs" ∷ [];
  to_text = name_of;
  name = name_of;
  parent = parent_of;
  join = λ p name. name ∷ p;
  same = same_names;
  is_link = λ p d. false;
  is_dir = λ p d. is_folder (d p);
  exists = λ p d. is_there (d p);
  resolve = λ p d. p;
  read_bytes = λ p d. bytes_of (d p);
  utf8 = bytes;
  write_text = λ p s d. write p (bytes s) d (d p);
  replace = λ p q d. move p q d (d p);
  make_dir = λ p d. make p d (d p);
  make_dirs = λ p d. make_all p d (d p);
}

read-put :
    (p q : Names) (e : Entry) (d : Memory)
    → bytes_of (put p e d q) ≡ (if same_names q p then bytes_of e else bytes_of (d q))
read-put p q e d = elim (Bool-cases (same_names q p)) [ inl k ↦ rw k refl | inr k ↦ rw k refl ]

write-written :
    (p : Names) (content : List ℕ) (d after : Memory) (e : Entry)
    → write p content d e ≡ (ok tt, after)
    → put p (file content) d ≡ after
write-written p content d after absent h = ap (λ x. x.1) h
write-written p content d after (file old) h = ap (λ x. x.1) h
write-written p content d after folder h = cc

move-read :
    (p q r : Names) (d after : Memory) (e : Entry)
    → move p q d e ≡ (ok tt, after)
    → bytes_of (after r)
      ≡ (if same_names r q then bytes_of e else if same_names r p then none else bytes_of (d r))
move-read p q r d after absent h = cc
move-read p q r d after folder h = cc
move-read p q r d after (file content) h =
    ap (λ x. bytes_of (x.1 r)) (sym h)
    ∙ read-put q r (file content) (put p absent d)
    ∙ ap (λ x. if same_names r q then some content else x) (read-put p r absent d)

absent_read : (e : Entry) → is_there e ≡ false → bytes_of e ≡ none
absent_read absent h = refl
absent_read folder h = refl
absent_read (file content) h = cc

other_name : (p : Names) (a b : String) → str_eq a b ≡ false → same_names (a ∷ p) (b ∷ p) ≡ false
other_name p a b h = rw h refl

-- No link and no second hard link: a path leads to the entry that it names.
abbrev pub view : View disk
view = record { content = λ p d. bytes_of (d p); leads = λ q p d. same_names q p; links = λ p d. 1 }

pub disk-IsLawful : IsLawful disk view
disk-IsLawful = record {
  read-content = λ p d content h. h;
  leads-own = λ p name d _ _. same_names_refl (name ∷ p);
  leads-other = λ p a b d _ _ h _. other_name p a b h;
  leads-content = λ q p d _ h. ap (λ x. bytes_of (d x)) (same_names_eq q p h);
  created = λ p text d after absent _ h. record {
    was_absent = absent_read (d p) absent;
    contents = λ q.
        ap (λ x. bytes_of (x q)) (sym (write-written p (bytes text) d after (d p) h))
        ∙ read-put p q (file (bytes text)) d;
    one_link = refl;
    same_links = λ q. refl;
    same_leads = λ q r. refl;
  };
  replaced = λ p q r d after content h _ _ _ _ e.
      move-read p q r d after (d p) e
      ∙ ap (λ x. if same_names r q then x else if same_names r p then none else bytes_of (d r)) h;
}

-- A disk with the directory of the runs, and one repository in it.
abbrev pub empty_disk : Memory
empty_disk = put ("runs" ∷ []) folder (λ p. absent)

abbrev pub repository : String → Memory
repository id = put ("test_calculator.py" ∷ id ∷ "runs" ∷ []) (file (1 ∷ [])) (
    put ("calculator.py" ∷ id ∷ "runs" ∷ []) (file (2 ∷ []))
      (put (".git" ∷ id ∷ "runs" ∷ []) folder (put (id ∷ "runs" ∷ []) folder empty_disk)))
