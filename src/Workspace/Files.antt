-- ===== src/Workspace/Files.antt =====
-- phase3_workspace.py: the file system, the processes and the digests that the workspace uses.
use hermes_agentic_variation.Base.{
  ℕ, String, Bool, true, false, ◌||◌, str_eq, List, Option, none, ◌≡◌, if◌then◌else◌, some,
}
use hermes_agentic_variation.Base.Int.{ℤ}
use hermes_agentic_variation.Base.Result.{ok}
use hermes_agentic_variation.Contracts.Checks.{is_digest}
use hermes_agentic_variation.Effect.{Effect}

-- `pathlib` and `os.replace` on an unknown disk. A file's content is its bytes.
pub record FileSystem : Type 1 where
  pub Disk : Type 0
  pub Location : Type 0
  pub of_text : String → Location  -- `Path(text)`
  pub to_text : Location → String  -- `str(path)`
  pub name : Location → String
  pub parent : Location → Location
  pub join : Location → String → Location  -- `path / name`
  pub same : Location → Location → Bool
  pub is_link : Location → Disk → Bool
  pub is_dir : Location → Disk → Bool
  pub exists : Location → Disk → Bool
  pub resolve : Location → Disk → Location
  pub read_bytes : Location → Disk → Option (List ℕ)  -- none where it raises OSError
  pub utf8 : String → List ℕ  -- `text.encode("utf-8")`
  pub write_text : Location → String → Effect Disk (Unit {0})  -- utf-8, with "\n" as it is
  pub replace : Location → Location → Effect Disk (Unit {0})  -- `os.replace`
  pub make_dir : Location → Effect Disk (Unit {0})  -- `mkdir(parents=False, exist_ok=False)`
  pub make_dirs : Location → Effect Disk (Unit {0})  -- `mkdir(parents=True, exist_ok=True)`

-- What `subprocess.run` comes to: an exit code with the two outputs, a timeout with what was
-- written until then, or an OSError.
pub data Run : Type 0 where
  completed : ℤ → List ℕ → List ℕ → Run
  timed_out : List ℕ → List ℕ → Run
  not_started : Run

-- The two commands in a directory. That git is given with its arguments, the tests with the
-- seconds they may take. What a command does to the disk is a parameter.
pub record Processes (F : FileSystem) : Type 0 where
  pub git : F.Location → List String → F.Disk → Run × F.Disk
  pub unittest : F.Location → ℕ → F.Disk → Run × F.Disk

-- SHA-256 of bytes.
pub record Digests : Type 0 where
  pub digest : List ℕ → List ℕ
  pub hexdigest : List ℕ → String
  pub hexdigest-is_digest : (bytes : List ℕ) → is_digest (hexdigest bytes) ≡ true

-- The names that the workspace gives to its files.
abbrev pub is_name : String → Bool
is_name s =
    str_eq s "calculator.py"
    || str_eq s "test_calculator.py"
    || str_eq s ".calculator.py.phase3-new"
    || str_eq s ".test_calculator.py.phase3-new"

-- What a disk holds: the bytes of the stored file that a path leads to, none if it leads to no such
-- file; whether a path leads, its links followed, to the directory entry that another path names;
-- and the number of hard links of a file (`st_nlink`).
pub record View (F : FileSystem) : Type 0 where
  pub content : F.Location → F.Disk → Option (List ℕ)
  pub leads : F.Location → F.Location → F.Disk → Bool
  pub links : F.Location → F.Disk → ℕ

-- The disk behind the creation of a file: no link is made, and no other file changes.
pub record IsCreated (F : FileSystem) (V : View F) (p : F.Location) (text : String)
    (d after : F.Disk) : Type 0 where
  pub was_absent : V.content p d ≡ none
  pub contents :
      (q : F.Location)
      → V.content q after ≡ (if V.leads q p d then some (F.utf8 text) else V.content q d)
  pub one_link : V.links p after ≡ 1
  pub same_links : (q : F.Location) → F.is_link q after ≡ F.is_link q d
  pub same_leads : (q r : F.Location) → V.leads q r after ≡ V.leads q r d

-- What the workspace relies on. Nothing is said of a call that raises.
pub record IsLawful (F : FileSystem) (V : View F) : Type 0 where
  pub read-content :
      (p : F.Location) (d : F.Disk) (bytes : List ℕ)
      → F.read_bytes p d ≡ some bytes
      → V.content p d ≡ some bytes
  -- a name that is no link leads to its own entry, and to that of no other name
  pub leads-own :
      (p : F.Location) (name : String) (d : F.Disk)
      → is_name name ≡ true
      → F.is_link (F.join p name) d ≡ false
      → V.leads (F.join p name) (F.join p name) d ≡ true
  pub leads-other :
      (p : F.Location) (a b : String) (d : F.Disk)
      → is_name a ≡ true
      → is_name b ≡ true
      → str_eq a b ≡ false
      → F.is_link (F.join p a) d ≡ false
      → V.leads (F.join p a) (F.join p b) d ≡ false
  pub leads-content :
      (q p : F.Location) (d : F.Disk)
      → F.is_link p d ≡ false
      → V.leads q p d ≡ true
      → V.content q d ≡ V.content p d
  -- a text written to a path where nothing is makes a new file with one hard link
  pub created :
      (p : F.Location) (text : String) (d after : F.Disk)
      → F.exists p d ≡ false
      → F.is_link p d ≡ false
      → F.write_text p text d ≡ (ok tt, after)
      → IsCreated F V p text d after
  -- a file with one hard link takes another entry: there it is found, and nowhere else
  pub replaced :
      (p q r : F.Location) (d after : F.Disk) (bytes : List ℕ)
      → V.content p d ≡ some bytes
      → V.links p d ≡ 1
      → F.is_link p d ≡ false
      → F.is_link q d ≡ false
      → V.leads q p d ≡ false
      → F.replace p q d ≡ (ok tt, after)
      → V.content r after
        ≡ (if V.leads r q d then some bytes else if V.leads r p d then none else V.content r d)
