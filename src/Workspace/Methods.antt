-- ===== src/Workspace/Methods.antt =====
-- phase3_workspace.py: `Phase3Workspace`.
use hermes_agentic_variation.Base.{
  ℕ, leb, ◌&&◌, String, Bool, true, false, not, ◌||◌, ◌++◌, List, [], ◌∷◌, Option, none, some,
  str_eq, hex_between, if◌then◌else◌,
}
use hermes_agentic_variation.Base.Int.{ℤ, pos}
use hermes_agentic_variation.Base.Result.{workspace_violation, os_error, Result, ok, err}
use hermes_agentic_variation.Base.Float.{int}
use hermes_agentic_variation.Base.Value.{Value, num}
use hermes_agentic_variation.Effect.{Effect, pure, lift, gets, require, raise_if, ◌>>=◌, ◌>>◌}
use hermes_agentic_variation.Patch.Lines.{append, strip_prefix}
use hermes_agentic_variation.Workspace.Files.{
  FileSystem, Run, completed, timed_out, not_started, Processes, Digests,
}

-- `_BASELINE`, `_FILTER_ODD`, `_FILTER_EVEN` and `_TEST`
abbrev baseline : String
baseline = "def sum_even(numbers):\n    return sum(numbers)\n"

abbrev filter_odd : String
filter_odd =
    "def sum_even(numbers):\n    return sum(number for number in numbers if number % 2 != 0)\n"

abbrev filter_even : String
filter_even =
    "def sum_even(numbers):\n    return sum(number for number in numbers if number % 2 == 0)\n"

abbrev test_source : String
test_source =
    "import unittest\n\nfrom calculator import sum_even\n\n\nclass CalculatorTests(unittest.TestCase):\n    def test_sums_only_even_integers(self):\n        self.assertEqual(sum_even([1, 2, 3, 4, 5, 6]), 12)\n\n    def test_empty_input(self):\n        self.assertEqual(sum_even([]), 0)\n\n\nif __name__ == \"__main__\":\n    unittest.main()\n"

-- `_MUTATIONS`
unfoldable pub mutation_source : String → Option String
mutation_source s =
    if str_eq s "baseline"
    then some baseline
    else if str_eq s "filter_odd"
    then some filter_odd
    else if str_eq s "filter_even"
    then some filter_even
    else none

-- `_ALLOWED_FILES`
abbrev pub allowed_files : List String
allowed_files = "calculator.py" ∷ "test_calculator.py" ∷ []

-- `CommandResult`, of which `argv` is fixed.
pub record CommandResult : Type 0 where
  pub exit_code : ℤ
  pub tests_passed : Bool
  pub stdout : List ℕ
  pub stderr : List ℕ

abbrev is_success : ℤ → Bool
is_success (pos ℕ.zero) = true
is_success _ = false

unfoldable pub command_result : ℤ → List ℕ → List ℕ → CommandResult
command_result exit_code stdout stderr = record {
  exit_code = exit_code;
  tests_passed = is_success exit_code;
  stdout = stdout;
  stderr = stderr;
}

module _ (F : FileSystem) where
  pub record Workspace : Type 0 where
    pub root : F.Location
    pub test_timeout_seconds : ℕ
    pub repository_prefix : String
    pub processes : Processes F
    pub digests : Digests

  -- `type(test_timeout_seconds) is int and 1 <= test_timeout_seconds <= 60`
  unfoldable pub timeout_of : Value → Result ℕ
  timeout_of (num (int (pos n))) =
      if leb 1 n && leb n 60
      then ok n
      else err (workspace_violation "test timeout must be an integer from 1 to 60")
  timeout_of _ = err (workspace_violation "test timeout must be an integer from 1 to 60")

  -- `__init__`, with what `shutil.which("git")` finds
  unfoldable pub new :
      F.Location → Value → String → Bool → Processes F → Digests → Effect F.Disk Workspace
  unfolding timeout_of
  new root timeout prefix git_found processes digests = do
    is_link ← gets (λ d. F.exists root d && F.is_link root d)
    raise_if is_link (workspace_violation "workspace root must not be a symlink")
    resolved ← gets (F.resolve root)
    seconds ← lift (timeout_of timeout)
    require (str_eq prefix "phase3" || str_eq prefix "phase4")
        (workspace_violation "repository prefix is invalid")
    require git_found (workspace_violation "git executable is required for Phase 3")
    pure (record {
      root = resolved;
      test_timeout_seconds = seconds;
      repository_prefix = prefix;
      processes = processes;
      digests = digests;
    })

  -- `re.fullmatch(rf"{prefix}-[0-9a-f]{{6,32}}", repository_id)`
  unfoldable pub is_repository_id : String → String → Bool
  unfolding append strip_prefix
  is_repository_id prefix repository_id = elim (strip_prefix (append prefix "-") repository_id) [
    | none ↦ false
    | some rest ↦ hex_between 6 32 rest
  ]

  -- `_allowed_path`
  unfoldable pub allowed_path : F.Location → String → F.Disk → Result F.Location
  allowed_path repo relative d =
      let path = F.join repo relative in
      if F.is_link path d || not (F.same (F.parent (F.resolve path d)) repo)
      then err (workspace_violation "fixture file escaped the repository")
      else ok path

  unfoldable pub allowed_paths : F.Location → List String → F.Disk → Result (Unit {0})
  unfolding allowed_path
  allowed_paths repo [] d = ok tt
  allowed_paths repo (relative ∷ more) d = elim (allowed_path repo relative d) [
    | ok path ↦ allowed_paths repo more d
    | err e ↦ err e
  ]

  -- `_write_trusted`
  unfoldable pub write_trusted : F.Location → String → String → Effect F.Disk (Unit {0})
  unfolding allowed_path append
  write_trusted repo relative content = do
    found ← gets (allowed_path repo relative)
    path ← lift found
    let temporary = F.join repo (append "." (append relative ".phase3-new"))
    taken ← gets (λ d. F.exists temporary d || F.is_link temporary d)
    raise_if taken (workspace_violation "temporary mutation path is not clean")
    F.write_text temporary content
    F.replace temporary path

  module _ (w : Workspace) where
    -- `_validate_repo`
    unfoldable pub validate_repo : F.Location → F.Disk → Result F.Location
    unfolding allowed_paths
    validate_repo repo d =
        let resolved = F.resolve repo d in
        if F.is_link repo d
        then err (workspace_violation "repository must not be a symlink")
        else if not (F.same (F.parent resolved) w.root) || not (F.is_dir (F.join resolved ".git") d)
        then err (workspace_violation "repository is outside the Phase 3 root")
        else elim (allowed_paths resolved allowed_files d) [ ok u ↦ ok resolved | err e ↦ err e ]

    -- `apply`
    unfoldable pub apply_source : F.Location → String → Option String → Effect F.Disk (List String)
    unfolding write_trusted
    apply_source resolved mutation none =
        lift (err (workspace_violation "mutation is not a supported Phase 3 enum"))
    apply_source resolved mutation (some source) =
        if str_eq mutation "baseline"
        then pure []
        else (write_trusted resolved "calculator.py" source >> pure ("calculator.py" ∷ []))

    unfoldable pub apply : F.Location → String → Effect F.Disk (List String)
    unfolding validate_repo apply_source mutation_source
    apply repo mutation = do
      found ← gets (validate_repo repo)
      resolved ← lift found
      apply_source resolved mutation (mutation_source mutation)

    -- `_run_git`
    unfoldable git_done : Run → Result (Unit {0})
    git_done (completed (pos ℕ.zero) stdout stderr) = ok tt
    git_done (completed _ stdout stderr) = err (workspace_violation "fixed git command failed")
    git_done (timed_out stdout stderr) = err (workspace_violation "fixed git command failed")
    git_done not_started = err os_error

    unfoldable pub run_git : F.Location → List String → Effect F.Disk (Unit {0})
    unfolding git_done
    run_git repo arguments d =
        let (ran, after) = w.processes.git repo arguments d in (git_done ran, after)

    -- `create`
    unfoldable pub create : String → Effect F.Disk F.Location
    unfolding is_repository_id write_trusted run_git
    create repository_id = do
      require (is_repository_id w.repository_prefix repository_id)
          (workspace_violation "repository_id is invalid")
      F.make_dirs w.root
      root_is_link ← gets (F.is_link w.root)
      raise_if root_is_link (workspace_violation "workspace root must not be a symlink")
      let repo = F.join w.root repository_id
      F.make_dir repo
      resolved ← gets (F.resolve repo)
      resolved_is_link ← gets (F.is_link resolved)
      raise_if (not (F.same (F.parent resolved) w.root) || resolved_is_link)
          (workspace_violation "repository escaped the Phase 3 root")
      write_trusted resolved "calculator.py" baseline
      write_trusted resolved "test_calculator.py" test_source
      run_git resolved ("init" ∷ "--quiet" ∷ [])
      pure resolved

    -- `evaluate`
    unfoldable pub outcome_of_run : Run → Result CommandResult
    unfolding command_result
    outcome_of_run (completed exit_code stdout stderr) = ok (command_result exit_code stdout stderr)
    outcome_of_run (timed_out stdout stderr) =
        ok (command_result (pos 124) stdout (stderr ++ F.utf8 "\nPHASE3_TEST_TIMEOUT"))
    outcome_of_run not_started = err os_error

    unfoldable pub run_tests : F.Location → Effect F.Disk CommandResult
    unfolding outcome_of_run
    run_tests resolved d =
        let (ran, after) = w.processes.unittest resolved w.test_timeout_seconds d in
        (outcome_of_run ran, after)

    unfoldable pub evaluate : F.Location → Effect F.Disk CommandResult
    unfolding validate_repo run_tests
    evaluate repo = do found ← gets (validate_repo repo); resolved ← lift found; run_tests resolved

    -- `tree_hash`
    unfoldable file_bytes : F.Location → String → F.Disk → Result (List ℕ)
    unfolding allowed_path
    file_bytes resolved relative d = elim (allowed_path resolved relative d) [
      | err e ↦ err e
      | ok path ↦ elim (F.read_bytes path d) [
        | none ↦ err os_error
        | some payload ↦ ok (F.utf8 relative ++ 0 ∷ [] ++ w.digests.digest payload)
      ]
    ]

    unfoldable pub tree_bytes : F.Location → List String → F.Disk → Result (List ℕ)
    unfolding file_bytes
    tree_bytes resolved [] d = ok []
    tree_bytes resolved (relative ∷ more) d = elim (file_bytes resolved relative d) [
      | err e ↦ err e
      | ok bytes ↦ elim (tree_bytes resolved more d) [
        | err e ↦ err e
        | ok rest ↦ ok (bytes ++ rest)
      ]
    ]

    unfoldable pub tree_hash : F.Location → F.Disk → Result String
    unfolding validate_repo tree_bytes
    tree_hash repo d = elim (validate_repo repo d) [
      | err e ↦ err e
      | ok resolved ↦ elim (tree_bytes resolved allowed_files d) [
        | err e ↦ err e
        | ok bytes ↦ ok (w.digests.hexdigest bytes)
      ]
    ]
