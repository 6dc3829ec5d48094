-- ===== src/Tests/Executable.antt =====
-- The workspace and the controller of Phase 3 on a disk in memory.
use hermes_agentic_variation.Base.{String, true, false, List, [], ◌∷◌, ◌≡◌, refl}
use hermes_agentic_variation.Base.Int.{pos}
use hermes_agentic_variation.Base.Result.{ok}
use hermes_agentic_variation.Tests.Disk.{disk, view, disk-IsLawful, repository}
use hermes_agentic_variation.Tests.Samples.{hex_a, hex_a_digest}
use hermes_agentic_variation.Workspace.Confined.{Patched, apply-Patched}
use hermes_agentic_variation.Workspace.Files.{completed}
use hermes_agentic_variation.Workspace.Methods.{Workspace, apply}

-- git makes its directory, and the tests pass.
abbrev pub workspace : Workspace disk
workspace = record {
  root = "runs" ∷ [];
  test_timeout_seconds = 20;
  repository_prefix = "phase3";
  processes = record {
    git = λ repo arguments d. (completed (pos 0) [] [], (disk.make_dir (".git" ∷ repo) d).1);
    unittest = λ repo seconds d. (completed (pos 0) [] [], d);
  };
  digests = record {
    digest = λ b. b;
    hexdigest = λ b. hex_a;
    hexdigest-is_digest = λ b. hex_a_digest;
  };
}

abbrev repo : List String
repo = disk.of_text "phase3-012345"

applied : apply disk workspace repo "filter_even" (repository "phase3-012345") ≡ (
  ok ("calculator.py" ∷ []),
  (apply disk workspace repo "filter_even" (repository "phase3-012345")).1,
)
unfolding apply
applied = refl

apply-Patched_example :
    (disk.is_link repo (repository "phase3-012345") ≡ false)
    × (disk.same (disk.parent (disk.resolve repo (repository "phase3-012345"))) workspace.root
        ≡ true)
    × (disk.is_dir
          (disk.join (disk.resolve repo (repository "phase3-012345")) ".git")
          (repository "phase3-012345")
        ≡ true)
    × Patched disk view
        (disk.resolve repo (repository "phase3-012345"))
        "filter_even"
        ("calculator.py" ∷ [])
        (repository "phase3-012345")
        (apply disk workspace repo "filter_even" (repository "phase3-012345")).1
apply-Patched_example =
    apply-Patched disk view disk-IsLawful workspace repo "filter_even" (repository "phase3-012345")
      (apply disk workspace repo "filter_even" (repository "phase3-012345")).1
      ("calculator.py" ∷ []) applied
