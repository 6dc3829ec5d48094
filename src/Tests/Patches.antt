-- ===== src/Tests/Patches.antt =====
-- The patch code on the patch of tests/test_phase4_patch.py.
use hermes_agentic_variation.Base.{
  String, true, false, List, [], ◌∷◌, ◌≡◌, ◌↔◌, refl, arith, contains,
}
use hermes_agentic_variation.Base.Result.{ok}
use hermes_agentic_variation.Base.Value.{str}
use hermes_agentic_variation.Patch.Lines.{
  splitlines, is_boundary, join_lines, starts_with, ends_with_newline,
}
use hermes_agentic_variation.Patch.Parse.{ValidatedPatch, hunk_header, is_body_line, parse}
use hermes_agentic_variation.Patch.Parse.Contract.{IsClosed, parse-IsClosed}
use hermes_agentic_variation.Patch.Apply.{apply_line, apply_lines, apply}
use hermes_agentic_variation.Patch.Apply.Replacement.{Replaces, apply_lines_iff}
use hermes_agentic_variation.Patch.Text.{apply-Replaces}

abbrev baseline : String
baseline = "def sum_even(numbers):\n    return sum(numbers)\n"

abbrev patched : String
patched =
    "def sum_even(numbers):\n    return sum(number for number in numbers if number % 2 == 0)\n"

abbrev valid_text : String
valid_text =
    "--- a/calculator.py\n+++ b/calculator.py\n@@ -1,2 +1,2 @@\n def sum_even(numbers):\n-    return sum(numbers)\n+    return sum(number for number in numbers if number % 2 == 0)\n"

abbrev valid : ValidatedPatch
valid = record {
  raw = valid_text;
  target_path = "calculator.py";
  old_start = 1;
  old_count = 2;
  new_start = 1;
  new_count = 2;
  body =
      " def sum_even(numbers):" ∷ "-    return sum(numbers)"
      ∷ "+    return sum(number for number in numbers if number % 2 == 0)" ∷ [];
}

parses : parse (str valid_text) ≡ ok valid
unfolding parse contains splitlines is_boundary ends_with_newline starts_with hunk_header
    is_body_line
parses = refl

-- test_valid_patch_applies_exactly_one_existing_file
applies : apply valid (str baseline) ≡ ok patched
unfolding apply apply_line apply_lines splitlines is_boundary join_lines contains ends_with_newline
applies = refl

parse-IsClosed_example : IsClosed valid
parse-IsClosed_example = parse-IsClosed (str valid_text) valid parses

abbrev baseline_lines : List String
baseline_lines = "def sum_even(numbers):" ∷ "    return sum(numbers)" ∷ []

abbrev patched_lines : List String
patched_lines =
    "def sum_even(numbers):" ∷ "    return sum(number for number in numbers if number % 2 == 0)"
    ∷ []

apply_lines_iff_example :
    (apply_lines valid baseline_lines ≡ ok patched_lines)
    ↔ Replaces valid baseline_lines patched_lines
unfolding is_body_line
apply_lines_iff_example = apply_lines_iff valid baseline_lines patched_lines (omega arith) refl

apply-Replaces_example :
    (contains 13 baseline ≡ false)
    × (ends_with_newline baseline ≡ true)
    × Replaces valid (splitlines baseline) (splitlines patched)
apply-Replaces_example = apply-Replaces (str valid_text) valid baseline patched parses applies

-- A form feed ends a line for `splitlines`, and `apply` puts out a newline in its place, also in a
-- line behind the hunk.
form_feed_lost :
    apply valid (str "def sum_even(numbers):\n    return sum(numbers)\n# a\u{c}b\n")
    ≡ ok
        "def sum_even(numbers):\n    return sum(number for number in numbers if number % 2 == 0)\n# a\nb\n"
unfolding apply apply_line apply_lines splitlines is_boundary join_lines contains ends_with_newline
form_feed_lost = refl
