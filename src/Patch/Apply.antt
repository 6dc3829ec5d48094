-- ===== src/Patch/Apply.antt =====
-- `ValidatedPatch.apply`: the loop over the hunk's body, on the lines of the baseline.
pub mod Hunk
pub mod Replacement
use Prim.Native.Char.{Char, code}
use hermes_agentic_variation.Base.{
  ℕ, zero, suc, ◌+◌, ◌-◌, String, Bool, false, not, ◌&&◌, ◌||◌, List, [], ◌∷◌, ◌++◌, Option, none,
  some, length, take, drop, contains, ltb, ◌==◌, str_eq, if◌then◌else◌,
}
use hermes_agentic_variation.Base.Result.{
  index_error, patch_error, Result, ok, err, require, raise_if, ◌>>=◌, ◌>>◌,
}
use hermes_agentic_variation.Base.Value.{Value, str}
use hermes_agentic_variation.Patch.Lines.{splitlines, join_lines, ends_with_newline}
use hermes_agentic_variation.Patch.Parse.{ValidatedPatch}

-- The variables of the loop.
pub record Progress : Type 0 where
  pub source_index : ℕ
  pub output : List String
  pub old_seen : ℕ
  pub new_seen : ℕ

abbrev pub get_elem? {ℓ} : {A : Type ℓ} → List A → ℕ → Option A
get_elem? [] i = none
get_elem? (x ∷ xs) zero = some x
get_elem? (x ∷ xs) (suc i) = get_elem? xs i

-- The prefixes " " and "-": the line must be the next one of the baseline.
unfoldable pub is_old : Char → Bool
is_old c = code c == b' ' || code c == b'-'

-- The prefixes " " and "+": the line is put out.
unfoldable pub is_new : Char → Bool
is_new c = code c == b' ' || code c == b'+'

abbrev pub matches : Option String → String → Bool
matches none content = false
matches (some line) content = str_eq line content

unfoldable pub take_old : List String → String → Progress → Result Progress
take_old source content p = do
  require (matches (get_elem? source p.source_index) content)
      (patch_error "patch context does not match the baseline")
  ok (record p { source_index = p.source_index + 1; old_seen = p.old_seen + 1 })

abbrev pub put_new : String → Progress → Progress
put_new content p = record p { output = p.output ++ content ∷ []; new_seen = p.new_seen + 1 }

-- One round of the loop.
unfoldable pub apply_line : List String → String → Progress → Result Progress
unfolding take_old is_old is_new
apply_line source String.[] p = err index_error
apply_line source (String.◌∷◌ prefix content) p = do
  q ← (if is_old prefix then take_old source content p else ok p)
  ok (if is_new prefix then put_new content q else q)

unfoldable pub apply_body : List String → List String → Progress → Result Progress
apply_body source [] p = ok p
apply_body source (line ∷ body) p = do q ← apply_line source line p; apply_body source body q

-- The variables before the loop. `parse` has made the start positive.
abbrev pub initial : ValidatedPatch → List String → Progress
initial patch source =
    let start = patch.old_start - 1 in
    record { source_index = start; output = take start source; old_seen = 0; new_seen = 0 }

-- The checks behind the loop, and the rest of the baseline.
unfoldable pub finish : ValidatedPatch → List String → Progress → Result (List String)
finish patch source p = do
  require (p.old_seen == patch.old_count && p.new_seen == patch.new_count)
      (patch_error "hunk line counts do not match its header")
  require (length p.output - p.new_seen + 1 == patch.new_start)
      (patch_error "new hunk start does not match the output")
  ok (p.output ++ drop p.source_index source)

-- The lines of the output, from those of the baseline.
unfoldable pub apply_lines : ValidatedPatch → List String → Result (List String)
unfolding apply_body finish
apply_lines patch source = do
  raise_if (ltb (length source) (patch.old_start - 1))
      (patch_error "hunk starts outside the baseline")
  p ← apply_body source patch.body (initial patch source)
  finish patch source p

-- `ValidatedPatch.apply`
unfoldable pub apply : ValidatedPatch → Value → Result String
apply patch (str source) = do
  require (not (contains 13 source) && ends_with_newline source)
      (patch_error "baseline source must be canonical LF text")
  output ← apply_lines patch (splitlines source)
  ok (join_lines output)
apply patch _ = err (patch_error "baseline source must be canonical LF text")
