-- ===== src/Patch/Text.antt =====
-- The patch code from text to text: an accepted patch, applied to a source.
use mathlib.Core.Path.{subst}
use hermes_agentic_variation.Base.{
  ◌≤◌, String, Bool, true, false, not, ◌&&◌, List, [], ◌∷◌, ◌++◌, ◌≡◌, refl, sym, ap, ◌∙◌, length,
  length-append, all, arith, contains,
}
use hermes_agentic_variation.Base.Result.{
  patch_error, ok, require, >>=-eq-ok, ok-injective, require-ok,
}
use hermes_agentic_variation.Base.Value.{Value, str}
use hermes_agentic_variation.Patch.Lines.{splitlines, join_lines, ends_with_newline, is_line}
use hermes_agentic_variation.Patch.Lines.RoundTrip.{splitlines-is_line, splitlines-join_lines}
use hermes_agentic_variation.Patch.Parse.{ValidatedPatch, parse}
use hermes_agentic_variation.Patch.Parse.Contract.{IsClosed, parse-IsClosed}
use hermes_agentic_variation.Patch.Apply.{apply_lines, apply}
use hermes_agentic_variation.Patch.Apply.Hunk.{old_lines, new_of, new_lines}
use hermes_agentic_variation.Patch.Apply.Replacement.{Replaces, apply_lines_iff}

all-append : (xs ys : List String) → all is_line (xs ++ ys) ≡ (all is_line xs && all is_line ys)
all-append [] ys = refl
all-append (x ∷ xs) ys = ground (arith, all-append xs ys)

new_of-is_line : (l : String) → is_line l ≡ true → all is_line (new_of l) ≡ true
unfolding new_of
new_of-is_line String.[] h = refl
new_of-is_line (String.◌∷◌ c l) h = ground arith

new_lines-is_line :
    (body : List String) → all is_line body ≡ true → all is_line (new_lines body) ≡ true
unfolding new_lines
new_lines-is_line [] h = refl
new_lines-is_line (l ∷ body) h =
    ground (arith, all-append (new_of l) (new_lines body), new_of-is_line l, new_lines-is_line body)

join_split :
    (ls : List String) → 1 ≤ length ls → all is_line ls ≡ true → splitlines (join_lines ls) ≡ ls
join_split [] h a = elim h [ ]
join_split (l ∷ ls) h a = splitlines-join_lines l ls a

-- The output of a replacement consists of lines, and there is one.
output_lines :
    (p : ValidatedPatch) (source out : List String)
    → all is_line source ≡ true
    → all is_line p.body ≡ true
    → 1 ≤ p.new_count
    → Replaces p source out
    → (all is_line out ≡ true) × (1 ≤ length out)
output_lines p source out a b one r =
    let old = old_lines p.body in
    let new = new_lines p.body in
    let split = all-append r.pre (old ++ r.post) in
    let rest = all-append old r.post in
    let whole : (all is_line r.pre && all is_line (old ++ r.post)) ≡ true =
      sym split ∙ ap (all is_line) (sym r.source_eq) ∙ a in
    (
      ap (all is_line) r.output_eq
          ∙ all-append r.pre (new ++ r.post)
          ∙ ground (arith, rest, all-append new r.post, new_lines-is_line p.body b),
      omega (
        arith,
        ap length r.output_eq,
        length-append r.pre (new ++ r.post),
        length-append new r.post,
        r.new_counted,
      ),
    )

last : (d a b c : Bool) → (a && (b && (c && d))) ≡ true → d ≡ true
last d a b c h = ground arith

source_checks : (a b : Bool) → (not a && b) ≡ true → (a ≡ false) × (b ≡ true)
source_checks a b h = ground arith

apply-ok :
    (p : ValidatedPatch) (source out : String)
    → apply p (str source) ≡ ok out
    → (lines : List String) × (contains 13 source ≡ false)
      × (ends_with_newline source ≡ true)
      × (apply_lines p (splitlines source) ≡ ok lines)
      × (join_lines lines ≡ out)
unfolding apply
apply-ok p source out e =
    let (_, canonical, e1) =
      >>=-eq-ok
        (require (not (contains 13 source) && ends_with_newline source)
          (patch_error "baseline source must be canonical LF text"))
        _ e in
    let (lines, applied, e2) =
      >>=-eq-ok (apply_lines p (splitlines source)) (λ output. ok (join_lines output)) e1 in
    let (a, b) = source_checks _ _ (require-ok _ _ canonical) in
    (lines, a, b, applied, ok-injective _ _ e2)

-- The lines of the body stand in the patch's text.
body-is_line : (p : ValidatedPatch) → IsClosed p → all is_line p.body ≡ true
body-is_line p c =
    behind_header c.header_line p.body
      (ap (all is_line) (sym c.raw_lines) ∙ splitlines-is_line p.raw)
  where
    behind_header :
        (h : String) (body : List String)
        → all is_line ("--- a/calculator.py" ∷ "+++ b/calculator.py" ∷ h ∷ body) ≡ true
        → all is_line body ≡ true
    behind_header h body e =
        last (all is_line body) (is_line "--- a/calculator.py") (is_line "+++ b/calculator.py")
          (is_line h) e

-- When an accepted patch is applied to a source and gives an output, the lines of the output are
-- the lines of the source with the patch's old lines, found at the header's line, replaced by its
-- new lines; the source has no carriage return and ends with a newline.
pub apply-Replaces :
    (payload : Value) (p : ValidatedPatch) (source out : String)
    → parse payload ≡ ok p
    → apply p (str source) ≡ ok out
    → (contains 13 source ≡ false)
      × (ends_with_newline source ≡ true)
      × Replaces p (splitlines source) (splitlines out)
apply-Replaces payload p source out parsed e =
    let c = parse-IsClosed payload p parsed in
    let (lines, no_cr, newline, applied, joined) = apply-ok p source out e in
    let r = (apply_lines_iff p (splitlines source) lines c.positive.0 c.body_lines).0 applied in
    let (are_lines, one) =
      output_lines p (splitlines source) lines (splitlines-is_line source) (body-is_line p c)
        c.positive.3 r in
    let split : splitlines out ≡ lines =
      ap splitlines (sym joined) ∙ join_split lines one are_lines in
    (no_cr, newline, subst (Replaces p (splitlines source)) (sym split) r)
