-- ===== src/Patch/Apply/Replacement.antt =====
-- `apply` replaces the hunk's old lines by its new lines, at the line that the header names.
use mathlib.Core.List.{append_assoc}
use mathlib.Core.Path.{ap₂}
use hermes_agentic_variation.Base.{
  ◌+◌, ◌-◌, ◌≤◌, String, true, false, List, ◌++◌, ◌≡◌, ◌↔◌, sym, ap, ◌∙◌, length, length-append,
  length-take, take, drop, take-append, drop-append, take-append-drop, all, arith, ltb,
}
use hermes_agentic_variation.Base.Result.{patch_error, raise_if, ok, >>=-eq-ok, raise_if-ok}
use hermes_agentic_variation.Patch.Parse.{ValidatedPatch, is_body_line}
use hermes_agentic_variation.Patch.Apply.{Progress, initial, finish, apply_body, apply_lines}
use hermes_agentic_variation.Patch.Apply.Hunk.{
  old_lines, new_lines, apply_body-Moved, apply_body_total,
}

-- `out` is `source` with the patch's old lines, found at the line that its header names, replaced
-- by its new lines.
pub record Replaces (patch : ValidatedPatch) (source out : List String) : Type 0 where
  pub pre : List String
  pub post : List String
  pub source_eq : source ≡ pre ++ (old_lines patch.body ++ post)
  pub output_eq : out ≡ pre ++ (new_lines patch.body ++ post)
  pub starts : length pre + 1 ≡ patch.old_start
  pub old_counted : length (old_lines patch.body) ≡ patch.old_count
  pub new_counted : length (new_lines patch.body) ≡ patch.new_count
  pub same_start : patch.new_start ≡ patch.old_start

module _ (patch : ValidatedPatch) (source out : List String) where
  finish-ok :
      (p : Progress)
      → finish patch source p ≡ ok out
      → (p.old_seen ≡ patch.old_count)
        × (p.new_seen ≡ patch.new_count)
        × (length p.output - p.new_seen + 1 ≡ patch.new_start)
        × (out ≡ p.output ++ drop p.source_index source)
  unfolding finish
  finish-ok p h = ground arith

  finish_total :
      (p : Progress)
      → p.old_seen ≡ patch.old_count
      → p.new_seen ≡ patch.new_count
      → length p.output - p.new_seen + 1 ≡ patch.new_start
      → out ≡ p.output ++ drop p.source_index source
      → finish patch source p ≡ ok out
  unfolding finish
  finish_total p a b c d = ground arith

  apply_lines-ok :
      apply_lines patch source ≡ ok out
      → (q : Progress) × (patch.old_start - 1 ≤ length source)
        × (apply_body source patch.body (initial patch source) ≡ ok q)
        × (finish patch source q ≡ ok out)
  unfolding apply_lines
  apply_lines-ok h =
      let outside = ltb (length source) (patch.old_start - 1) in
      let (_, inside, h1) =
        >>=-eq-ok (raise_if outside (patch_error "hunk starts outside the baseline")) _ h in
      let (q, run, h2) =
        >>=-eq-ok (apply_body source patch.body (initial patch source)) (finish patch source) h1 in
      let fits = raise_if-ok outside _ inside in (q, ground arith, run, h2)

  apply_lines-Replaces :
      1 ≤ patch.old_start → apply_lines patch source ≡ ok out → Replaces patch source out
  apply_lines-Replaces start_pos h =
      let (q, fits, run, h2) = apply_lines-ok h in
      let start = patch.old_start - 1 in
      let m = apply_body-Moved source patch.body (initial patch source) q run in
      let (old_count, new_count, new_start, out_eq) = finish-ok q h2 in
      let before = length-take start source fits in
      record {
        pre = take start source;
        post = drop q.source_index source;
        source_eq =
            sym (take-append-drop start source) ∙ ap (λ xs. take start source ++ xs) m.taken;
        output_eq =
            out_eq
            ∙ ap (λ xs. xs ++ drop q.source_index source) m.output
            ∙ append_assoc (take start source) (new_lines patch.body) _;
        starts = omega (arith, before);
        old_counted = omega (arith, m.old_seen);
        new_counted = omega (arith, m.new_seen);
        same_start = omega (
          arith,
          before,
          m.new_seen,
          ap length m.output,
          length-append (take start source) (new_lines patch.body),
        );
      }

  -- Conversely, a hunk of well-formed lines that can be replaced is.
  Replaces-apply_lines :
      all is_body_line patch.body ≡ true
      → Replaces patch source out
      → apply_lines patch source ≡ ok out
  unfolding apply_lines
  Replaces-apply_lines lines r =
      let start = patch.old_start - 1 in
      let rest = old_lines patch.body ++ r.post in
      let at_start : start ≡ length r.pre = omega (arith, r.starts) in
      let fits : start ≤ length source =
        omega (arith, at_start, ap length r.source_eq, length-append r.pre rest) in
      let here : drop start source ≡ rest = rw (at_start, r.source_eq) (drop-append r.pre rest) in
      let before : take start source ≡ r.pre =
        rw (at_start, r.source_eq) (take-append r.pre rest) in
      let (q, run, at_end) =
        apply_body_total source patch.body (initial patch source) r.post lines here in
      let m = apply_body-Moved source patch.body (initial patch source) q run in
      let output : q.output ≡ r.pre ++ new_lines patch.body =
        m.output ∙ ap (λ xs. xs ++ new_lines patch.body) before in
      let inside : ltb (length source) start ≡ false = ground arith in
      let counted =
        finish_total q (omega (arith, m.old_seen, r.old_counted))
          (omega (arith, m.new_seen, r.new_counted))
          (omega (
            arith,
            at_start,
            r.same_start,
            r.starts,
            m.new_seen,
            ap length output,
            length-append r.pre (new_lines patch.body),
          ))
          (r.output_eq
            ∙ sym (append_assoc r.pre (new_lines patch.body) r.post)
            ∙ ap₂ (λ xs ys. xs ++ ys) (sym output) (sym at_end)) in
      rw (inside, run) counted

-- For a patch with a positive start and well-formed body lines, which `parse` ensures, `apply`
-- gives an output exactly if the patch's old lines stand in the baseline at the header's line, the
-- header's counts are those of the old and the new lines, and both its starts agree; the output is
-- then the baseline with the old lines replaced by the new ones, all other lines as they were.
pub apply_lines_iff :
    (patch : ValidatedPatch) (source out : List String)
    → 1 ≤ patch.old_start
    → all is_body_line patch.body ≡ true
    → (apply_lines patch source ≡ ok out) ↔ Replaces patch source out
apply_lines_iff patch source out start lines =
    (apply_lines-Replaces patch source out start, Replaces-apply_lines patch source out lines)
