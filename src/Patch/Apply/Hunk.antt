-- ===== src/Patch/Apply/Hunk.antt =====
-- The hunk as a replacement: its old lines, its new lines, and what the loop makes of them.
use Prim.Native.Char.{Char}
use native.Mathlib.Numerals.{add-one}
use mathlib.Core.List.{append_assoc, append-nil}
use hermes_agentic_variation.Base.{
  ℕ, zero, suc, ◌+◌, String, true, List, [], ◌∷◌, ◌++◌, Option, none, some, ◌≡◌, refl, sym, ap, ◌∙◌,
  inl, inr, length, length-append, drop, all, arith, eq_iff, Bool-cases, if◌then◌else◌,
}
use hermes_agentic_variation.Base.Result.{ok, ◌>>=◌, >>=-eq-ok}
use hermes_agentic_variation.Patch.Parse.{is_body_line}
use hermes_agentic_variation.Patch.Apply.{
  Progress, get_elem?, is_old, is_new, matches, take_old, put_new, apply_line, apply_body,
}

-- What one line of a hunk takes from the baseline, and what it puts out.
unfoldable pub old_of : String → List String
unfolding is_old
old_of String.[] = []
old_of (String.◌∷◌ c content) = if is_old c then content ∷ [] else []

unfoldable pub new_of : String → List String
unfolding is_new
new_of String.[] = []
new_of (String.◌∷◌ c content) = if is_new c then content ∷ [] else []

unfoldable pub old_lines : List String → List String
old_lines [] = []
old_lines (line ∷ body) = old_of line ++ old_lines body

unfoldable pub new_lines : List String → List String
new_lines [] = []
new_lines (line ∷ body) = new_of line ++ new_lines body

drop-suc-get_elem? :
    (xs : List String) (i : ℕ) (x : String)
    → get_elem? xs i ≡ some x
    → drop i xs ≡ x ∷ drop (suc i) xs
drop-suc-get_elem? [] i x h = cc
drop-suc-get_elem? (y ∷ xs) zero x h = cc
drop-suc-get_elem? (y ∷ xs) (suc i) x h = drop-suc-get_elem? xs i x h

get_elem?-drop :
    (i : ℕ) (xs ys : List String) (x : String)
    → drop i xs ≡ x ∷ ys
    → (get_elem? xs i ≡ some x) × (drop (suc i) xs ≡ ys)
get_elem?-drop zero [] ys x h = cc
get_elem?-drop (suc i) [] ys x h = cc
get_elem?-drop zero (y ∷ xs) ys x h = (cc, cc)
get_elem?-drop (suc i) (y ∷ xs) ys x h = get_elem?-drop i xs ys x h

-- The next line of the baseline, where the context matches.
drop-matches :
    (xs : List String) (i : ℕ) (x : String)
    → matches (get_elem? xs i) x ≡ true
    → drop i xs ≡ x ∷ drop (i + 1) xs
drop-matches xs i x h = rw add-one (drop-suc-get_elem? xs i x (found (get_elem? xs i) h))
  where
    found : (o : Option String) → matches o x ≡ true → o ≡ some x
    found none e = cc
    found (some y) e = ap some ((eq_iff y x).0 e)

module _ (source : List String) where
  -- What lies between two moments of the loop.
  pub record Moved (old new : List String) (p q : Progress) : Type 0 where
    pub taken : drop p.source_index source ≡ old ++ drop q.source_index source
    pub index : q.source_index ≡ p.source_index + length old
    pub output : q.output ≡ p.output ++ new
    pub old_seen : q.old_seen ≡ p.old_seen + length old
    pub new_seen : q.new_seen ≡ p.new_seen + length new

  apply_line-Moved :
      (line : String) (p q : Progress)
      → apply_line source line p ≡ ok q
      → Moved (old_of line) (new_of line) p q
  unfolding apply_line take_old old_of new_of
  apply_line-Moved String.[] p q h = cc
  apply_line-Moved (String.◌∷◌ c content) p q h =
      ground (arith, drop-matches source p.source_index content, append-nil p.output)

  -- Moves compose.
  Moved-trans :
      (old new old' new' : List String) (p q r : Progress)
      → Moved old new p q
      → Moved old' new' q r
      → Moved (old ++ old') (new ++ new') p r
  Moved-trans old new old' new' p q r a b = record {
    taken = a.taken ∙ ap (λ xs. old ++ xs) b.taken ∙ sym (append_assoc old old' _);
    index = omega (arith, a.index, b.index, length-append old old');
    output = b.output ∙ ap (λ xs. xs ++ new') a.output ∙ append_assoc p.output new new';
    old_seen = omega (arith, a.old_seen, b.old_seen, length-append old old');
    new_seen = omega (arith, a.new_seen, b.new_seen, length-append new new');
  }

  pub apply_body-Moved :
      (body : List String) (p q : Progress)
      → apply_body source body p ≡ ok q
      → Moved (old_lines body) (new_lines body) p q
  unfolding apply_body old_lines new_lines
  apply_body-Moved [] p q h = ground (arith, append-nil p.output)
  apply_body-Moved (line ∷ body) p q h =
      let (r, first, rest) = >>=-eq-ok _ _ h in
      Moved-trans (old_of line) (new_of line) (old_lines body) (new_lines body) p r q
        (apply_line-Moved line p r first) (apply_body-Moved body r q rest)

  -- The loop's variables after one line.
  abbrev after_old : Char → Progress → Progress
  after_old c p =
      if is_old c
      then record p { source_index = p.source_index + 1; old_seen = p.old_seen + 1 }
      else p

  abbrev after : Char → String → Progress → Progress
  after c content p = if is_new c then put_new content (after_old c p) else after_old c p

  -- A line is applied where its old part comes next.
  apply_line_total :
      (c : Char) (content : String) (p : Progress) (post : List String)
      → drop p.source_index source ≡ old_of (String.◌∷◌ c content) ++ post
      → (apply_line source (String.◌∷◌ c content) p ≡ ok (after c content p))
        × (drop (after c content p).source_index source ≡ post)
  unfolding apply_line take_old old_of
  apply_line_total c content p post h = elim (Bool-cases (is_old c)) [
    | inl e ↦
        let (found, rest) = get_elem?-drop p.source_index source post content (rw e at h) in
        let more = rw (← add-one) at rest in (ground (arith, eq_iff content content), ground arith)
    | inr e ↦ (rw e, ground arith)
  ]

  -- A body of well-formed lines is applied where its old lines come next.
  pub apply_body_total :
      (body : List String) (p : Progress) (post : List String)
      → all is_body_line body ≡ true
      → drop p.source_index source ≡ old_lines body ++ post
      → (q : Progress) × (apply_body source body p ≡ ok q) × (drop q.source_index source ≡ post)
  unfolding apply_body old_lines is_body_line
  apply_body_total [] p post a h = (p, refl, h)
  apply_body_total (String.[] ∷ body) p post a h = cc
  apply_body_total (String.◌∷◌ c content ∷ body) p post a h =
      let (step, rest) =
        apply_line_total c content p (old_lines body ++ post)
          (h ∙ append_assoc (old_of (String.◌∷◌ c content)) (old_lines body) post) in
      let (q, run, at_end) = apply_body_total body (after c content p) post (ground arith) rest in
      (q, ap (λ r. r >>= apply_body source body) step ∙ run, at_end)
