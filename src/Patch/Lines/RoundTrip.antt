-- ===== src/Patch/Lines/RoundTrip.antt =====
-- Splitting what was joined, and joining what was split.
use Prim.Native.Char.{Char, code}
use hermes_agentic_variation.Base.{
  String, true, false, List, [], ◌∷◌, ◌≡◌, refl, all, ap, arith, Bool-cases, inl, inr,
}
use hermes_agentic_variation.Patch.Lines.{
  is_boundary, in_front, splitlines, append, join_lines, is_line,
}

split-end : (l : String) → is_line l ≡ true → splitlines (append l "\n") ≡ l ∷ []
unfolding splitlines append
split-end String.[] h = unfold is_boundary in refl
split-end (String.◌∷◌ c l) h = ground (arith, split-end l)

split-more :
    (l s : String) → is_line l ≡ true → splitlines (append l (String.◌∷◌ "\n" s)) ≡ l ∷ splitlines s
unfolding splitlines append
split-more String.[] s h = unfold is_boundary in refl
split-more (String.◌∷◌ c l) s h = ground (arith, split-more l s)

-- The lines of joined lines are those lines.
pub splitlines-join_lines :
    (l : String) (ls : List String)
    → all is_line (l ∷ ls) ≡ true
    → splitlines (join_lines (l ∷ ls)) ≡ l ∷ ls
unfolding join_lines
splitlines-join_lines l [] h = split-end l (ground arith)
splitlines-join_lines l (m ∷ ls) h =
    rw (split-more l (join_lines (m ∷ ls)) (ground arith))
      (ap (λ ms. l ∷ ms) (splitlines-join_lines m ls (ground arith)))

all-in_front :
    (c : Char) (ls : List String)
    → is_boundary (code c) ≡ false
    → all is_line ls ≡ true
    → all is_line (in_front c ls) ≡ true
all-in_front c [] b h = rw b
all-in_front c (l ∷ ls) b h = rw b h

-- A split text consists of lines.
pub splitlines-is_line : (s : String) → all is_line (splitlines s) ≡ true
unfolding splitlines
splitlines-is_line String.[] = refl
splitlines-is_line (String.◌∷◌ c s) = elim (Bool-cases (is_boundary (code c))) [
  | inl b ↦ rw b (splitlines-is_line s)
  | inr b ↦ rw b (all-in_front c (splitlines s) b (splitlines-is_line s))
]
