-- ===== src/Patch/Lines.antt =====
-- The text functions of Python that the patch code calls. It has refused a text with a carriage
-- return before it calls `splitlines`, so the treatment of "\r\n" as one end is left out.
pub mod RoundTrip
use Prim.Native.Char.{Char, code}
use Prim.Native.String
use hermes_agentic_variation.Base.{
  ℕ, zero, suc, ◌+◌, String, Bool, true, false, ◌&&◌, ◌||◌, List, [], ◌∷◌, ◌≡◌, ◌≢◌, refl, leb, ltb,
  ◌==◌, if◌then◌else◌, all, ap, arith, Option, none, some,
}

-- The characters that end a line for `splitlines`.
unfoldable pub is_boundary : ℕ → Bool
is_boundary c =
    leb 10 c && leb c 13 || leb 28 c && leb c 30 || c == 0x85 || c == 0x2028 || c == 0x2029

abbrev pub in_front : Char → List String → List String
in_front c [] = String.◌∷◌ c String.[] ∷ []
in_front c (l ∷ ls) = String.◌∷◌ c l ∷ ls

-- `str.splitlines`
unfoldable pub splitlines : String → List String
splitlines String.[] = []
splitlines (String.◌∷◌ c s) =
    let rest = splitlines s in if is_boundary (code c) then "" ∷ rest else in_front c rest

-- A text after another.
unfoldable pub append : String → String → String
append String.[] t = t
append (String.◌∷◌ c s) t = String.◌∷◌ c (append s t)

-- `"\n".join(lines) + "\n"`
unfoldable pub join_lines : List String → String
unfolding append
join_lines [] = "\n"
join_lines (l ∷ []) = append l "\n"
join_lines (l ∷ m ∷ ls) = append l (String.◌∷◌ "\n" (join_lines (m ∷ ls)))

-- `text.endswith("\n")`
unfoldable pub ends_with_newline : String → Bool
ends_with_newline String.[] = false
ends_with_newline (String.◌∷◌ c String.[]) = code c == 10
ends_with_newline (String.◌∷◌ c (String.◌∷◌ d s)) = ends_with_newline (String.◌∷◌ d s)

-- The text behind a prefix, if the text begins with it.
unfoldable pub strip_prefix : String → String → Option String
strip_prefix String.[] t = some t
strip_prefix (String.◌∷◌ c s) String.[] = none
strip_prefix (String.◌∷◌ c s) (String.◌∷◌ d t) = if code c == code d then strip_prefix s t else none

-- `text.startswith(prefix)`
unfoldable pub starts_with : String → String → Bool
unfolding strip_prefix
starts_with text prefix = elim (strip_prefix prefix text) [ none ↦ false | some _ ↦ true ]

-- A line holds no line boundary.
abbrev pub is_line : String → Bool
is_line String.[] = true
is_line (String.◌∷◌ c s) = (if is_boundary (code c) then false else true) && is_line s

split_three : splitlines "ab\n\nc" ≡ "ab" ∷ "" ∷ "c" ∷ []
unfolding splitlines is_boundary
split_three = refl

join_two : join_lines ("ab" ∷ "c" ∷ []) ≡ "ab\nc\n"
unfolding join_lines
join_two = refl
