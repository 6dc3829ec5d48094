-- ===== src/Contracts/Paths.antt =====
-- The path checks of contracts.py: `PurePosixPath` of a text whose backslashes became slashes.
use Prim.Native.Char.{Char, code}
use hermes_agentic_variation.Base.{
  String, Bool, false, ◌&&◌, ◌||◌, List, [], ◌∷◌, any, leb, ◌==◌, str_eq, if◌then◌else◌,
}

-- The texts between the separators `/` and `\`.
abbrev add_char : Char → List String → List String
add_char c [] = String.◌∷◌ c String.[] ∷ []
add_char c (l ∷ ls) = String.◌∷◌ c l ∷ ls

unfoldable pub segments : String → List String
segments String.[] = "" ∷ []
segments (String.◌∷◌ c s) =
    let rest = segments s in
    if code c == b'/' || code c == b'\\' then "" ∷ rest else add_char c rest

-- `path.parts` of a relative path: empty texts and single dots are dropped.
unfoldable pub relative_parts : List String → List String
relative_parts [] = []
relative_parts (l ∷ ls) =
    let rest = relative_parts ls in if str_eq l "" || str_eq l "." then rest else l ∷ rest

-- `path.is_absolute()`
unfoldable pub is_absolute : String → Bool
is_absolute String.[] = false
is_absolute (String.◌∷◌ c s) = code c == b'/' || code c == b'\\'

-- `re.match(r"^[A-Za-z]:", normalized)`
unfoldable pub has_drive : String → Bool
has_drive String.[] = false
has_drive (String.◌∷◌ c String.[]) = false
has_drive (String.◌∷◌ c (String.◌∷◌ d s)) =
    (leb b'A' (code c) && leb (code c) b'Z' || leb b'a' (code c) && leb (code c) b'z')
    && code d == b':'

-- `".." in path.parts`
unfoldable pub climbs : String → Bool
unfolding segments
climbs s = any (λ l. str_eq l "..") (segments s)

-- The path is refused.
unfoldable pub is_unsafe : String → Bool
unfolding is_absolute has_drive climbs
is_unsafe s = is_absolute s || has_drive s || climbs s
