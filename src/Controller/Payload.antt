-- ===== src/Controller/Payload.antt =====
-- controller.py: `_parse_child_payload`. `json.loads` is a parameter: the document of a text, none
-- where it raises ValueError.
use Prim.Native.Char.{code}
use hermes_agentic_variation.Base.{
  String, Bool, true, false, ◌&&◌, ◌||◌, ◌==◌, List, [], ◌∷◌, Option, none, some, str_eq, is_space,
  is_blank, len, ltb, if◌then◌else◌,
}
use hermes_agentic_variation.Base.Value.{Value, str, dict, Entries, end, entry, odd_key}
use hermes_agentic_variation.Contracts.Json.{get}
use hermes_agentic_variation.Patch.Lines.{splitlines, starts_with, append}

-- `str.strip`
unfoldable pub lstrip : String → String
unfolding is_space
lstrip String.[] = String.[]
lstrip (String.◌∷◌ c s) = let rest = lstrip s in if is_space (code c) then rest else String.◌∷◌ c s

unfoldable pub rstrip : String → String
unfolding is_space
rstrip String.[] = String.[]
rstrip (String.◌∷◌ c s) =
    let rest = rstrip s in
    if str_eq rest "" && is_space (code c) then String.[] else String.◌∷◌ c rest

unfoldable pub strip : String → String
unfolding lstrip rstrip
strip s = rstrip (lstrip s)

-- "\r\n" ends one line.
unfoldable pub merge_crlf : String → String
merge_crlf String.[] = String.[]
merge_crlf (String.◌∷◌ c String.[]) = String.◌∷◌ c String.[]
merge_crlf (String.◌∷◌ c (String.◌∷◌ d s)) =
    let rest = merge_crlf (String.◌∷◌ d s) in
    if code c == 13 && code d == 10 then rest else String.◌∷◌ c rest

-- `"\n".join(lines)`
unfoldable pub join : List String → String
unfolding append
join [] = ""
join (l ∷ []) = l
join (l ∷ m ∷ ls) = append l (String.◌∷◌ "\n" (join (m ∷ ls)))

-- `lines[1:]`, if the first one opens the fence.
abbrev drop_opening : List String → List String
unfolding starts_with
drop_opening [] = []
drop_opening (l ∷ ls) = if starts_with l "```" then ls else l ∷ ls

-- `lines[:-1]`, if the last one closes the fence.
unfoldable drop_closing : List String → List String
unfolding strip
drop_closing [] = []
drop_closing (l ∷ []) = if str_eq (strip l) "```" then [] else l ∷ []
drop_closing (l ∷ m ∷ ls) = l ∷ drop_closing (m ∷ ls)

unfoldable pub unfence : String → String
unfolding strip splitlines starts_with merge_crlf join drop_opening drop_closing
unfence summary =
    let text = strip summary in
    if starts_with text "```"
    then strip (join (drop_closing (drop_opening (splitlines (merge_crlf text)))))
    else text

-- `set(payload) == {a, b}`, once both are found.
abbrev pub only_fields : String → String → Entries → Bool
only_fields a b end = true
only_fields a b (odd_key v es) = false
only_fields a b (entry k v es) = (str_eq k a || str_eq k b) && only_fields a b es

abbrev accepted : Bool → Option Value → Option Value → Option (String × String)
unfolding strip is_blank
accepted true (some (str choice)) (some (str rationale)) =
    if is_blank choice || is_blank rationale || ltb 1000 (len rationale)
    then none
    else some (strip choice, strip rationale)
accepted _ _ _ = none

-- The choice of a closed enum and its rationale.
unfoldable pub choice_of : String → Option Value → Option (String × String)
unfolding accepted
choice_of name (some (dict es)) =
    accepted (only_fields name "rationale" es) (get name es) (get "rationale" es)
choice_of name _ = none

-- `_parse_child_payload`
unfoldable pub parse_child_payload : (String → Option Value) → String → Option (String × String)
unfolding unfence choice_of
parse_child_payload loads summary = choice_of "strategy" (loads (unfence summary))
