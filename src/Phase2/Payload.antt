-- ===== src/Phase2/Payload.antt =====
-- phase2.py: `_parse_supervisor_payload`.
use hermes_agentic_variation.Base.{
  String, Bool, true, ◌||◌, List, [], ◌∷◌, ◌++◌, Option, none, some, ltb, len, length, is_blank,
  any, map, if◌then◌else◌,
}
use hermes_agentic_variation.Base.Value.{Value, str, list, dict, Values, nil, cons}
use hermes_agentic_variation.Contracts.Json.{get}
use hermes_agentic_variation.Controller.Payload.{only_fields, strip}

-- The items as texts, none if one of them is no text.
unfoldable pub all_texts : Values → Option (List String)
all_texts nil = some []
all_texts (cons (str s) vs) = elim (all_texts vs) [ none ↦ none | some ss ↦ some (s ∷ ss) ]
all_texts (cons _ vs) = none

-- `not item.strip() or len(item) > 300`
abbrev pub is_refused : String → Bool
is_refused s = is_blank s || ltb 300 (len s)

unfoldable pub checked : List String → List String → Option (List String × List String)
unfolding strip
checked directions prohibited =
    if ltb (length directions) 1
      || ltb 3 (length directions)
      || ltb 3 (length prohibited)
      || any is_refused (directions ++ prohibited)
    then none
    else some (map strip directions, map strip prohibited)

unfoldable pub both :
    Option (List String) → Option (List String) → Option (List String × List String)
unfolding checked
both (some directions) (some prohibited) = checked directions prohibited
both _ _ = none

unfoldable pub lists_of : Bool → Option Value → Option Value → Option (List String × List String)
unfolding both
lists_of true (some (list ds)) (some (list ps)) = both (all_texts ds) (all_texts ps)
lists_of _ _ _ = none

unfoldable pub advice_in : Option Value → Option (List String × List String)
unfolding lists_of
advice_in (some (dict es)) =
    lists_of (only_fields "directions" "prohibited_repeats" es) (get "directions" es)
      (get "prohibited_repeats" es)
advice_in _ = none

-- `_parse_supervisor_payload`
unfoldable pub parse_supervisor_payload :
    (String → Option Value) → Option String → Option (List String × List String)
unfolding advice_in all_texts strip
parse_supervisor_payload loads none = none
parse_supervisor_payload loads (some summary) = advice_in (loads (strip summary))
