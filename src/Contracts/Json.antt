-- ===== src/Contracts/Json.antt =====
-- The JSON documents of the contracts (`ContractMixin.to_dict`), and what reads them back.
use hermes_agentic_variation.Base.{
  ℕ, String, List, [], ◌∷◌, Option, none, some, str_eq, if◌then◌else◌,
}
use hermes_agentic_variation.Base.Int.{pos}
use hermes_agentic_variation.Base.Float.{int}
use hermes_agentic_variation.Base.Result.{type_error, Result, ok, err}
use hermes_agentic_variation.Base.Value.{
  Value, null, num, str, list, tuple, dict, object, Values, nil, cons, Entries, end, entry, odd_key,
}

-- A document with these fields.
abbrev pub fields : List (String × Value) → Entries
fields [] = end
fields ((k, v) ∷ fs) = entry k v (fields fs)

abbrev pub text_values : List String → Values
text_values [] = nil
text_values (s ∷ ss) = cons (str s) (text_values ss)

-- A tuple of texts is stored as a list.
abbrev pub text_list : List String → Value
text_list ss = list (text_values ss)

abbrev pub natural : ℕ → Value
natural n = num (int (pos n))

abbrev pub optional_text : Option String → Value
optional_text none = null
optional_text (some s) = str s

-- `data.get(name)`
abbrev pub get : String → Entries → Option Value
get name end = none
get name (odd_key v es) = get name es
get name (entry k v es) = if str_eq k name then some v else get name es

abbrev chars : String → Values
chars String.[] = nil
chars (String.◌∷◌ c s) = cons (str (String.◌∷◌ c String.[])) (chars s)

abbrev keys : Entries → Values
keys end = nil
keys (odd_key v es) = cons object (keys es)
keys (entry k v es) = cons (str k) (keys es)

-- `tuple(value)`
unfoldable pub to_tuple : Value → Result Value
to_tuple (list vs) = ok (tuple vs)
to_tuple (tuple vs) = ok (tuple vs)
to_tuple (str s) = ok (tuple (chars s))
to_tuple (dict es) = ok (tuple (keys es))
to_tuple _ = err type_error
