-- ===== src/Phase2/Heard.antt =====
-- A payload of the supervisor that the parser accepts makes an advice that its contract accepts.
use Prim.Native.Char.{code}
use hermes_agentic_variation.Base.{
  String, Bool, true, false, ◌||◌, ◌&&◌, is_space, List, [], ◌∷◌, ◌++◌, Option, none, some, ltb,
  len, length, is_blank, any, map, Bool-cases, ◌≡◌, ◌⊎◌, refl, sym, ◌∙◌, inl, inr, arith,
}
use hermes_agentic_variation.Base.Result.{ok}
use hermes_agentic_variation.Base.Value.{Value, list, tuple, dict}
use hermes_agentic_variation.Contracts.Advice
use hermes_agentic_variation.Contracts.Advice.{SupervisorAdvice}
use hermes_agentic_variation.Contracts.Checks.{
  is_digest, require_text, require_digest, require_text_tuple, texts,
}
use hermes_agentic_variation.Contracts.Json.{get, text_values}
use hermes_agentic_variation.Contracts.Memory
use hermes_agentic_variation.Contracts.Memory.{ContinuationMemory}
use hermes_agentic_variation.Contracts.RunSpec.{RunSpec}
use hermes_agentic_variation.Contracts.RunSpec.Stored.{identity}
use hermes_agentic_variation.Controller.Payload.{only_fields, strip}
use hermes_agentic_variation.Controller.Steps.{Phase1Controller}
use hermes_agentic_variation.Controller.Stripped.{is_blank-strip}
use hermes_agentic_variation.Patch.Lines.{append}
use hermes_agentic_variation.Phase2.Payload.{
  all_texts, is_refused, checked, both, lists_of, advice_in, parse_supervisor_payload,
}
use hermes_agentic_variation.Phase2.Supervise.{advice_of}

abbrev Lists : Type 0
Lists = List String × List String

-- The lists of a payload before they are stripped.
record Heard (lists : Lists) : Type 0 where
  directions : List String
  prohibited : List String
  enough : ltb (length directions) 1 ≡ false
  few : ltb 3 (length directions) ≡ false
  few_prohibited : ltb 3 (length prohibited) ≡ false
  plain : any is_refused (directions ++ prohibited) ≡ false
  stripped : lists ≡ (map strip directions, map strip prohibited)

or-false : (a b : Bool) → (a || b) ≡ false → (a ≡ false) × (b ≡ false)
or-false a b h = ground arith

checked-Heard : (ds ps : List String) (lists : Lists) → checked ds ps ≡ some lists → Heard lists
unfolding checked
checked-Heard ds ps lists h =
    elim (Bool-cases
      (ltb (length ds) 1 || ltb 3 (length ds) || ltb 3 (length ps) || any is_refused (ds ++ ps))) [
        | inl e ↦ let p : none ≡ some lists = rw (sym h, e) in cc
        | inr e ↦
            let (abc, d) = or-false _ _ e in
            let (ab, c) = or-false _ _ abc in
            let (a, b) = or-false _ _ ab in
            let p : some (map strip ds, map strip ps) ≡ some lists = rw (sym h, e) in
            record {
              directions = ds;
              prohibited = ps;
              enough = a;
              few = b;
              few_prohibited = c;
              plain = d;
              stripped = cc;
            }
      ]

both-Heard : (x y : Option (List String)) (lists : Lists) → both x y ≡ some lists → Heard lists
unfolding both
both-Heard (some ds) (some ps) lists h = checked-Heard ds ps lists h
both-Heard none y lists h = cc
both-Heard (some ds) none lists h = cc

lists_of-Heard :
    (b : Bool) (x y : Option Value) (lists : Lists) → lists_of b x y ≡ some lists → Heard lists
unfolding lists_of
lists_of-Heard true (some (list ds)) (some (list ps)) lists h =
    both-Heard (all_texts ds) (all_texts ps) lists h
lists_of-Heard _ _ _ lists h = cc

advice_in-Heard : (v : Option Value) (lists : Lists) → advice_in v ≡ some lists → Heard lists
unfolding advice_in
advice_in-Heard (some (dict es)) lists h =
    lists_of-Heard (only_fields "directions" "prohibited_repeats" es) (get "directions" es)
      (get "prohibited_repeats" es) lists h
advice_in-Heard _ lists h = cc

parse-Heard :
    (loads : String → Option Value) (summary : Option String) (lists : Lists)
    → parse_supervisor_payload loads summary ≡ some lists
    → Heard lists
unfolding parse_supervisor_payload
parse-Heard loads none lists h = cc
parse-Heard loads (some summary) lists h = advice_in-Heard (loads (strip summary)) lists h

any-append :
    (p : String → Bool) (xs ys : List String)
    → any p (xs ++ ys) ≡ false
    → (any p xs ≡ false) × (any p ys ≡ false)
any-append p [] ys h = (refl, h)
any-append p (x ∷ xs) ys h =
    let (a, b) = or-false (p x) (any p (xs ++ ys)) h in
    let (c, d) = any-append p xs ys b in (rw (a, c), d)

length-map : (f : String → String) (xs : List String) → length (map f xs) ≡ length xs
length-map f [] = refl
length-map f (x ∷ xs) = rw (length-map f xs)

-- Items that are not refused are texts for the contract too.
texts-map-strip :
    (xs : List String)
    → any is_refused xs ≡ false
    → texts (text_values (map strip xs)) ≡ some (map strip xs)
unfolding texts
texts-map-strip [] h = refl
texts-map-strip (x ∷ xs) h =
    let (a, b) = or-false (is_refused x) (any is_refused xs) h in
    let (blank, _) = or-false (is_blank x) (ltb 300 (len x)) a in
    rw (texts-map-strip xs b, is_blank-strip x ∙ blank)

text_tuple :
    (name : String) (allow_empty : Bool) (xs : List String)
    → texts (text_values xs) ≡ some xs
    → (allow_empty ≡ true) ⊎ (ltb (length xs) 1 ≡ false)
    → require_text_tuple name allow_empty (tuple (text_values xs)) ≡ ok xs
unfolding require_text_tuple texts
text_tuple name true [] t h = refl
text_tuple name true (x ∷ xs) t h = rw t
text_tuple name false [] t (inl h) = cc
text_tuple name false [] t (inr h) = cc
text_tuple name false (x ∷ xs) t h = rw t

is_blank-append : (s t : String) → is_blank t ≡ false → is_blank (append s t) ≡ false
unfolding is_blank append
is_blank-append String.[] t h = h
is_blank-append (String.◌∷◌ c s) t h = rw (is_blank-append s t h) (never (is_space (code c)))
  where
    never : (b : Bool) → (b && false) ≡ false
    never true = refl
    never false = refl

advice-accepted :
    (a : SupervisorAdvice)
    → is_blank a.advice_id ≡ false
    → is_digest a.run_spec_hash ≡ true
    → is_digest a.stagnation_evidence_hash ≡ true
    → texts (text_values a.directions) ≡ some a.directions
    → texts (text_values a.prohibited_repeats) ≡ some a.prohibited_repeats
    → ltb (length a.directions) 1 ≡ false
    → ltb 3 (length a.directions) ≡ false
    → Advice.new a ≡ ok a
unfolding Advice.new require_text require_digest
advice-accepted a id run stag d p enough few = rw (
  id,
  run,
  stag,
  text_tuple "directions" false a.directions d (inr enough),
  text_tuple "prohibited_repeats" true a.prohibited_repeats p (inl refl),
  few,
)

-- Whatever a supervisor writes, what the parser accepts of it makes an advice that the contract accepts as it is, for any run, RunSpec and memory: after a payload is accepted, `supervise` raises no ContractValidationError over it.
pub heard-accepted :
    (c : Phase1Controller) (run_id : String) (spec : RunSpec) (memory : ContinuationMemory)
    (summary : Option String) (lists : List String × List String)
    → parse_supervisor_payload c.loads summary ≡ some lists
    → Advice.new (advice_of c run_id spec memory lists) ≡ ok (advice_of c run_id spec memory lists)
unfolding advice_of identity Memory.identity is_blank
heard-accepted c run_id spec memory summary lists h =
    let w = parse-Heard c.loads summary lists h in
    let (plain, plain') = any-append is_refused w.directions w.prohibited w.plain in
    along w.directions w.prohibited w.stripped (texts-map-strip w.directions plain)
      (texts-map-strip w.prohibited plain') (rw (length-map strip w.directions) w.enough)
      (rw (length-map strip w.directions) w.few)
  where
    along :
        (ds ps : List String)
        → lists ≡ (map strip ds, map strip ps)
        → texts (text_values (map strip ds)) ≡ some (map strip ds)
        → texts (text_values (map strip ps)) ≡ some (map strip ps)
        → ltb (length (map strip ds)) 1 ≡ false
        → ltb 3 (length (map strip ds)) ≡ false
        → Advice.new (advice_of c run_id spec memory lists)
          ≡ ok (advice_of c run_id spec memory lists)
    along ds ps e d p enough few = rw e (
        advice-accepted (advice_of c run_id spec memory (map strip ds, map strip ps))
          (is_blank-append run_id "-supervisor-1" refl) (c.hashing.of_json-is_digest _)
          (c.hashing.of_json-is_digest _) d p enough few)
