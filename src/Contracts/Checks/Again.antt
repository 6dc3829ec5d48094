-- ===== src/Contracts/Checks/Again.antt =====
-- A value that a check has accepted is accepted again, in its stored form.
use hermes_agentic_variation.Base.{
  ℕ, String, Bool, true, false, List, [], ◌∷◌, Option, none, some, ◌≡◌, ◌≢◌, sym, inl, inr,
  is_blank, Bool-cases, Option-cases, arith,
}
use hermes_agentic_variation.Base.Result.{contract_error, Error, ok, err}
use hermes_agentic_variation.Base.Value.{Value, str, tuple, Values, nil, cons}
use hermes_agentic_variation.Contracts.Checks.{
  or_raise, is_digest, require_text, require_digest, texts, require_text_tuple, require_positive,
}
use hermes_agentic_variation.Contracts.Json.{text_values, natural}

pub require_text-again :
    (name : String) (v : Value) (s : String)
    → require_text name v ≡ ok s
    → require_text name (str s) ≡ ok s
unfolding require_text
require_text-again name (str t) s h = elim (Bool-cases (is_blank t)) [
  | inl e ↦
      let p : err (contract_error name "must be a non-empty string") ≡ ok s = rw (sym h, e) in cc
  | inr e ↦ let p : ok t ≡ ok s = rw (sym h, e) in let q : t ≡ s = cc in rw (sym q, e)
]
require_text-again name Value.null s h = cc
require_text-again name _ s h = cc

pub require_digest-again :
    (name : String) (v : Value) (s : String)
    → require_digest name v ≡ ok s
    → require_digest name (str s) ≡ ok s
unfolding require_digest
require_digest-again name (str t) s h = elim (Bool-cases (is_digest t)) [
  | inl e ↦ let p : ok t ≡ ok s = rw (sym h, e) in let q : t ≡ s = cc in rw (sym q, e)
  | inr e ↦
      let p : err (contract_error name "must be a lowercase SHA-256 digest") ≡ ok s =
        rw (sym h, e) in
      cc
]
require_digest-again name Value.null s h = cc
require_digest-again name _ s h = cc

pub texts-again :
    (vs : Values) (ss : List String) → texts vs ≡ some ss → texts (text_values ss) ≡ some ss
unfolding texts
texts-again nil ss h = let q : [] ≡ ss = cc in rw (sym q)
texts-again (cons (str t) vs) ss h = elim (Option-cases (texts vs)) [
  | inl e ↦ let p : none ≡ some ss = rw (sym h, e) in cc
  | inr (rest, e) ↦ elim (Bool-cases (is_blank t)) [
    | inl b ↦ let p : none ≡ some ss = rw (sym h, e, b) in cc
    | inr b ↦
        let p : some (t ∷ rest) ≡ some ss = rw (sym h, e, b) in
        let q : (t ∷ rest) ≡ ss = cc in rw (sym q, texts-again vs rest e, b)
  ]
]
texts-again (cons Value.null vs) ss h = cc
texts-again (cons _ vs) ss h = cc

or_raise-ok : {A : Type 0} (o : Option A) (e : Error) (a : A) → or_raise o e ≡ ok a → o ≡ some a
or_raise-ok none e a h = cc
or_raise-ok (some b) e a h = cc

texts-cons : (v : Value) (vs : Values) → texts (cons v vs) ≢ some []
unfolding texts
texts-cons (str t) vs h = elim (Option-cases (texts vs)) [
  | inl e ↦ let p : ◌≡◌ {A = Option (List String)} none (some []) = rw (sym h, e) in cc
  | inr (rest, e) ↦ elim (Bool-cases (is_blank t)) [
    | inl b ↦ let p : ◌≡◌ {A = Option (List String)} none (some []) = rw (sym h, e, b) in cc
    | inr b ↦
        let p : ◌≡◌ {A = Option (List String)} (some (t ∷ rest)) (some []) = rw (sym h, e, b) in cc
  ]
]
texts-cons Value.null vs h = cc
texts-cons _ vs h = cc

pub require_text_tuple-again :
    (name : String) (b : Bool) (v : Value) (ss : List String)
    → require_text_tuple name b v ≡ ok ss
    → require_text_tuple name b (tuple (text_values ss)) ≡ ok ss
unfolding require_text_tuple
require_text_tuple-again name true (tuple vs) ss h =
    rw (texts-again vs ss (or_raise-ok (texts vs) _ ss h))
require_text_tuple-again name false (tuple nil) ss h = cc
require_text_tuple-again name false (tuple (cons v vs)) [] h =
    absurd (texts-cons v vs (or_raise-ok (texts (cons v vs)) _ [] h))
require_text_tuple-again name false (tuple (cons v vs)) (s ∷ ss) h =
    rw (texts-again (cons v vs) (s ∷ ss) (or_raise-ok (texts (cons v vs)) _ (s ∷ ss) h))
require_text_tuple-again name true Value.null ss h = cc
require_text_tuple-again name true _ ss h = cc
require_text_tuple-again name false Value.null ss h = cc
require_text_tuple-again name false _ ss h = cc

pub require_positive-again :
    (name : String) (v : Value) (n : ℕ)
    → require_positive name v ≡ ok n
    → require_positive name (natural n) ≡ ok n
unfolding require_positive
require_positive-again name v n h = ground arith
