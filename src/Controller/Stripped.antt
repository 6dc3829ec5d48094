-- ===== src/Controller/Stripped.antt =====
-- `str.strip` keeps whether a text is blank.
use Prim.Native.Char.{code}
use hermes_agentic_variation.Base.{
  String, ◌&&◌, str_eq, eq_iff, is_space, is_blank, Bool-cases, ◌≡◌, refl, sym, ◌∙◌, inl, inr,
}
use hermes_agentic_variation.Base.Logic.{and-true}
use hermes_agentic_variation.Controller.Payload.{lstrip, rstrip, strip}

is_blank-lstrip : (s : String) → is_blank (lstrip s) ≡ is_blank s
unfolding is_blank lstrip
is_blank-lstrip String.[] = refl
is_blank-lstrip (String.◌∷◌ c s) = elim (Bool-cases (is_space (code c))) [
  | inl e ↦ rw (e, is_blank-lstrip s)
  | inr e ↦ rw (e, e)
]

is_blank-rstrip : (s : String) → is_blank (rstrip s) ≡ is_blank s
unfolding is_blank rstrip
is_blank-rstrip String.[] = refl
is_blank-rstrip (String.◌∷◌ c s) = elim (Bool-cases (str_eq (rstrip s) "" && is_space (code c))) [
  | inl e ↦
      let (empty, space) = and-true (str_eq (rstrip s) "") (is_space (code c)) e in
      rw (e, space, sym (is_blank-rstrip s), (eq_iff (rstrip s) "").0 empty)
  | inr e ↦ rw (e, is_blank-rstrip s)
]

pub is_blank-strip : (s : String) → is_blank (strip s) ≡ is_blank s
unfolding strip
is_blank-strip s = is_blank-rstrip (lstrip s) ∙ is_blank-lstrip s
