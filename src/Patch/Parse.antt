-- ===== src/Patch/Parse.antt =====
-- `ValidatedPatch.parse`: one hunk against calculator.py, within fixed bounds.
pub mod Contract
use Prim.Native.Char.{Char, code}
use Prim.Native.String.{len as byte_length}
use hermes_agentic_variation.Base.{
  ℕ, ◌+◌, ◌-◌, ◌*◌, String, Bool, false, not, ◌&&◌, ◌||◌, List, [], ◌∷◌, Option, none, some, all,
  any, len, contains, leb, ltb, ◌==◌, str_eq, if◌then◌else◌,
}
use hermes_agentic_variation.Base.Result.{
  patch_error, Result, ok, err, require, raise_if, ◌>>=◌, ◌>>◌,
}
use hermes_agentic_variation.Base.Value.{Value, str}
use hermes_agentic_variation.Patch.Lines.{splitlines, ends_with_newline, strip_prefix, starts_with}

pub record ValidatedPatch : Type 0 where
  pub raw : String
  pub target_path : String
  pub old_start : ℕ
  pub old_count : ℕ
  pub new_start : ℕ
  pub new_count : ℕ
  pub body : List String

-- `_PROHIBITED_PREFIXES`
abbrev pub prohibited_prefixes : List String
prohibited_prefixes =
    "diff --git " ∷ "new file mode " ∷ "deleted file mode " ∷ "old mode " ∷ "new mode "
    ∷ "rename from " ∷ "rename to " ∷ "copy from " ∷ "copy to " ∷ "GIT binary patch"
    ∷ "Binary files " ∷ "Subproject commit " ∷ "\\ No newline at end of file" ∷ []

-- Where the ten decimal digits of each script begin (Unicode 14): `\d` and `int` accept them all.
abbrev digit_zeros : List ℕ
digit_zeros =
    0x30 ∷ 0x660 ∷ 0x6f0 ∷ 0x7c0 ∷ 0x966 ∷ 0x9e6 ∷ 0xa66 ∷ 0xae6 ∷ 0xb66 ∷ 0xbe6 ∷ 0xc66 ∷ 0xce6
    ∷ 0xd66 ∷ 0xde6 ∷ 0xe50 ∷ 0xed0 ∷ 0xf20 ∷ 0x1040 ∷ 0x1090 ∷ 0x17e0 ∷ 0x1810 ∷ 0x1946 ∷ 0x19d0
    ∷ 0x1a80 ∷ 0x1a90 ∷ 0x1b50 ∷ 0x1bb0 ∷ 0x1c40 ∷ 0x1c50 ∷ 0xa620 ∷ 0xa8d0 ∷ 0xa900 ∷ 0xa9d0
    ∷ 0xa9f0 ∷ 0xaa50 ∷ 0xabf0 ∷ 0xff10 ∷ 0x104a0 ∷ 0x10d30 ∷ 0x11066 ∷ 0x110f0 ∷ 0x11136 ∷ 0x111d0
    ∷ 0x112f0 ∷ 0x11450 ∷ 0x114d0 ∷ 0x11650 ∷ 0x116c0 ∷ 0x11730 ∷ 0x118e0 ∷ 0x11950 ∷ 0x11c50
    ∷ 0x11d50 ∷ 0x11da0 ∷ 0x16a60 ∷ 0x16ac0 ∷ 0x16b50 ∷ 0x1d7ce ∷ 0x1d7d8 ∷ 0x1d7e2 ∷ 0x1d7ec
    ∷ 0x1d7f6 ∷ 0x1e140 ∷ 0x1e2f0 ∷ 0x1e950 ∷ 0x1fbf0 ∷ []

digit_among : List ℕ → ℕ → Option ℕ
digit_among [] c = none
digit_among (z ∷ zs) c = if leb z c && ltb c (z + 10) then some (c - z) else digit_among zs c

unfoldable pub digit : Char → Option ℕ
unfolding digit_among
digit c = digit_among digit_zeros (code c)

-- The number that begins with `n`, and the text behind it: `\d*` takes all the digits there are.
digits_from : ℕ → String → ℕ × String
digits_from n String.[] = (n, "")
digits_from n (String.◌∷◌ c s) = elim (digit c) [
  | none ↦ (n, String.◌∷◌ c s)
  | some d ↦ digits_from (n * 10 + d) s
]

-- `(\d+)` as the group's `int`, and the rest.
unfoldable pub number : String → Option (ℕ × String)
unfolding digit digits_from
number String.[] = none
number (String.◌∷◌ c s) = elim (digit c) [ none ↦ none | some d ↦ some (digits_from d s) ]

-- `(\d+)(?:,(\d+))?` with 1 for a missing count, and the rest.
unfoldable pub range : String → Option (ℕ × ℕ × String)
unfolding number strip_prefix
range s = elim (number s) [
  | none ↦ none
  | some (start, rest) ↦ elim (strip_prefix "," rest) [
    | none ↦ some (start, 1, rest)
    | some more ↦ elim (number more) [
      | none ↦ some (start, 1, rest)
      | some (count, after) ↦ some (start, count, after)
    ]
  ]
]

pub record Header : Type 0 where
  pub old_start : ℕ
  pub old_count : ℕ
  pub new_start : ℕ
  pub new_count : ℕ

-- `_HUNK.fullmatch(line)` and the four groups.
unfoldable pub hunk_header : String → Option Header
unfolding range
hunk_header line = elim (strip_prefix "@@ -" line) [
  | none ↦ none
  | some a ↦ elim (range a) [
    | none ↦ none
    | some (old_start, old_count, b) ↦ elim (strip_prefix " +" b) [
      | none ↦ none
      | some c ↦ elim (range c) [
        | none ↦ none
        | some (new_start, new_count, d) ↦
            if str_eq d " @@"
            then some (record {
              old_start = old_start;
              old_count = old_count;
              new_start = new_start;
              new_count = new_count;
            })
            else none
      ]
    ]
  ]
]

-- The line begins with a space, a plus or a minus.
unfoldable pub is_body_line : String → Bool
is_body_line String.[] = false
is_body_line (String.◌∷◌ c s) = code c == b' ' || code c == b'+' || code c == b'-'

-- `hunk_indices == [2]`
abbrev pub is_hunk : String → Bool
is_hunk line = starts_with line "@@"

abbrev pub is_prohibited : String → Bool
is_prohibited line = any (starts_with line) prohibited_prefixes

abbrev pub is_file_header : String → Bool
is_file_header line = starts_with line "--- " || starts_with line "+++ "

abbrev pub is_too_long : String → Bool
is_too_long line = ltb 500 (len line)

abbrev header_of : Option Header → Result Header
header_of none = err (patch_error "hunk header is invalid")
header_of (some h) = ok h

-- The checks on the lines of the payload, from the first two file lines on.
unfoldable pub parse_lines : String → List String → Result ValidatedPatch
parse_lines payload (old_file ∷ new_file ∷ header ∷ first ∷ rest) = do
  let body = first ∷ rest
  let lines = old_file ∷ new_file ∷ header ∷ body
  require (str_eq old_file "--- a/calculator.py" && str_eq new_file "+++ b/calculator.py")
      (patch_error "patch must update only calculator.py")
  raise_if (any is_prohibited lines) (patch_error "patch contains a prohibited Git operation")
  raise_if (any is_too_long lines) (patch_error "patch lines must be at most 500 characters")
  require
      (not (is_hunk old_file) && not (is_hunk new_file) && is_hunk header && not (any is_hunk body))
      (patch_error "patch must contain exactly one hunk")
  h ← header_of (hunk_header header)
  require (leb 1 h.old_start && leb 1 h.old_count && leb 1 h.new_start && leb 1 h.new_count)
      (patch_error "patch must modify existing lines")
  require (all is_body_line body) (patch_error "hunk body contains an invalid line")
  raise_if (any is_file_header body) (patch_error "patch must contain exactly one file")
  ok (record {
    raw = payload;
    target_path = "calculator.py";
    old_start = h.old_start;
    old_count = h.old_count;
    new_start = h.new_start;
    new_count = h.new_count;
    body = body;
  })
parse_lines payload _ = err (patch_error "patch is incomplete")

-- `ValidatedPatch.parse`
unfoldable pub parse : Value → Result ValidatedPatch
unfolding parse_lines
parse (str payload) = do
  raise_if (ltb 8192 (byte_length payload)) (patch_error "patch must be at most 8192 bytes")
  require
      (not (str_eq payload "")
        && not (contains 0 payload)
        && not (contains 13 payload)
        && ends_with_newline payload)
      (patch_error "patch must be NUL-free LF text ending with newline")
  parse_lines payload (splitlines payload)
parse _ = err (patch_error "patch must be UTF-8 text")
