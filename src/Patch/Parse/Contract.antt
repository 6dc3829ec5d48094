-- ===== src/Patch/Parse/Contract.antt =====
-- The closed contract that an accepted patch meets.
use Prim.Native.String.{len as byte_length}
use mathlib.Core.Path.{subst, ◌∙◌}
use hermes_agentic_variation.Base.{
  ◌≤◌, String, Bool, true, false, not, ◌&&◌, ◌||◌, List, ◌∷◌, Option, none, some, ◌≡◌, refl, all,
  any, arith, str_eq, eq_iff, leb, ltb, contains,
}
use hermes_agentic_variation.Base.Result.{ok, >>=-eq-ok, require-ok, raise_if-ok, ok-injective}
use hermes_agentic_variation.Base.Value.{Value, str}
use hermes_agentic_variation.Patch.Lines.{splitlines, ends_with_newline}
use hermes_agentic_variation.Patch.Parse.{
  ValidatedPatch, Header, hunk_header, is_body_line, is_hunk, is_prohibited, is_file_header,
  is_too_long, header_of, parse_lines, parse,
}

-- What is known of an accepted patch, and of the text that it was read from.
pub record IsClosed (p : ValidatedPatch) : Type 0 where
  pub header_line : String
  pub header : Header
  pub raw_size : byte_length p.raw ≤ 8192
  pub no_nul : contains 0 p.raw ≡ false
  pub no_cr : contains 13 p.raw ≡ false
  pub newline : ends_with_newline p.raw ≡ true
  pub raw_lines :
      splitlines p.raw ≡ "--- a/calculator.py" ∷ "+++ b/calculator.py" ∷ header_line ∷ p.body
  pub header_read : hunk_header header_line ≡ some header
  pub as_header :
      (p.old_start ≡ header.old_start)
      × (p.old_count ≡ header.old_count)
      × (p.new_start ≡ header.new_start)
      × (p.new_count ≡ header.new_count)
  pub target : p.target_path ≡ "calculator.py"
  pub positive : (1 ≤ p.old_start) × (1 ≤ p.old_count) × (1 ≤ p.new_start) × (1 ≤ p.new_count)
  pub body_lines : all is_body_line p.body ≡ true
  pub one_hunk : any is_hunk p.body ≡ false
  pub one_file : any is_file_header p.body ≡ false
  pub no_git : any is_prohibited p.body ≡ false
  pub bounded : any is_too_long p.body ≡ false

header_of-ok : (o : Option Header) (h : Header) → header_of o ≡ ok h → o ≡ some h
header_of-ok none h e = cc
header_of-ok (some g) h e = cc

only_hunk : (a b c d : Bool) → (not a && not b && c && not d) ≡ true → d ≡ false
only_hunk a b c d h = ground arith

behind_three : (a b c d : Bool) → (a || (b || (c || d))) ≡ false → d ≡ false
behind_three a b c d h = ground arith

text_checks :
    (a b c d : Bool)
    → (not a && not b && not c && d) ≡ true
    → (b ≡ false) × (c ≡ false) × (d ≡ true)
text_checks a b c d h = ground arith

-- The checks on the lines, put together.
assemble :
    (payload old_file new_file line first : String) (rest : List String) (h : Header)
    (p : ValidatedPatch)
    → byte_length payload ≤ 8192
    → (not (str_eq payload "")
        && not (contains 0 payload)
        && not (contains 13 payload)
        && ends_with_newline payload)
      ≡ true
    → splitlines payload ≡ old_file ∷ new_file ∷ line ∷ first ∷ rest
    → (str_eq old_file "--- a/calculator.py" && str_eq new_file "+++ b/calculator.py") ≡ true
    → any is_prohibited (old_file ∷ new_file ∷ line ∷ first ∷ rest) ≡ false
    → any is_too_long (old_file ∷ new_file ∷ line ∷ first ∷ rest) ≡ false
    → (not (is_hunk old_file)
        && not (is_hunk new_file)
        && is_hunk line
        && not (any is_hunk (first ∷ rest)))
      ≡ true
    → hunk_header line ≡ some h
    → (leb 1 h.old_start && leb 1 h.old_count && leb 1 h.new_start && leb 1 h.new_count) ≡ true
    → all is_body_line (first ∷ rest) ≡ true
    → any is_file_header (first ∷ rest) ≡ false
    → record {
      raw = payload;
      target_path = "calculator.py";
      old_start = h.old_start;
      old_count = h.old_count;
      new_start = h.new_start;
      new_count = h.new_count;
      body = first ∷ rest;
    }
      ≡ p
    → IsClosed p
assemble payload old_file new_file line first rest h p size text split files git long hunk read pos
      body file e =
    let checked =
      text_checks (str_eq payload "") (contains 0 payload) (contains 13 payload) _ text in
    subst IsClosed e (record {
      header_line = line;
      header = h;
      raw_size = size;
      no_nul = checked.0;
      no_cr = checked.1;
      newline = checked.2;
      raw_lines = split ∙ file_lines;
      header_read = read;
      as_header = (refl, refl, refl, refl);
      target = refl;
      positive = ground arith;
      body_lines = body;
      one_hunk = only_hunk (is_hunk old_file) (is_hunk new_file) (is_hunk line) _ hunk;
      one_file = file;
      no_git =
          behind_three (is_prohibited old_file) (is_prohibited new_file) (is_prohibited line) _ git;
      bounded =
          behind_three (is_too_long old_file) (is_too_long new_file) (is_too_long line) _ long;
    })
  where
    file_lines :
        ◌≡◌ {A = List String}
          (old_file ∷ new_file ∷ line ∷ first ∷ rest)
          ("--- a/calculator.py" ∷ "+++ b/calculator.py" ∷ line ∷ first ∷ rest)
    file_lines =
        ground (arith, eq_iff old_file "--- a/calculator.py", eq_iff new_file "+++ b/calculator.py")

parse_lines-IsClosed :
    (payload : String) (lines : List String) (p : ValidatedPatch)
    → byte_length payload ≤ 8192
    → (not (str_eq payload "")
        && not (contains 0 payload)
        && not (contains 13 payload)
        && ends_with_newline payload)
      ≡ true
    → splitlines payload ≡ lines
    → parse_lines payload lines ≡ ok p
    → IsClosed p
unfolding parse_lines
parse_lines-IsClosed payload (old_file ∷ new_file ∷ line ∷ first ∷ rest) p size text split e =
    let (_, files, e1) = >>=-eq-ok _ _ e in
    let (_, git, e2) = >>=-eq-ok _ _ e1 in
    let (_, long, e3) = >>=-eq-ok _ _ e2 in
    let (_, hunk, e4) = >>=-eq-ok _ _ e3 in
    let (h, read, e5) = >>=-eq-ok _ _ e4 in
    let (_, pos, e6) = >>=-eq-ok _ _ e5 in
    let (_, body, e7) = >>=-eq-ok _ _ e6 in
    let (_, file, e8) = >>=-eq-ok _ _ e7 in
    assemble payload old_file new_file line first rest h p size text split (require-ok _ _ files)
      (raise_if-ok _ _ git) (raise_if-ok _ _ long) (require-ok _ _ hunk) (header_of-ok _ h read)
      (require-ok _ _ pos) (require-ok _ _ body) (raise_if-ok _ _ file) (ok-injective _ _ e8)
parse_lines-IsClosed payload _ p size text split h = cc

-- Every accepted patch meets the closed contract: its text has at most 8192 bytes and is the two
-- fixed file lines, one hunk header and the body; the header reads as the patch's starts and
-- counts, all at least one; every body line begins with a space, a plus or a minus, and none is a
-- second hunk, a second file, a prohibited Git line or longer than 500 characters.
pub parse-IsClosed : (payload : Value) (p : ValidatedPatch) → parse payload ≡ ok p → IsClosed p
unfolding parse
parse-IsClosed (str payload) p e =
    let (_, size, e1) = >>=-eq-ok _ _ e in
    let (_, text, e2) = >>=-eq-ok _ _ e1 in
    parse_lines-IsClosed payload (splitlines payload) p (small payload (raise_if-ok _ _ size))
      (require-ok _ _ text) refl e2
  where
    small : (s : String) → ltb 8192 (byte_length s) ≡ false → byte_length s ≤ 8192
    small s l = ground arith
parse-IsClosed _ p e = cc
