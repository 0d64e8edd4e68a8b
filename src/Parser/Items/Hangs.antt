-- ===== src/Parser/Items/Hangs.antt =====
-- `parse_struct` of src/parser.cpp does not end at a token that no field takes.
use uinx.Prelude.{
  ℕ, zero, suc, ◌≡◌, refl, Bool, true, false, List, [], ◌∷◌, ◌++◌, Bytes, none, some,
}
use uinx.Diagnostic.{SourceRange, Diagnostics}
use uinx.Token.{TokenKind, Token}
use uinx.Token.Kinds.{token_is}
use uinx.Token.Names.{token_name}
use uinx.Parser.Monad.{
  Parser, again, iterate_on, at, iterate, skip_newlines, suite_round, unexpected, error_at, advance,
}
use uinx.Parser.Syntax.{FieldDecl}
use uinx.Parser.Types.{
  parse_type, parse_type_on, type_from, type_name, parse_prefixes, prefix_round, optional_arguments,
}
use uinx.Parser.Items.{struct_field}

-- the kinds that a field or the loop over fields takes
abbrev pub is_stuck : TokenKind → Bool
is_stuck TokenKind.newline = false
is_stuck TokenKind.r_brace = false
is_stuck TokenKind.end = false
is_stuck TokenKind.kw_pub = false
is_stuck TokenKind.kw_shared = false
is_stuck TokenKind.identifier = false
is_stuck TokenKind.kw_ptr = false
is_stuck TokenKind.colon = false
is_stuck TokenKind.kw_ref = false
is_stuck TokenKind.kw_mut_ref = false
is_stuck TokenKind.kw_mut_ptr = false
is_stuck TokenKind.amp_mut = false
is_stuck TokenKind.amp = false
is_stuck TokenKind.star = false
is_stuck TokenKind.kw_self_ty = false
is_stuck TokenKind.l_bracket = false
is_stuck TokenKind.less = false
is_stuck TokenKind.question = false
is_stuck TokenKind.comma = false
is_stuck TokenKind.semicolon = false
is_stuck _ = true

abbrev pub at_kind : TokenKind → Bytes → SourceRange → List Token → Diagnostics → Parser
at_kind k text r ts ds = record {
  now = record { kind = k; text = text; range = r };
  behind = ts;
  diags = ds;
}

-- A round reports errors, adds a field, and stays where it is.
StaysAt : TokenKind → Type 0
StaysAt k =
    (fields : List FieldDecl) (text : Bytes) (r : SourceRange) (ts : List Token) (ds : Diagnostics)
    → (f : FieldDecl) × (ds' : Diagnostics) × (suite_round true (struct_field true) fields
          (at_kind k text r ts ds)
        ≡ some (again (fields ++ f ∷ []), at_kind k text r ts ds'))

suite_round-stuck : (k : TokenKind) → is_stuck k ≡ true → StaysAt k
unfolding suite_round struct_field skip_newlines iterate iterate_on at token_is unexpected error_at
    advance token_name parse_type parse_type_on type_from type_name parse_prefixes prefix_round
    optional_arguments StaysAt
suite_round-stuck TokenKind.newline h = cc
suite_round-stuck TokenKind.r_brace h = cc
suite_round-stuck TokenKind.end h = cc
suite_round-stuck TokenKind.kw_pub h = cc
suite_round-stuck TokenKind.kw_shared h = cc
suite_round-stuck TokenKind.identifier h = cc
suite_round-stuck TokenKind.kw_ptr h = cc
suite_round-stuck TokenKind.colon h = cc
suite_round-stuck TokenKind.kw_ref h = cc
suite_round-stuck TokenKind.kw_mut_ref h = cc
suite_round-stuck TokenKind.kw_mut_ptr h = cc
suite_round-stuck TokenKind.amp_mut h = cc
suite_round-stuck TokenKind.amp h = cc
suite_round-stuck TokenKind.star h = cc
suite_round-stuck TokenKind.kw_self_ty h = cc
suite_round-stuck TokenKind.l_bracket h = cc
suite_round-stuck TokenKind.less h = cc
suite_round-stuck TokenKind.question h = cc
suite_round-stuck TokenKind.comma h = cc
suite_round-stuck TokenKind.semicolon h = cc
suite_round-stuck TokenKind.r_paren h = λ fields text r ts ds. (_, _, refl)
suite_round-stuck _ h = λ fields text r ts ds. (_, _, refl)

-- At a token that neither a field nor the loop over fields takes, such as `)`, the loop of
-- `parse_struct` between braces goes on for ever, whatever stands behind the token: no number of
-- rounds is enough.
pub struct_loop-stuck :
    (fuel : ℕ) (k : TokenKind)
    → is_stuck k ≡ true
    → (fields : List FieldDecl) (text : Bytes) (r : SourceRange) (ts : List Token)
      (ds : Diagnostics)
    → iterate_on fuel (suite_round true (struct_field true)) fields (at_kind k text r ts ds) ≡ none
unfolding iterate_on StaysAt
struct_loop-stuck zero k h fields text r ts ds = refl
struct_loop-stuck (suc fuel) k h fields text r ts ds =
    let (f, ds', e) = suite_round-stuck k h fields text r ts ds in
    rw e (struct_loop-stuck fuel k h (fields ++ f ∷ []) text r ts ds')
