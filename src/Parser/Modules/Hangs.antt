-- ===== src/Parser/Modules/Hangs.antt =====
-- `parse_module` of src/parser.cpp does not end at a `Dedent` between items.
use uinx.Prelude.{ℕ, zero, suc, ◌≡◌, refl, List, Bytes, codes, none, some}
use uinx.Diagnostic.{SourceRange, Diagnostics, report_error}
use uinx.Token.{TokenKind, Token}
use uinx.Token.Kinds.{token_is}
use uinx.Parser.Monad.{
  Parser, again, iterate_on, at, iterate, skip_newlines, synchronize_item, error_at,
}
use uinx.Parser.Syntax.{ParsedModule}
use uinx.Parser.Modules.{module_round, item_word, item_behind, plain_item, other_item, skip_item}

abbrev pub at_dedent : Bytes → SourceRange → List Token → Diagnostics → Parser
at_dedent text r ts ds = record {
  now = record { kind = TokenKind.dedent; text = text; range = r };
  behind = ts;
  diags = ds;
}

-- A round reports an error and stays where it is.
module_round-dedent :
    (m : ParsedModule) (text : Bytes) (r : SourceRange) (ts : List Token) (ds : Diagnostics)
    → module_round m (at_dedent text r ts ds)
      ≡ some (
        again m,
        at_dedent text r ts
            (report_error ds r (codes "E0102") (codes "expected a top-level declaration")),
      )
unfolding module_round item_word item_behind plain_item other_item skip_item iterate iterate_on at
    token_is skip_newlines synchronize_item error_at
module_round-dedent m text r ts ds = refl

-- Where the parser comes to a `Dedent` between two items, the loop of `parse_module` goes on for
-- ever, whatever stands behind the `Dedent`: no number of rounds is enough.
pub module_loop-dedent :
    (fuel : ℕ) (m : ParsedModule) (text : Bytes) (r : SourceRange) (ts : List Token)
    (ds : Diagnostics)
    → iterate_on fuel module_round m (at_dedent text r ts ds) ≡ none
unfolding iterate_on
module_loop-dedent zero m text r ts ds = refl
module_loop-dedent (suc fuel) m text r ts ds = rw (module_round-dedent m text r ts ds) (
    module_loop-dedent fuel m text r ts
      (report_error ds r (codes "E0102") (codes "expected a top-level declaration")))
