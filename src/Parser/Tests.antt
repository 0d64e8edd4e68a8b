-- ===== src/Parser/Tests.antt =====
-- Runs of the lexer and the parser on small sources, and the theorems at concrete inputs.
use uinx.Prelude.{
  Bool, ◌++◌, ap, ℕ, zero, suc, Bytes, codes, List, [], ◌∷◌, Option, none, some, map, ◌≡◌, refl,
  true,
}
use uinx.Token.{TokenKind, Token}
use uinx.Diagnostic.{Diagnostics, SourceRange}
use uinx.Lexer.Run.{lex}
use uinx.Types.FromAst.{TypeRef}
use uinx.Parser.Monad.{Parser, Parses, iterate_on, suite_round}
use uinx.Parser.Monad.Total.{Onward, Behind}
use uinx.Parser.Syntax.{ParsedModule, FunctionDecl, MarkerDecl, GlobalDecl, Expr, Stmt, Stmts}
use uinx.Parser.Expressions.{parse_expr}
use uinx.Parser.Expressions.Total.{parse_expr-Onward}
use uinx.Parser.Statements.{parse_stmt, parse_block}
use uinx.Parser.Statements.Total.{parse_stmt-Onward}
use uinx.Parser.Items.{struct_field, parse_marker, parse_global}
use uinx.Parser.Items.Functions.{Flags, parse_function}
use uinx.Parser.Items.Total.{parse_function-Behind}
use uinx.Parser.Items.Hangs.{at_kind, struct_loop-stuck}
use uinx.Parser.Modules.{module_round, parse_module, start_parser, empty_module}
use uinx.Parser.Types.{parse_type}
use uinx.Types.Printed.{type_ref_str}
use uinx.Parser.Modules.Requirements.{Consistent, parse_module-Consistent}
use uinx.Parser.Modules.Hangs.{at_dedent, module_loop-dedent}

abbrev started : Option (List Token × Diagnostics) → Option Parser
started (some (t ∷ ts, ds)) = some (start_parser t ts ds)
started _ = none

abbrev shown : {A : Type 0} → Option (A × Parser) → Option (A × List Bytes)
shown none = none
shown (some (a, s)) = some (a, map (λ d. d.code) s.diags)

abbrev run_on : {A : Type 0} → Parses A → Option Parser → Option (A × List Bytes)
run_on m none = none
run_on m (some s) = shown (m s)

-- an expression with a parenthesis around each operation
abbrev grouped : Expr → Bytes
grouped (Expr.name_expr n) = n
grouped (Expr.integer_expr n) = n
grouped (Expr.unary_expr op e) = codes "(" ++ (op ++ (grouped e ++ codes ")"))
grouped (Expr.cast_expr e (TypeRef.type_ref n args ps r m p q u)) =
    codes "(" ++ (grouped e ++ (codes " as " ++ (n ++ codes ")")))
grouped (Expr.binary_expr op l r) = codes "(" ++ (grouped l ++ (op ++ (grouped r ++ codes ")")))
grouped _ = codes "?"

abbrev groups : Option (Expr × List Bytes) → Option (Bytes × List Bytes)
groups none = none
groups (some (e, ds)) = some (grouped e, ds)

-- how the parser groups a text, and the codes of what it reports
abbrev groups_of : Bytes → Option (Bytes × List Bytes)
unfolding lex parse_expr
groups_of text = groups (run_on (parse_expr 0) (started (lex [] text [])))

groups-tighter : groups_of (codes "a + b * -c == d") ≡ some (codes "((a+(b*(-c)))==d)", [])
unfolding groups_of
groups-tighter = refl

groups-left : groups_of (codes "a - b - c") ≡ some (codes "((a-b)-c)", [])
unfolding groups_of
groups-left = refl

-- A cast ends the right operand, and what is left of the expression is read with a smaller
-- precedence than its operator has.
groups-cast : groups_of (codes "a + b as u8 * c") ≡ some (codes "((a+(b as u8))*c)", [])
unfolding groups_of
groups-cast = refl

-- `parse_module` does not end on a line that is indented and no part of an item.
module-dedent :
    (fuel : ℕ) → run_on (parse_module fuel []) (started (lex [] (codes "x\n  y\nz") [])) ≡ none
unfolding lex parse_module
module-dedent zero = refl
module-dedent (suc zero) = refl
module-dedent (suc (suc fuel)) = ap shown (module_loop-dedent fuel _ _ _ _ _)

abbrev here : SourceRange
here = record {
  begin = record { file = []; line = 1; column = 1; offset = 0 };
  end = record { file = []; line = 1; column = 1; offset = 0 };
}

abbrev word : TokenKind → Bytes → Token
word k text = record { kind = k; text = text; range = here }

-- `a < b`
abbrev compared : Parser
compared =
    start_parser (word TokenKind.identifier (codes "a"))
      (word TokenKind.less (codes "<")
        ∷ word TokenKind.identifier (codes "b")
        ∷ word TokenKind.end []
        ∷ [])
      []

parse_expr-Onward_example :
    (e : Expr) × (s' : Parser) × (parse_expr 0 compared ≡ some (e, s')) × Onward compared s'
parse_expr-Onward_example = parse_expr-Onward 0 compared refl

parse_stmt-Onward_example :
    ((t : Stmt) × (s' : Parser) × (parse_stmt compared ≡ some (t, s')) × Onward compared s')
    × ((ts : Stmts) × (s' : Parser) × (parse_block parse_stmt compared ≡ some (ts, s'))
        × Behind compared s')
parse_stmt-Onward_example = parse_stmt-Onward compared refl

module_loop-dedent_example :
    iterate_on 9 module_round (empty_module []) (at_dedent [] here (word TokenKind.end [] ∷ []) [])
    ≡ none
module_loop-dedent_example =
    module_loop-dedent 9 (empty_module []) [] here (word TokenKind.end [] ∷ []) []

struct_loop-stuck_example :
    iterate_on 9
      (suite_round true (struct_field true))
      []
      (at_kind TokenKind.r_paren (codes ")") here (word TokenKind.end [] ∷ []) [])
    ≡ none
struct_loop-stuck_example =
    struct_loop-stuck 9 TokenKind.r_paren refl [] (codes ")") here (word TokenKind.end [] ∷ []) []

parse_function-Behind_example :
    ((flags : Flags)
      → (f : FunctionDecl) × (s' : Parser) × (parse_function flags compared ≡ some (f, s'))
        × Behind compared s')
    × ((m : MarkerDecl) × (s' : Parser) × (parse_marker compared ≡ some (m, s'))
        × Behind compared s')
    × ((is_pub is_const is_static is_shared is_percpu : Bool)
        → (g : GlobalDecl) × (s' : Parser) × (parse_global is_pub is_const is_static is_shared
              is_percpu compared
            ≡ some (g, s'))
          × Behind compared s')
parse_function-Behind_example = parse_function-Behind compared refl

-- `need std`, twice
abbrev needs_std : Parser
needs_std =
    start_parser (word TokenKind.kw_need (codes "need"))
      (word TokenKind.identifier (codes "std")
        ∷ word TokenKind.newline []
        ∷ word TokenKind.kw_need (codes "need")
        ∷ word TokenKind.identifier (codes "std")
        ∷ word TokenKind.newline []
        ∷ word TokenKind.end []
        ∷ [])
      []

abbrev with_std : ParsedModule
with_std = record (empty_module []) { needs = codes "std" ∷ [] }

parse_module-Consistent_example : Consistent with_std
unfolding parse_module
parse_module-Consistent_example =
    parse_module-Consistent 9 [] needs_std (start_parser (word TokenKind.end []) [] []) with_std
      refl

abbrev printed_type : Option (TypeRef × List Bytes) → Option Bytes
printed_type none = none
printed_type (some (t, ds)) = some (type_ref_str t)

type_printed :
    printed_type
      (run_on parse_type (started (lex [] (codes "mutref ptr Vec[i32, Option[u8]]?") [])))
    ≡ some (codes "mutref ptr Vec[i32, Option[u8]]?")
unfolding lex parse_type type_ref_str
type_printed = refl
