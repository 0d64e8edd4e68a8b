-- ===== src/Parser/Expressions/Scan.antt =====
-- The two scans ahead of src/parser.cpp, for a struct literal and for a call with type arguments.
use uinx.Prelude.{ℕ, ◌+◌, ◌-◌, Bool, true, false, ◌&&◌, ◌||◌, List, [], ◌∷◌, ◌==◌, any_of}
use uinx.Token.{TokenKind, Token}
use uinx.Token.Kinds.{token_is}
use uinx.Parser.Monad.{Parser, at}
use uinx.Parser.Syntax.{Expr, name_expr}

abbrev pub next_is : TokenKind → List Token → Bool
next_is k [] = false
next_is k (t ∷ ts) = token_is t.kind k

-- Whether `{` stands behind the `>` that closes the `<` at the front.
unfoldable pub scan_struct : ℕ → List Token → Bool
unfolding token_is
scan_struct depth [] = false
scan_struct depth (t ∷ ts) = elim (token_is t.kind TokenKind.less) [
  | true ↦ scan_struct (depth + 1) ts
  | false ↦ elim (token_is t.kind TokenKind.greater) [
    | true ↦ elim (depth == 1) [
      | true ↦ next_is TokenKind.l_brace ts
      | false ↦ scan_struct (depth - 1) ts
    ]
    | false ↦ elim (depth == 0) [ true ↦ false | false ↦ scan_struct depth ts ]
  ]
]

-- `struct_literal`, behind the name
unfoldable pub struct_literal_ahead : Parser → Bool
unfolding at scan_struct
struct_literal_ahead s =
    at (TokenKind.l_brace ∷ []) s
    || (at (TokenKind.less ∷ []) s && scan_struct 0 (s.now ∷ s.behind))

-- the kinds that end the scan for `<`
abbrev line_ends : List TokenKind
line_ends = TokenKind.newline ∷ TokenKind.colon ∷ TokenKind.dedent ∷ TokenKind.end ∷ []

-- Whether `(` stands behind what closes the bracket at the front.
unfoldable pub scan_call : TokenKind → TokenKind → ℕ → List Token → Bool
unfolding token_is
scan_call open' close depth [] = false
scan_call open' close depth (t ∷ ts) =
    elim (token_is open' TokenKind.less && any_of (token_is t.kind) line_ends) [
      | true ↦ false
      | false ↦ elim (token_is t.kind open') [
        | true ↦ scan_call open' close (depth + 1) ts
        | false ↦ elim (token_is t.kind close) [
          | true ↦ elim (depth == 1) [
            | true ↦ next_is TokenKind.l_paren ts
            | false ↦ scan_call open' close (depth - 1) ts
          ]
          | false ↦ scan_call open' close depth ts
        ]
      ]
    ]

abbrev pub is_name : Expr → Bool
is_name (name_expr n) = true
is_name _ = false

-- `generic_call`, for an opening bracket
unfoldable pub generic_call_ahead : TokenKind → TokenKind → Expr → Parser → Bool
unfolding at scan_call
generic_call_ahead open' close base s =
    at (open' ∷ []) s && (is_name base && scan_call open' close 0 (s.now ∷ s.behind))
