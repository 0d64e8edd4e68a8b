-- ===== src/Token/Names.antt =====
-- token_name of src/lexer.cpp.
use uinx.Prelude.{Bytes, codes}
use uinx.Token.{TokenKind}

unfoldable pub token_name : TokenKind → Bytes
token_name TokenKind.end = codes "End"
token_name TokenKind.newline = codes "Newline"
token_name TokenKind.indent = codes "Indent"
token_name TokenKind.dedent = codes "Dedent"
token_name TokenKind.identifier = codes "Identifier"
token_name TokenKind.integer = codes "Integer"
token_name TokenKind.float = codes "Float"
token_name TokenKind.string = codes "String"
token_name TokenKind.char = codes "Char"
token_name TokenKind.kw_fn = codes "KwFn"
token_name TokenKind.kw_let = codes "KwLet"
token_name TokenKind.kw_var = codes "KwVar"
token_name TokenKind.kw_mut = codes "KwMut"
token_name TokenKind.kw_return = codes "KwReturn"
token_name TokenKind.kw_if = codes "KwIf"
token_name TokenKind.kw_else = codes "KwElse"
token_name TokenKind.kw_while = codes "KwWhile"
token_name TokenKind.kw_for = codes "KwFor"
token_name TokenKind.kw_in = codes "KwIn"
token_name TokenKind.kw_struct = codes "KwStruct"
token_name TokenKind.kw_enum = codes "KwEnum"
token_name TokenKind.kw_trait = codes "KwTrait"
token_name TokenKind.kw_impl = codes "KwImpl"
token_name TokenKind.kw_with = codes "KwWith"
token_name TokenKind.kw_pub = codes "KwPub"
token_name TokenKind.kw_unsafe = codes "KwUnsafe"
token_name TokenKind.kw_async = codes "KwAsync"
token_name TokenKind.kw_await = codes "KwAwait"
token_name TokenKind.kw_extern = codes "KwExtern"
token_name TokenKind.kw_const = codes "KwConst"
token_name TokenKind.kw_static = codes "KwStatic"
token_name TokenKind.kw_move = codes "KwMove"
token_name TokenKind.kw_where = codes "KwWhere"
token_name TokenKind.kw_as = codes "KwAs"
token_name TokenKind.kw_true = codes "KwTrue"
token_name TokenKind.kw_false = codes "KwFalse"
token_name TokenKind.kw_need = codes "KwNeed"
token_name TokenKind.kw_dont_need = codes "KwDontNeed"
token_name TokenKind.kw_use = codes "KwUse"
token_name TokenKind.kw_mod = codes "KwMod"
token_name TokenKind.kw_self = codes "KwSelf"
token_name TokenKind.kw_self_ty = codes "KwSelfTy"
token_name TokenKind.kw_dyn = codes "KwDyn"
token_name TokenKind.kw_asm = codes "KwAsm"
token_name TokenKind.kw_ref = codes "KwRef"
token_name TokenKind.kw_mut_ref = codes "KwMutRef"
token_name TokenKind.kw_ptr = codes "KwPtr"
token_name TokenKind.kw_mut_ptr = codes "KwMutPtr"
token_name TokenKind.kw_borrow = codes "KwBorrow"
token_name TokenKind.kw_deref = codes "KwDeref"
token_name TokenKind.kw_new = codes "KwNew"
token_name TokenKind.kw_scope = codes "KwScope"
token_name TokenKind.kw_pass = codes "KwPass"
token_name TokenKind.kw_break = codes "KwBreak"
token_name TokenKind.kw_continue = codes "KwContinue"
token_name TokenKind.kw_loop = codes "KwLoop"
token_name TokenKind.kw_shared = codes "KwShared"
token_name TokenKind.kw_per_cpu = codes "KwPerCpu"
token_name TokenKind.kw_concurrent = codes "KwConcurrent"
token_name TokenKind.kw_smp = codes "KwSmp"
token_name TokenKind.kw_auto = codes "KwAuto"
token_name TokenKind.kw_manual = codes "KwManual"
token_name TokenKind.kw_strict = codes "KwStrict"
token_name TokenKind.kw_fence = codes "KwFence"
token_name TokenKind.kw_compiler_fence = codes "KwCompilerFence"
token_name TokenKind.l_paren = codes "LParen"
token_name TokenKind.r_paren = codes "RParen"
token_name TokenKind.l_brace = codes "LBrace"
token_name TokenKind.r_brace = codes "RBrace"
token_name TokenKind.l_bracket = codes "LBracket"
token_name TokenKind.r_bracket = codes "RBracket"
token_name TokenKind.comma = codes "Comma"
token_name TokenKind.dot = codes "Dot"
token_name TokenKind.colon = codes "Colon"
token_name TokenKind.semicolon = codes "Semicolon"
token_name TokenKind.colon_colon = codes "ColonColon"
token_name TokenKind.arrow = codes "Arrow"
token_name TokenKind.fat_arrow = codes "FatArrow"
token_name TokenKind.plus = codes "Plus"
token_name TokenKind.minus = codes "Minus"
token_name TokenKind.star = codes "Star"
token_name TokenKind.slash = codes "Slash"
token_name TokenKind.percent = codes "Percent"
token_name TokenKind.amp = codes "Amp"
token_name TokenKind.pipe = codes "Pipe"
token_name TokenKind.caret = codes "Caret"
token_name TokenKind.bang = codes "Bang"
token_name TokenKind.tilde = codes "Tilde"
token_name TokenKind.eq = codes "Eq"
token_name TokenKind.eq_eq = codes "EqEq"
token_name TokenKind.bang_eq = codes "BangEq"
token_name TokenKind.less = codes "Less"
token_name TokenKind.less_eq = codes "LessEq"
token_name TokenKind.greater = codes "Greater"
token_name TokenKind.greater_eq = codes "GreaterEq"
token_name TokenKind.and_and = codes "AndAnd"
token_name TokenKind.or_or = codes "OrOr"
token_name TokenKind.plus_eq = codes "PlusEq"
token_name TokenKind.minus_eq = codes "MinusEq"
token_name TokenKind.star_eq = codes "StarEq"
token_name TokenKind.slash_eq = codes "SlashEq"
token_name TokenKind.amp_mut = codes "AmpMut"
token_name TokenKind.question = codes "Question"
token_name TokenKind.dot_dot = codes "DotDot"
token_name TokenKind.dot_dot_eq = codes "DotDotEq"
token_name TokenKind.shift_left = codes "ShiftLeft"
token_name TokenKind.shift_right = codes "ShiftRight"
token_name TokenKind.amp_eq = codes "AmpEq"
token_name TokenKind.pipe_eq = codes "PipeEq"
token_name TokenKind.caret_eq = codes "CaretEq"
token_name TokenKind.percent_eq = codes "PercentEq"
token_name TokenKind.shift_left_eq = codes "ShiftLeftEq"
token_name TokenKind.shift_right_eq = codes "ShiftRightEq"
