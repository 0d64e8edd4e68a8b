-- ===== src/Token/Kinds.antt =====
-- The enumeration TokenKind of include/uinx/token.hpp as numbers, and equality of kinds.
use uinx.Prelude.{ℕ, Bool, ◌==◌}
use uinx.Token.{TokenKind}

-- the position of a kind in the enumeration
unfoldable pub ordinal : TokenKind → ℕ
ordinal TokenKind.end = 0
ordinal TokenKind.newline = 1
ordinal TokenKind.indent = 2
ordinal TokenKind.dedent = 3
ordinal TokenKind.identifier = 4
ordinal TokenKind.integer = 5
ordinal TokenKind.float = 6
ordinal TokenKind.string = 7
ordinal TokenKind.char = 8
ordinal TokenKind.kw_fn = 9
ordinal TokenKind.kw_let = 10
ordinal TokenKind.kw_var = 11
ordinal TokenKind.kw_mut = 12
ordinal TokenKind.kw_return = 13
ordinal TokenKind.kw_if = 14
ordinal TokenKind.kw_else = 15
ordinal TokenKind.kw_while = 16
ordinal TokenKind.kw_for = 17
ordinal TokenKind.kw_in = 18
ordinal TokenKind.kw_struct = 19
ordinal TokenKind.kw_enum = 20
ordinal TokenKind.kw_trait = 21
ordinal TokenKind.kw_impl = 22
ordinal TokenKind.kw_with = 23
ordinal TokenKind.kw_pub = 24
ordinal TokenKind.kw_unsafe = 25
ordinal TokenKind.kw_async = 26
ordinal TokenKind.kw_await = 27
ordinal TokenKind.kw_extern = 28
ordinal TokenKind.kw_const = 29
ordinal TokenKind.kw_static = 30
ordinal TokenKind.kw_move = 31
ordinal TokenKind.kw_where = 32
ordinal TokenKind.kw_as = 33
ordinal TokenKind.kw_true = 34
ordinal TokenKind.kw_false = 35
ordinal TokenKind.kw_need = 36
ordinal TokenKind.kw_dont_need = 37
ordinal TokenKind.kw_use = 38
ordinal TokenKind.kw_mod = 39
ordinal TokenKind.kw_self = 40
ordinal TokenKind.kw_self_ty = 41
ordinal TokenKind.kw_dyn = 42
ordinal TokenKind.kw_asm = 43
ordinal TokenKind.kw_ref = 44
ordinal TokenKind.kw_mut_ref = 45
ordinal TokenKind.kw_ptr = 46
ordinal TokenKind.kw_mut_ptr = 47
ordinal TokenKind.kw_borrow = 48
ordinal TokenKind.kw_deref = 49
ordinal TokenKind.kw_new = 50
ordinal TokenKind.kw_scope = 51
ordinal TokenKind.kw_pass = 52
ordinal TokenKind.kw_break = 53
ordinal TokenKind.kw_continue = 54
ordinal TokenKind.kw_loop = 55
ordinal TokenKind.kw_shared = 56
ordinal TokenKind.kw_per_cpu = 57
ordinal TokenKind.kw_concurrent = 58
ordinal TokenKind.kw_smp = 59
ordinal TokenKind.kw_auto = 60
ordinal TokenKind.kw_manual = 61
ordinal TokenKind.kw_strict = 62
ordinal TokenKind.kw_fence = 63
ordinal TokenKind.kw_compiler_fence = 64
ordinal TokenKind.l_paren = 65
ordinal TokenKind.r_paren = 66
ordinal TokenKind.l_brace = 67
ordinal TokenKind.r_brace = 68
ordinal TokenKind.l_bracket = 69
ordinal TokenKind.r_bracket = 70
ordinal TokenKind.comma = 71
ordinal TokenKind.dot = 72
ordinal TokenKind.colon = 73
ordinal TokenKind.semicolon = 74
ordinal TokenKind.colon_colon = 75
ordinal TokenKind.arrow = 76
ordinal TokenKind.fat_arrow = 77
ordinal TokenKind.plus = 78
ordinal TokenKind.minus = 79
ordinal TokenKind.star = 80
ordinal TokenKind.slash = 81
ordinal TokenKind.percent = 82
ordinal TokenKind.amp = 83
ordinal TokenKind.pipe = 84
ordinal TokenKind.caret = 85
ordinal TokenKind.bang = 86
ordinal TokenKind.tilde = 87
ordinal TokenKind.eq = 88
ordinal TokenKind.eq_eq = 89
ordinal TokenKind.bang_eq = 90
ordinal TokenKind.less = 91
ordinal TokenKind.less_eq = 92
ordinal TokenKind.greater = 93
ordinal TokenKind.greater_eq = 94
ordinal TokenKind.and_and = 95
ordinal TokenKind.or_or = 96
ordinal TokenKind.plus_eq = 97
ordinal TokenKind.minus_eq = 98
ordinal TokenKind.star_eq = 99
ordinal TokenKind.slash_eq = 100
ordinal TokenKind.amp_mut = 101
ordinal TokenKind.question = 102
ordinal TokenKind.dot_dot = 103
ordinal TokenKind.dot_dot_eq = 104
ordinal TokenKind.shift_left = 105
ordinal TokenKind.shift_right = 106
ordinal TokenKind.amp_eq = 107
ordinal TokenKind.pipe_eq = 108
ordinal TokenKind.caret_eq = 109
ordinal TokenKind.percent_eq = 110
ordinal TokenKind.shift_left_eq = 111
ordinal TokenKind.shift_right_eq = 112

-- `==` of two kinds
unfoldable pub token_is : TokenKind → TokenKind → Bool
unfolding ordinal
token_is a b = ordinal a == ordinal b
