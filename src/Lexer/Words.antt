-- ===== src/Lexer/Words.antt =====
-- identifier_or_keyword and number of src/lexer.cpp, `Lexer::make`, and the tables that they read.
pub mod Moves
use uinx.Prelude.{
  ℕ, Bool, true, false, ◌&&◌, ◌||◌, List, [], ◌∷◌, Bytes, codes, str_eq, find, is_digit, is_alnum,
  ◌==◌, ltb, if◌then◌else◌, Option, none, some,
}
use uinx.Diagnostic.{SourceRange}
use uinx.Token.{TokenKind, Token}
use uinx.Lexer.Cursor.{Cursor, peek, advance, advance_on, advance_while, text_between}

abbrev pub is_empty : Bytes → Bool
is_empty [] = true
is_empty (_ ∷ _) = false

abbrev pub range_of : Cursor → Cursor → SourceRange
range_of from to = record { begin = from.loc; end = to.loc }

-- `Lexer::make`: an empty text is replaced by the source between the two positions.
unfoldable pub make : TokenKind → Cursor → Cursor → Bytes → Token
make kind from to text = record {
  kind = kind;
  text = if is_empty text && ltb from.pos to.pos then text_between from to else text;
  range = range_of from to;
}

abbrev pub is_word : ℕ → Bool
is_word b = is_alnum b || b == b'_'

unfoldable pub keywords : List (Bytes × TokenKind)
keywords =
    (codes "fn", TokenKind.kw_fn)
    ∷ (codes "func", TokenKind.kw_fn)
    ∷ (codes "def", TokenKind.kw_fn)
    ∷ (codes "let", TokenKind.kw_let)
    ∷ (codes "val", TokenKind.kw_let)
    ∷ (codes "var", TokenKind.kw_var)
    ∷ (codes "mut", TokenKind.kw_mut)
    ∷ (codes "return", TokenKind.kw_return)
    ∷ (codes "if", TokenKind.kw_if)
    ∷ (codes "else", TokenKind.kw_else)
    ∷ (codes "elif", TokenKind.kw_else)
    ∷ (codes "while", TokenKind.kw_while)
    ∷ (codes "for", TokenKind.kw_for)
    ∷ (codes "in", TokenKind.kw_in)
    ∷ (codes "struct", TokenKind.kw_struct)
    ∷ (codes "enum", TokenKind.kw_enum)
    ∷ (codes "trait", TokenKind.kw_trait)
    ∷ (codes "impl", TokenKind.kw_impl)
    ∷ (codes "extend", TokenKind.kw_impl)
    ∷ (codes "with", TokenKind.kw_with)
    ∷ (codes "pub", TokenKind.kw_pub)
    ∷ (codes "public", TokenKind.kw_pub)
    ∷ (codes "unsafe", TokenKind.kw_unsafe)
    ∷ (codes "async", TokenKind.kw_async)
    ∷ (codes "await", TokenKind.kw_await)
    ∷ (codes "extern", TokenKind.kw_extern)
    ∷ (codes "const", TokenKind.kw_const)
    ∷ (codes "static", TokenKind.kw_static)
    ∷ (codes "move", TokenKind.kw_move)
    ∷ (codes "where", TokenKind.kw_where)
    ∷ (codes "as", TokenKind.kw_as)
    ∷ (codes "true", TokenKind.kw_true)
    ∷ (codes "false", TokenKind.kw_false)
    ∷ (codes "need", TokenKind.kw_need)
    ∷ (codes "dontneed", TokenKind.kw_dont_need)
    ∷ (codes "no_std", TokenKind.kw_dont_need)
    ∷ (codes "use", TokenKind.kw_use)
    ∷ (codes "mod", TokenKind.kw_mod)
    ∷ (codes "self", TokenKind.kw_self)
    ∷ (codes "Self", TokenKind.kw_self_ty)
    ∷ (codes "dyn", TokenKind.kw_dyn)
    ∷ (codes "asm", TokenKind.kw_asm)
    ∷ (codes "ref", TokenKind.kw_ref)
    ∷ (codes "mutref", TokenKind.kw_mut_ref)
    ∷ (codes "ptr", TokenKind.kw_ptr)
    ∷ (codes "mutptr", TokenKind.kw_mut_ptr)
    ∷ (codes "borrow", TokenKind.kw_borrow)
    ∷ (codes "deref", TokenKind.kw_deref)
    ∷ (codes "new", TokenKind.kw_new)
    ∷ (codes "scope", TokenKind.kw_scope)
    ∷ (codes "pass", TokenKind.kw_pass)
    ∷ (codes "break", TokenKind.kw_break)
    ∷ (codes "continue", TokenKind.kw_continue)
    ∷ (codes "loop", TokenKind.kw_loop)
    ∷ (codes "shared", TokenKind.kw_shared)
    ∷ (codes "percpu", TokenKind.kw_per_cpu)
    ∷ (codes "concurrent", TokenKind.kw_concurrent)
    ∷ (codes "smp", TokenKind.kw_smp)
    ∷ (codes "auto", TokenKind.kw_auto)
    ∷ (codes "manual", TokenKind.kw_manual)
    ∷ (codes "strict", TokenKind.kw_strict)
    ∷ (codes "fence", TokenKind.kw_fence)
    ∷ (codes "compiler_fence", TokenKind.kw_compiler_fence)
    ∷ []

abbrev keyword_or_identifier : Option TokenKind → TokenKind
keyword_or_identifier none = TokenKind.identifier
keyword_or_identifier (some k) = k

-- what `identifier_or_keyword` returns for the word read, the three operators that are words first
unfoldable pub word_token : Bytes → Cursor → Cursor → Token
unfolding make
word_token text from to =
    if str_eq text (codes "and")
    then make TokenKind.and_and from to (codes "&&")
    else if str_eq text (codes "or")
    then make TokenKind.or_or from to (codes "||")
    else if str_eq text (codes "not")
    then make TokenKind.bang from to (codes "!")
    else make (keyword_or_identifier (find text keywords)) from to text

unfoldable pub word_end : Cursor → Cursor
unfolding advance_while advance_on
word_end c = advance_while is_word (advance c)

-- `Lexer::identifier_or_keyword`, at a letter or an underscore
unfoldable pub identifier_or_keyword : Cursor → Token × Cursor
unfolding word_token word_end text_between
identifier_or_keyword c = (word_token (text_between c (word_end c)) c (word_end c), word_end c)

abbrev is_radix_mark : ℕ → Bool
is_radix_mark b = b == b'x' || b == b'X' || b == b'b' || b == b'B' || b == b'o' || b == b'O'

abbrev pub is_digit_or_bar : ℕ → Bool
is_digit_or_bar b = is_digit b || b == b'_'

unfoldable pub has_radix : Cursor → Bool
has_radix c = peek c 0 == b'0' && is_radix_mark (peek c 1)

-- `.` and a digit: the digits behind it, and that the number is a float
unfoldable pub fraction : Cursor → Bool × Cursor
unfolding advance_while advance_on
fraction c =
    if peek c 0 == b'.' && is_digit (peek c 1)
    then (true, advance_while is_digit_or_bar (advance c))
    else (false, c)

-- `e` or `E`, a sign that may be missing, and digits
unfoldable pub exponent : Cursor → Bool × Cursor
unfolding advance_while advance_on
exponent c =
    if peek c 0 == b'e' || peek c 0 == b'E'
    then (let signed =
          (if peek (advance c) 0 == b'+' || peek (advance c) 0 == b'-'
            then advance (advance c)
            else advance c) in
        (true, advance_while is_digit_or_bar signed))
    else (false, c)

unfoldable pub plain_number : Cursor → Bool × Cursor
unfolding fraction exponent
plain_number c =
    let whole = advance_while is_digit_or_bar c in
    let (dotted, c') = fraction whole in
    let (scaled, c'') = exponent c' in (dotted || scaled, advance_while is_word c'')

-- `Lexer::number`
unfoldable pub number : Cursor → Token × Cursor
unfolding has_radix make plain_number text_between
number c =
    if has_radix c
    then (let stop = advance_while is_word (advance (advance c)) in
        (make TokenKind.integer c stop [], stop))
    else (let (is_float, stop) = plain_number c in
        (make (if is_float then TokenKind.float else TokenKind.integer) c stop [], stop))
