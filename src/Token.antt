-- ===== src/Token.antt =====
-- include/uinx/token.hpp and token_name of src/lexer.cpp: the kinds of token, a token, and the name
-- of each kind.
pub mod Names
pub mod Kinds
use uinx.Prelude.{Bool, true, false, Bytes}
use uinx.Diagnostic.{SourceRange}

pub data TokenKind : Type 0 where
  end newline indent dedent identifier integer : TokenKind
  float string char kw_fn kw_let kw_var : TokenKind
  kw_mut kw_return kw_if kw_else kw_while kw_for : TokenKind
  kw_in kw_struct kw_enum kw_trait kw_impl kw_with : TokenKind
  kw_pub kw_unsafe kw_async kw_await kw_extern kw_const : TokenKind
  kw_static kw_move kw_where kw_as kw_true kw_false : TokenKind
  kw_need kw_dont_need kw_use kw_mod kw_self kw_self_ty : TokenKind
  kw_dyn kw_asm kw_ref kw_mut_ref kw_ptr kw_mut_ptr : TokenKind
  kw_borrow kw_deref kw_new kw_scope kw_pass kw_break : TokenKind
  kw_continue kw_loop kw_shared kw_per_cpu kw_concurrent kw_smp : TokenKind
  kw_auto kw_manual kw_strict kw_fence kw_compiler_fence l_paren : TokenKind
  r_paren l_brace r_brace l_bracket r_bracket comma : TokenKind
  dot colon semicolon colon_colon arrow fat_arrow : TokenKind
  plus minus star slash percent amp : TokenKind
  pipe caret bang tilde eq eq_eq : TokenKind
  bang_eq less less_eq greater greater_eq and_and : TokenKind
  or_or plus_eq minus_eq star_eq slash_eq amp_mut : TokenKind
  question dot_dot dot_dot_eq shift_left shift_right amp_eq : TokenKind
  pipe_eq caret_eq percent_eq shift_left_eq shift_right_eq : TokenKind

pub record Token : Type 0 where
  pub kind : TokenKind
  pub text : Bytes
  pub range : SourceRange
