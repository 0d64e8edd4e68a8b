-- ===== src/Lexer/Layout/Nesting.antt =====
-- The indentation stack and the `Indent` and `Dedent` tokens go together.
use uinx.Prelude.{
  Option-cases, if_keeps, ℕ, zero, suc, ◌<◌, true, List, [], ◌∷◌, ◌++◌, ◌≡◌, refl, ◌∙◌, arith, ltb,
  Option, none, some, Bool-cases, inl, inr,
}
use uinx.Diagnostic.{SourceRange}
use uinx.Token.{TokenKind, Token}
use uinx.Lexer.Layout.{Lexer, layout_token, back, close_blocks, indent_to, emit_newline}
use uinx.Lexer.Words.Moves.{is_plain}

-- how a token changes the number of open blocks; the end of the source is no token within it
abbrev pub nest_step : TokenKind → ℕ → Option ℕ
nest_step TokenKind.indent n = some (suc n)
nest_step TokenKind.dedent zero = none
nest_step TokenKind.dedent (suc n) = some n
nest_step TokenKind.end n = none
nest_step _ n = some n

-- The number of open blocks behind the tokens, from `n` open ones; nothing where a `Dedent` closes
-- no block.
unfoldable pub nesting : ℕ → List Token → Option ℕ
nesting n [] = some n
nesting n (t ∷ ts) = elim (nest_step t.kind n) [ none ↦ none | some m ↦ nesting m ts ]

pub nesting-append :
    (n : ℕ) (xs ys : List Token) {m : ℕ}
    → nesting n xs ≡ some m
    → nesting n (xs ++ ys) ≡ nesting m ys
unfolding nesting
nesting-append n [] ys {m} h = let e : n ≡ m = cc in rw e
nesting-append n (x ∷ xs) ys {m} h = elim (Option-cases (nest_step x.kind n)) [
  | inl e ↦ cc (rw (e, nesting) at h)
  | inr (k, e) ↦ rw (e, nesting) (nesting-append k xs ys {m = m} (rw (e, nesting) at h))
]

-- one more token
pub nesting-push :
    (n : ℕ) (xs : List Token) (t : Token) {m k : ℕ}
    → nesting n xs ≡ some m
    → nest_step t.kind m ≡ some k
    → nesting n (xs ++ t ∷ []) ≡ some k
nesting-push n xs t {m} {k} h e = nesting-append n xs (t ∷ []) h ∙ unfold nesting in rw (e, nesting)

pub nest_step-plain : (k : TokenKind) (n : ℕ) → is_plain k ≡ true → nest_step k n ≡ some n
nest_step-plain TokenKind.end n h = cc
nest_step-plain TokenKind.newline n h = cc
nest_step-plain TokenKind.indent n h = cc
nest_step-plain TokenKind.dedent n h = cc
nest_step-plain _ n h = refl

-- The stack is never empty, 0 is at its bottom, and widths grow strictly towards the back.
abbrev pub IsIndents : List ℕ → Type 0
IsIndents [] = ⊥
IsIndents (w ∷ []) = w ≡ 0
IsIndents (w ∷ v ∷ ws) = (v < w) × IsIndents (v ∷ ws)

-- the number of open blocks
abbrev pub block_count : List ℕ → ℕ
block_count [] = 0
block_count (w ∷ []) = 0
block_count (w ∷ v ∷ ws) = suc (block_count (v ∷ ws))

-- The tokens open as many blocks as the stack holds.
abbrev pub Agrees : List ℕ → List Token → Type 0
Agrees ws out = IsIndents ws × (nesting 0 out ≡ some (block_count ws))

pub push-Agrees :
    (ws : List ℕ) (out : List Token) (t : Token)
    → is_plain t.kind ≡ true
    → Agrees ws out
    → Agrees ws (out ++ t ∷ [])
push-Agrees ws out t p (i, a) = (i, nesting-push 0 out t a (nest_step-plain t.kind _ p))

open_block-Agrees :
    (ws : List ℕ) (out : List Token) (width : ℕ) (r : SourceRange)
    → back ws < width
    → Agrees ws out
    → Agrees (width ∷ ws) (out ++ layout_token TokenKind.indent [] r ∷ [])
open_block-Agrees [] out width r h (i, a) = absurd i
open_block-Agrees (w ∷ ws) out width r h (i, a) =
    ((h, i), nesting-push 0 out (layout_token TokenKind.indent [] r) a refl)

pub close_block-Agrees :
    (w v : ℕ) (ws : List ℕ) (out : List Token) (r : SourceRange)
    → Agrees (w ∷ v ∷ ws) out
    → Agrees (v ∷ ws) (out ++ layout_token TokenKind.dedent [] r ∷ [])
close_block-Agrees w v ws out r (i, a) =
    (i.1, nesting-push 0 out (layout_token TokenKind.dedent [] r) a refl)

pub close_blocks-Agrees :
    (width : ℕ) (r : SourceRange) (ws : List ℕ) (out : List Token)
    → Agrees ws out
    → Agrees (close_blocks width r ws out).0 (close_blocks width r ws out).1
unfolding close_blocks
close_blocks-Agrees width r [] out h = h
close_blocks-Agrees width r (w ∷ []) out h = h
close_blocks-Agrees width r (w ∷ v ∷ ws) out h = elim (Bool-cases (ltb width w)) [
  | inl lt ↦
      rw (lt, close_blocks)
        (close_blocks-Agrees width r (v ∷ ws) _ (close_block-Agrees w v ws out r h))
  | inr ge ↦ rw (ge, close_blocks) h
]

pub indent_to-Agrees :
    (width : ℕ) (r : SourceRange) (s : Lexer)
    → Agrees s.indent_stack s.out
    → Agrees (indent_to width r s).indent_stack (indent_to width r s).out
unfolding indent_to
indent_to-Agrees width r s h = elim (Bool-cases (ltb (back s.indent_stack) width)) [
  | inl lt ↦ rw lt (open_block-Agrees s.indent_stack s.out width r (ground (arith, lt)) h)
  | inr ge ↦ elim (Bool-cases (ltb width (back s.indent_stack))) [
    | inl lt ↦ rw (ge, lt) (close_blocks-Agrees width r s.indent_stack s.out h)
    | inr eq ↦ rw (ge, eq) h
  ]
]

pub emit_newline-Agrees :
    (ws : List ℕ) (r : SourceRange) (depth : ℕ) (out : List Token)
    → Agrees ws out
    → Agrees ws (emit_newline r depth out)
unfolding emit_newline
emit_newline-Agrees ws r depth out h =
    if_keeps (Agrees ws) _ h (if_keeps (Agrees ws) _ (h.0, nesting-push 0 out _ h.1 refl) h)
