-- ===== src/Parser/Modules.antt =====
-- `parse_requirement`, `parse_smp_mode` and `parse_module` of src/parser.cpp.
pub mod Hangs
pub mod Requirements
use uinx.Prelude.{
  ℕ, Bool, true, false, ◌&&◌, ◌||◌, List, [], ◌∷◌, ◌++◌, Bytes, codes, str_eq, contains, Option,
  none, some, if◌then◌else◌,
}
use uinx.Diagnostic.{Diagnostics}
use uinx.Token.{TokenKind, Token}
use uinx.Parser.Monad.{
  Parser, Parses, Round, again, finish, pure, current, ◌>>=◌, ◌>>◌, at, if_at, if_consume, consume,
  advance, expect, unexpected, error_at, skip_newlines, finish_line, synchronize_item, iterate,
  iterate_on,
}
use uinx.Parser.Syntax.{Item, SmpMode, ParsedModule}
use uinx.Parser.Items.{parse_struct, parse_trait, parse_impl, parse_marker, parse_global, no_flags}
use uinx.Parser.Items.Functions.{Flags, parse_function}

abbrev pub is_empty : Bytes → Bool
is_empty [] = true
is_empty (c ∷ cs) = false

-- `parse_requirement_name`
unfoldable pub parse_requirement_name : Parses Bytes
unfolding iterate at advance unexpected error_at
parse_requirement_name =
    if_at (TokenKind.identifier ∷ [])
      (do
        t ← advance
        iterate
            (λ name.
              if_consume TokenKind.dot
                (do
                  part ← expect TokenKind.identifier (codes "component name after '.'")
                  pure (again (name ++ (codes "." ++ part.text))))
                (pure (finish name)))
            t.text)
      (if_at (TokenKind.string ∷ []) (do t ← advance; pure t.text)
        (do
          t ← current
          error_at t.range (codes "E0112") (codes "need/dontneed requires a component name")
          pure []))

abbrev pub add_name : Bytes → List Bytes → List Bytes
add_name n ns = if contains n ns then ns else ns ++ n ∷ []

-- the module with a component that is needed or disabled
unfoldable pub require : Bool → Bytes → ParsedModule → ParsedModule
unfolding contains str_eq
require true n m = record m {
  dontneeds = add_name n m.dontneeds;
  no_std = m.no_std || str_eq n (codes "std");
}
require false n m = record m { needs = add_name n m.needs }

-- what is not empty is added to the module, with an error where the opposite is in it
unfoldable pub add_requirement : Bool → Token → Bytes → ParsedModule → Parses ParsedModule
unfolding require contains error_at
add_requirement disabled directive name m = if is_empty name then pure m else (do
  if contains name (if disabled then m.needs else m.dontneeds)
      then error_at directive.range (codes "E0113")
          (codes "component '" ++ (name ++ codes "' cannot be both needed and disabled"))
      else pure tt
  pure (require disabled name m))

-- `parse_requirement`
unfoldable pub parse_requirement : Bool → ParsedModule → Parses ParsedModule
unfolding parse_requirement_name add_requirement finish_line str_eq advance
parse_requirement disabled m = do
  directive ← advance
  name ←
      if str_eq directive.text (codes "no_std") then pure (codes "std") else parse_requirement_name
  m' ← add_requirement disabled directive name m
  finish_line
  pure m'

-- `parse_smp_mode`
unfoldable pub parse_smp_mode : ParsedModule → Parses ParsedModule
unfolding finish_line at advance error_at
parse_smp_mode m = do
  advance
  m' ← if_consume TokenKind.kw_auto (pure (record m { smp_mode = SmpMode.auto })) (
      if_consume TokenKind.kw_manual (pure (record m { smp_mode = SmpMode.manual })) (
        if_consume TokenKind.kw_strict (pure (record m { smp_mode = SmpMode.strict })) (do
          t ← current
          error_at t.range (codes "E0114") (codes "smp expects auto, manual, or strict")
          pure m)))
  finish_line
  pure m'

-- the words before an item; `shared` and `percpu` belong to globals
pub record Words : Type 0 where
  pub flags : Flags
  pub is_shared : Bool
  pub is_percpu : Bool

abbrev pub no_words : Words
no_words = record { flags = no_flags; is_shared = false; is_percpu = false }

-- `extern`, with its name for the calling convention where there is one
unfoldable pub extern_word : Flags → Parses Flags
unfolding at advance
extern_word f =
    if_at (TokenKind.string ∷ [])
      (do t ← advance; pure (record f { is_extern = true; abi = t.text }))
      (pure (record f { is_extern = true; abi = codes "C" }))

unfoldable pub item_word : Words → Parses (Round Words Words)
unfolding extern_word at advance
item_word w =
    if_consume TokenKind.kw_pub
      (pure (again (record w { flags = record w.flags { is_pub = true } })))
      (if_consume TokenKind.kw_unsafe
        (pure (again (record w { flags = record w.flags { is_unsafe = true } })))
        (if_consume TokenKind.kw_async
          (pure (again (record w { flags = record w.flags { is_async = true } })))
          (if_consume TokenKind.kw_extern
            (do f ← extern_word w.flags; pure (again (record w { flags = f })))
            (if_consume TokenKind.kw_concurrent
              (pure (again (record w { flags = record w.flags { is_concurrent = true } })))
              (if_consume TokenKind.kw_shared (pure (again (record w { is_shared = true }))) (
                if_consume TokenKind.kw_per_cpu (pure (again (record w { is_percpu = true })))
                  (pure (finish w))))))))

-- an error and the way to the next item
unfoldable pub skip_item : Bytes → Bytes → ParsedModule → Parses ParsedModule
unfolding error_at synchronize_item
skip_item code message m = do t ← current; error_at t.range code message; synchronize_item; pure m

abbrev pub add_item : ParsedModule → Item → ParsedModule
add_item m i = record m { items = m.items ++ i ∷ [] }

abbrev pub at_marker : Parser → Bool
at_marker s =
    at (TokenKind.identifier ∷ []) s
    && (str_eq s.now.text (codes "send") || str_eq s.now.text (codes "sync"))

-- the last branches of the chain over items: markers and errors
unfoldable pub other_item : Words → ParsedModule → Parses ParsedModule
unfolding at str_eq parse_marker skip_item
other_item w m s =
    if at_marker s
    then (if w.flags.is_unsafe
          then (do i ← parse_marker; pure (add_item m (Item.marker_item i)))
          else skip_item (codes "E0116") (codes "send/sync safety markers require 'unsafe'") m)
        s
    else skip_item (codes "E0102") (codes "expected a top-level declaration") m s

-- the branches behind that for `extern`
unfoldable pub plain_item : Words → ParsedModule → Parses ParsedModule
unfolding parse_struct parse_trait parse_impl other_item skip_item at
plain_item w m =
    if w.flags.is_extern
    then skip_item (codes "E0101") (codes "extern currently requires a function declaration") m
    else if_at (TokenKind.kw_struct ∷ [])
        (do i ← parse_struct w.flags.is_pub; pure (add_item m (Item.struct_item i)))
        (if_at (TokenKind.kw_trait ∷ [])
          (do i ← parse_trait w.flags.is_pub; pure (add_item m (Item.trait_item i)))
          (if_at (TokenKind.kw_impl ∷ []) (do i ← parse_impl; pure (add_item m (Item.impl_item i)))
            (other_item w m)))

unfoldable pub global_item : Words → Bool → Bool → ParsedModule → Parses ParsedModule
unfolding parse_global
global_item w is_const is_static m = do
  i ← parse_global w.flags.is_pub is_const is_static w.is_shared w.is_percpu
  pure (add_item m (Item.global_item i))

-- an item behind its words
unfoldable pub item_behind : Words → ParsedModule → Parses ParsedModule
unfolding parse_function global_item plain_item at
item_behind w m =
    if_at (TokenKind.kw_fn ∷ [])
      (do i ← parse_function w.flags; pure (add_item m (Item.function_item i)))
      (if_at (TokenKind.kw_const ∷ []) (global_item w true false m) (
        if_at (TokenKind.kw_static ∷ []) (global_item w false true m) (
          if w.is_shared || w.is_percpu
          then if_at (TokenKind.kw_var ∷ TokenKind.kw_let ∷ []) (global_item w false false m)
              (plain_item w m)
          else plain_item w m)))

-- a round of the loop of `parse_module`
unfoldable pub module_round : ParsedModule → Parses (Round ParsedModule ParsedModule)
unfolding iterate item_word item_behind parse_requirement parse_smp_mode skip_newlines at
module_round m = if_at (TokenKind.end ∷ []) (pure (finish m)) (
    if_at (TokenKind.kw_need ∷ []) (do m' ← parse_requirement false m; pure (again m'))
      (if_at (TokenKind.kw_dont_need ∷ []) (do m' ← parse_requirement true m; pure (again m'))
        (if_at (TokenKind.kw_smp ∷ []) (do m' ← parse_smp_mode m; pure (again m'))
          (do
            w ← iterate item_word no_words
            m' ← item_behind w m
            skip_newlines
            pure (again m')))))

abbrev pub empty_module : Bytes → ParsedModule
empty_module file = record {
  file = file;
  no_std = false;
  smp_mode = SmpMode.auto;
  needs = [];
  dontneeds = [];
  items = [];
}

-- `parse_module`, on fuel: not every round moves to another token
unfoldable pub parse_module : ℕ → Bytes → Parses ParsedModule
unfolding iterate_on module_round skip_newlines
parse_module fuel file = skip_newlines >> iterate_on fuel module_round (empty_module file)

-- `Parser::Parser`
abbrev pub start_parser : Token → List Token → Diagnostics → Parser
start_parser t ts ds = record { now = t; behind = ts; diags = ds }
