-- ===== src/Parser/Types/Total.antt =====
-- `parse_type` and the lists of src/parser.cpp end.
use uinx.Parser.Monad.Total.{Fine-iterate, Turns, Fine}
use uinx.Prelude.{
  ℕ, zero, suc, ◌<◌, ◌≡◌, refl, true, Bool-cases, inl, inr, List, [], ◌∷◌, ◌++◌, Bytes, codes,
  arith, false,
}
use uinx.Token.{TokenKind}
use uinx.Token.Kinds.{token_is}
use uinx.Types.FromAst.{TypeRef, TypeRefs, none_left}
use uinx.Parser.Monad.{Parser, Parses, again, finish, if_at, at, left}
use uinx.Parser.Monad.Total.{
  Lands, Past, Fine, Turns, fine, at-pos, Past-Behind, Fine-pure, Fine-weaken, Fine-if_both,
  Fine-zero, Fine-bind, Moving-bind, Turns-finish, Turns-bind, Fine-iterate, Moving-advance,
  Fine-expect, Fine-consume, Turns-if_consume, IsClosed, ends_in,
}
use uinx.Parser.Types.{
  prefix_round, parse_prefixes, type_name, separated, arguments_behind, arguments_of,
  optional_arguments, type_from, parse_type_on, parse_type, parse_type_arguments, refs_of,
}

module _ (n : ℕ) where
  Turns-prefix_round : (ps : List Bytes) → Turns n (prefix_round ps)
  unfolding prefix_round token_is
  Turns-prefix_round ps = search (Turns-if_consume, Turns-finish, fine) depth 40 fits 4000

  Fine-parse_prefixes : Fine n parse_prefixes
  unfolding parse_prefixes
  Fine-parse_prefixes = Fine-iterate n [] Turns-prefix_round

  Fine-type_name : Fine n type_name
  unfolding type_name
  Fine-type_name = search (fine) depth 20 fits 2000

  pub Fine-separated :
      {A : Type 0} (close : TokenKind) (element : Parses A)
      → Fine n element
      → Fine n (separated close element)
  unfolding separated token_is
  Fine-separated close element h = Fine-if_both n (close ∷ []) (Fine-pure n []) (
      Fine-iterate n [] λ as'. Turns-bind n h λ a.
        Turns-if_consume n TokenKind.comma refl
          (Fine-if_both n (close ∷ []) (Fine-pure n (finish (as' ++ a ∷ [])))
            (Fine-pure n (again (as' ++ a ∷ []))))
          (Turns-finish n (as' ++ a ∷ [])))

  pub Fine-arguments_behind :
      (element : Parses TypeRef) (close : TokenKind)
      → Fine n element
      → Fine n (arguments_behind element close)
  unfolding arguments_behind
  Fine-arguments_behind element close h = Fine-bind n (Fine-separated close element h) λ rs.
      Fine-bind n (Fine-expect n close (codes "end of generic argument list"))
        λ t. Fine-pure n (refs_of rs)

  -- Arguments stand behind a token that is consumed.
  pub Moving-arguments :
      (o c : TokenKind) (element : Parses TypeRef) (s : Parser)
      → at (o ∷ []) s ≡ true
      → Fine n element
      → IsClosed s
      → left s < suc n
      → 0 < left s
      → Lands (λ a. Past s) (arguments_of element o c s)
  unfolding arguments_of
  Moving-arguments o c element s there h closed lt pos = rw there (
      (Moving-bind n (Moving-advance (suc n)) λ t. Fine-arguments_behind element c h).run s closed
        lt pos)

  pub Fine-if_arguments :
      (o c : TokenKind) (element : Parses TypeRef) {k : Parses TypeRefs}
      → ends_in (o ∷ []) ≡ false
      → Fine n element
      → Fine (suc n) k
      → Fine (suc n) (if_at (o ∷ []) (arguments_of element o c) k)
  Fine-if_arguments o c element e h g = record {
    run = λ s closed lt. elim (Bool-cases (at (o ∷ []) s)) [
      | inl there ↦ rw there (
          Past-Behind (
            Moving-arguments o c element s there h closed lt
              (at-pos (o ∷ []) s false e there closed)))
      | inr other ↦ rw other (g.run s closed lt)
    ];
  }

  pub Fine-optional_arguments :
      (element : Parses TypeRef) → Fine n element → Fine (suc n) (optional_arguments element)
  unfolding optional_arguments token_is
  Fine-optional_arguments element h =
      Fine-if_arguments TokenKind.l_bracket TokenKind.r_bracket element refl h (
        Fine-if_arguments TokenKind.less TokenKind.greater element refl h
          (Fine-pure (suc n) none_left))

Fine-parse_type_on : (n : ℕ) → Fine n (parse_type_on n)
unfolding parse_type_on type_from
Fine-parse_type_on zero = Fine-zero 0
Fine-parse_type_on (suc n) = Fine-bind (suc n) (Fine-parse_prefixes (suc n)) λ ps.
    Fine-bind (suc n) (Fine-type_name (suc n)) λ name.
      Fine-bind (suc n) (Fine-optional_arguments n (parse_type_on n) (Fine-parse_type_on n)) λ args.
        Fine-bind (suc n) (Fine-consume (suc n) TokenKind.question) λ nullable. Fine-pure (suc n) _

pub Fine-parse_type : (n : ℕ) → Fine n parse_type
unfolding parse_type
Fine-parse_type n = record {
  run = λ s c lt. (Fine-parse_type_on (suc (left s))).run s c (omega arith);
}

module _ (n : ℕ) where
  pub Fine-parse_type_arguments : (o c : TokenKind) → Fine n (parse_type_arguments o c)
  unfolding parse_type_arguments arguments_of
  Fine-parse_type_arguments o c =
      Fine-bind n (Fine-expect n o (codes "generic argument list"))
        λ t. Fine-arguments_behind n parse_type c (Fine-parse_type n)

  pub Fine-type_arguments : Fine n (optional_arguments parse_type)
  Fine-type_arguments = Fine-weaken n (Fine-optional_arguments n parse_type (Fine-parse_type n))
