-- ===== src/Types/Printed.antt =====
-- `TypeRef::str` of src/parser.cpp.
use uinx.Prelude.{Bool, List, [], ◌∷◌, ◌++◌, Bytes, codes, str_eq, if◌then◌else◌}
use uinx.Types.FromAst.{TypeRef, TypeRefs, type_ref, none_left, one_more}

-- a prefix as a word
abbrev prefix_word : Bytes → Bytes
unfolding str_eq
prefix_word p =
    if str_eq p (codes "&")
    then codes "ref "
    else if str_eq p (codes "&mut")
    then codes "mutref "
    else if str_eq p (codes "*const")
    then codes "ptr "
    else if str_eq p (codes "*mut")
    then codes "mutptr "
    else p ++ codes " "

abbrev prefix_words : List Bytes → Bytes
unfolding prefix_word
prefix_words [] = []
prefix_words (p ∷ ps) = prefix_word p ++ prefix_words ps

-- the words in front of the name; the flags count only where there is no prefix
abbrev words_before : List Bytes → Bool → Bool → Bool → Bool → Bytes
unfolding prefix_words
words_before [] is_ref is_mut_ref is_raw_ptr raw_mut =
    (if is_ref then (if is_mut_ref then codes "mutref " else codes "ref ") else [])
    ++ (if is_raw_ptr then (if raw_mut then codes "mutptr " else codes "ptr ") else [])
words_before (p ∷ ps) is_ref is_mut_ref is_raw_ptr raw_mut = prefix_words (p ∷ ps)

unfoldable mutual
  unfolding words_before

  -- `TypeRef::str`
  pub type_ref_str : TypeRef → Bytes
  type_ref_str (type_ref name args prefixes is_ref is_mut_ref is_raw_ptr raw_mut nullable) =
      words_before prefixes is_ref is_mut_ref is_raw_ptr raw_mut
      ++ (name ++ (arguments_str args ++ (if nullable then codes "?" else [])))

  -- the arguments in brackets, where there are any
  pub arguments_str : TypeRefs → Bytes
  arguments_str none_left = []
  arguments_str (one_more t ts) = codes "[" ++ (type_ref_str t ++ (more_str ts ++ codes "]"))

  pub more_str : TypeRefs → Bytes
  more_str none_left = []
  more_str (one_more t ts) = codes ", " ++ (type_ref_str t ++ more_str ts)
