-- ===== src/Optimizer/Numbers.antt =====
-- The numbers of src/mir_optimizer.cpp: a `std::int64_t` is its bit pattern, a number below 2 ^ 64.
-- `strtoll` with base 0 and `to_string` are those of the C and C++ standard libraries.
use uinx.Prelude.{
  ℕ, zero, suc, ◌+◌, ◌-◌, ◌*◌, ◌/◌, ◌%◌, Bool, ◌&&◌, ◌||◌, [], ◌∷◌, ◌++◌, Bytes, ◌==◌, ltb, leb,
  if◌then◌else◌, Option, none, some,
}

abbrev pub word_mod : ℕ
word_mod = 18_446_744_073_709_551_616

abbrev pub sign_bit : ℕ
sign_bit = 9_223_372_036_854_775_808

abbrev pub is_negative : ℕ → Bool
is_negative w = leb sign_bit w

-- the absolute value of a bit pattern, and the bit pattern of a negated one
abbrev pub magnitude : ℕ → ℕ
magnitude w = if is_negative w then word_mod - w else w

abbrev pub negate : ℕ → ℕ
negate m = (word_mod - m) % word_mod

-- the value of a digit; 36 for what is none
unfoldable pub digit_value : ℕ → ℕ
digit_value c =
    if leb b'0' c && leb c b'9'
    then c - b'0'
    else if leb b'a' c && leb c b'z'
    then c - b'a' + 10
    else if leb b'A' c && leb c b'Z'
    then c - b'A' + 10
    else 36

-- all of a text as digits of a base
unfoldable pub read_digits : ℕ → ℕ → Bytes → Option ℕ
unfolding digit_value
read_digits base acc [] = some acc
read_digits base acc (c ∷ cs) =
    if ltb (digit_value c) base then read_digits base (acc * base + digit_value c) cs else none

-- a text that may be empty is no number
unfoldable pub read_some : ℕ → Bytes → Option ℕ
unfolding read_digits
read_some base [] = none
read_some base (c ∷ cs) = read_digits base 0 (c ∷ cs)

-- base 0: a prefix `0x` or `0X` says 16, another leading 0 says 8
unfoldable pub read_unsigned : Bytes → Option ℕ
unfolding read_some
read_unsigned (c ∷ d ∷ cs) =
    if c == b'0'
    then (if d == b'x' || d == b'X' then read_some 16 cs else read_some 8 (c ∷ d ∷ cs))
    else read_some 10 (c ∷ d ∷ cs)
read_unsigned cs = read_some 10 cs

-- `strtoll` stops at the ends of the range
abbrev pub clamp_up : Option ℕ → Option ℕ
clamp_up none = none
clamp_up (some m) = some (if ltb m sign_bit then m else sign_bit - 1)

abbrev pub clamp_down : Option ℕ → Option ℕ
clamp_down none = none
clamp_down (some m) = some (negate (if ltb m sign_bit then m else sign_bit))

abbrev pub is_space : ℕ → Bool
is_space c = c == b' ' || (leb 9 c && leb c 13)

-- `strtoll(text, &end, 0)`, where it takes the whole text
unfoldable pub strtoll : Bytes → Option ℕ
unfolding read_unsigned
strtoll [] = none
strtoll (c ∷ cs) =
    if is_space c
    then strtoll cs
    else if c == b'-'
    then clamp_down (read_unsigned cs)
    else if c == b'+'
    then clamp_up (read_unsigned cs)
    else clamp_up (read_unsigned (c ∷ cs))

-- `c_str`: a text up to its first NUL byte
unfoldable pub c_str : Bytes → Bytes
c_str [] = []
c_str (c ∷ cs) = let rest = c_str cs in if c == 0 then [] else c ∷ rest

-- the decimal digits of a number, on fuel for each digit but the last
unfoldable pub decimal : ℕ → ℕ → Bytes
decimal zero n = (b'0' + n % 10) ∷ []
decimal (suc fuel) n =
    let front = decimal fuel (n / 10) in
    if ltb n 10 then (b'0' + n) ∷ [] else front ++ (b'0' + n % 10) ∷ []

-- `std::to_string(std::int64_t)`: 20 digits are enough
unfoldable pub to_string : ℕ → Bytes
unfolding decimal
to_string w = if is_negative w then b'-' ∷ decimal 20 (magnitude w) else decimal 20 w
