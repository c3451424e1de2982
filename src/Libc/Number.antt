-- ===== src/Libc/Number.antt =====
-- src/libc/common/stdlib/atoi.c, strtol.c and itoa.c: numbers in text. An `int` and a `long` are
-- 32-bit words.
pub mod Print
pub mod Read
mod Examples
use gloworm.Prelude.{
  ℕ, zero, suc, ◌+◌, ◌-◌, ◌*◌, ◌/◌, ◌%◌, ◌^◌, Bool, true, false, not, ◌&&◌, ◌||◌, Option, none,
  some, List, [], ◌∷◌, ltb, leb, ◌==◌, if◌then◌else◌, update,
}
use gloworm.Libc.{char_at, after, between}

-- A word with the opposite sign.
abbrev pub negated : ℕ → ℕ
negated num = (2 ^ 32 - num) % 2 ^ 32

-- The space that `atoi` and `strtol` skip.
unfoldable pub is_blank : ℕ → Bool
is_blank c = c == 32 || c == 10 || c == 9 || c == 13

unfoldable pub skip_blanks : List ℕ → List ℕ
unfolding is_blank
skip_blanks [] = []
skip_blanks (c ∷ str) = let rest = skip_blanks str in if is_blank c then rest else c ∷ str

-- The loop of `atoi` over the digits.
unfoldable pub read_digits : List ℕ → ℕ → ℕ
read_digits [] num = num
read_digits (c ∷ str) num =
    let rest = read_digits str ((num * 10 + (c - 48)) % 2 ^ 32) in
    if between 48 57 c then rest else num

unfoldable pub atoi : List ℕ → ℕ
unfolding skip_blanks read_digits
atoi text =
    let str = skip_blanks text in
    if char_at str == 45 then negated (read_digits (after str) 0) else read_digits str 0

-- The digit that a character stands for; the base if it stands for none.
unfoldable pub digit_value : (base c : ℕ) → ℕ
digit_value base c =
    if between 48 57 c
    then c - 48
    else if between 65 90 c
    then c - 65 + 10
    else if between 97 122 c
    then c - 97 + 10
    else base

-- The loop of `strtol`: the number and the string where it stops.
unfoldable pub read_number : (base : ℕ) → List ℕ → ℕ → ℕ × List ℕ
unfolding digit_value
read_number base [] num = (num, [])
read_number base (c ∷ str) num =
    let b = digit_value base c in
    let rest = read_number base str ((num * base + b) % 2 ^ 32) in
    if leb base b then (num, c ∷ str) else rest

-- For a base from 1 to 127, which fits a `char`; the string is what `endptr` is set to.
unfoldable pub strtol : List ℕ → (base : ℕ) → ℕ × List ℕ
unfolding skip_blanks read_number
strtol text base =
    let str = skip_blanks text in
    if char_at str == 45
    then (let (num, rest) = read_number base (after str) 0 in (negated num, rest))
    else if char_at str == 48
    then if char_at (after str) == 120
      then read_number 16 (after (after str)) 0
      else read_number 8 (after str) 0
    else read_number base str 0

-- The character of a digit, a signed `char`.
unfoldable pub digit_char : ℕ → ℕ
digit_char digit = let c = (digit + 48) % 256 in if between 58 127 c then (c + 7) % 256 else c

-- The loop of `itoa_padded` over the digits, with the rounds left; the number of characters is
-- returned too.
unfoldable pub put_digits : ℕ → (num radix : ℕ) → (ℕ → ℕ) → (i : ℕ) → (ℕ → ℕ) × ℕ
unfolding digit_char
put_digits zero num radix buffer i = (buffer, i)
put_digits (suc rounds) num radix buffer i =
    let buffer' = update buffer i (digit_char (num % radix)) in
    let rest = put_digits rounds (num / radix) radix buffer' (i + 1) in
    if ltb 0 (num / radix) then rest else (buffer', i + 1)

-- The loop that fills the width, with the rounds that are left.
unfoldable pub put_padding : ℕ → (fill : ℕ) → (ℕ → ℕ) → (i : ℕ) → ℕ → ℕ
put_padding zero fill buffer i = buffer
put_padding (suc rounds) fill buffer i = put_padding rounds fill (update buffer i fill) (i + 1)

-- The loop that turns the characters from `j` to `i` around, with the rounds left.
unfoldable pub turn_around : ℕ → (ℕ → ℕ) → (j i : ℕ) → ℕ → ℕ
turn_around zero buffer j i = buffer
turn_around (suc rounds) buffer j i =
    let rest =
      turn_around rounds (update (update buffer j (buffer i)) i (buffer j)) (j + 1) (i - 1) in
    if ltb j i then rest else buffer

-- The number is a 32-bit word and the radix is not 0, or the source divides by 0; the buffer is a
-- memory at whose start it stands. A word has at most 32 digits if the radix is not 1.
unfoldable pub itoa_padded :
    (num : ℕ) → (buffer : ℕ → ℕ) → (radix width : ℕ) → (zeropad is_signed : Bool) → ℕ → ℕ
unfolding put_digits put_padding turn_around
itoa_padded num buffer radix width zeropad is_signed =
    let sign = is_signed && leb (2 ^ 31) num in
    let (digits, n) = put_digits 32 (if sign then negated num else num) radix buffer 0 in
    let signed_digits = if sign then update digits n 45 else digits in
    let i = if sign then n + 1 else n in
    let padded = put_padding (width - i) (if zeropad then 48 else 32) signed_digits i in
    let end = i + (width - i) in turn_around end (update padded end 0) 0 (end - 1)

unfoldable pub itoa : (num : ℕ) → (buffer : ℕ → ℕ) → (radix : ℕ) → ℕ → ℕ
unfolding itoa_padded
itoa num buffer radix = itoa_padded num buffer radix 0 false (radix == 10)
