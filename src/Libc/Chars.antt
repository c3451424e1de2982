-- ===== src/Libc/Chars.antt =====
-- src/libc/common/ctype: the classes of characters; and src/libc/common/builtins, the bits that GCC
-- counts by calls.
pub mod Laws
mod Examples
use gloworm.Prelude.{
  ℕ, ◌+◌, ◌-◌, ◌*◌, ◌/◌, ◌%◌, ◌^◌, Bool, ◌&&◌, ◌||◌, ltb, leb, ◌==◌, if◌then◌else◌,
}
use gloworm.Libc.{between}

unfoldable pub isalnum : ℕ → Bool
isalnum c = between 65 90 c || between 97 122 c || between 48 57 c

unfoldable pub isalpha : ℕ → Bool
isalpha c = between 97 122 c || between 65 90 c

unfoldable pub iscntrl : ℕ → Bool
iscntrl c = between 0x00 0x1f c

unfoldable pub isdigit : ℕ → Bool
isdigit c = between 48 57 c

unfoldable pub isgraph : ℕ → Bool
isgraph c = between 0x21 0x7f c

unfoldable pub islower : ℕ → Bool
islower c = between 97 122 c

unfoldable pub isprint : ℕ → Bool
isprint c = between 0x20 0x7f c

unfoldable pub ispunct : ℕ → Bool
ispunct c = between 0x21 0x2f c || between 0x3a 0x40 c || between 0x5b 0x60 c || between 0x7b 0x7e c

unfoldable pub isspace : ℕ → Bool
isspace c = c == 32 || c == 9 || between 10 13 c

unfoldable pub isupper : ℕ → Bool
isupper c = between 65 90 c

unfoldable pub isxdigit : ℕ → Bool
isxdigit c = between 48 57 c || between 97 102 c || between 65 70 c

unfoldable pub tolower : ℕ → ℕ
tolower c = if between 65 90 c then c + 0x20 else c

unfoldable pub toupper : ℕ → ℕ
toupper c = if between 97 122 c then c - 0x20 else c

-- One step of `__clzsi2`: no bit above the low `32 - n` ones of the word is set. The word and the
-- count so far.
unfoldable pub shift_left : (n : ℕ) → ℕ × ℕ → ℕ × ℕ
shift_left n s =
    let (a, index) = s in
    if ltb a (2 ^ (32 - n)) then (a * 2 ^ n % 2 ^ 32, index - n) else (a, index)

-- The mask of the top `n` bits leaves nothing of a word just if the word is less than 2^(32 - n).
unfoldable pub clzsi2 : ℕ → ℕ
unfolding shift_left
clzsi2 a =
    let (b, index) = shift_left 2 (shift_left 4 (shift_left 8 (shift_left 16 (a, 32)))) in
    32 - (if ltb b (2 ^ 31) then index - 1 else index)

-- One step of `__ffsdi2`: the low `n` bits of the word are zero.
unfoldable pub shift_right : (n : ℕ) → ℕ × ℕ → ℕ × ℕ
shift_right n s =
    let (a, index) = s in if a % 2 ^ n == 0 then (a / 2 ^ n, index + n) else (a, index)

unfoldable pub ffsdi2 : ℕ → ℕ
unfolding shift_right
ffsdi2 a =
    let (b, index) = shift_right 2 (shift_right 4 (shift_right 8 (shift_right 16 (a, 0)))) in
    if b % 2 == 0 then index + 1 else index

unfoldable pub ctzsi2 : ℕ → ℕ
ctzsi2 a = ffsdi2 a
