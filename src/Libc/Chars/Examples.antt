-- ===== src/Libc/Chars/Examples.antt =====
-- The theorem on the bits of a word at one with zeros on both sides.
use gloworm.Prelude.{◌≡◌, refl, true}
use gloworm.Libc.Chars.{toupper, isxdigit}

upper_e : toupper 101 ≡ 69
unfolding toupper
upper_e = refl

hexadecimal_f : isxdigit 102 ≡ true
unfolding isxdigit
hexadecimal_f = refl
