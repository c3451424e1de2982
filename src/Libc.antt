-- ===== src/Libc.antt =====
-- src/libc/common: the C library that the kernel and the commands share. A string that is only read
-- is the list of the codes in front of its terminator; `*str` is `char_at` of it and `str + 1` is
-- `after`. A string that is written is a memory from addresses to codes.
pub mod Time
pub mod Number
pub mod Text
pub mod Chars
use gloworm.Prelude.{ℕ, suc, ◌+◌, ◌≡◌, ◌≢◌, List, [], ◌∷◌, Bool, ◌&&◌, ◌||◌, ◌==◌, leb}

abbrev pub char_at : List ℕ → ℕ
char_at [] = 0
char_at (c ∷ str) = c

abbrev pub after : List ℕ → List ℕ
after [] = []
after (c ∷ str) = str

abbrev pub between : (low high c : ℕ) → Bool
between low high c = leb low c && leb c high

-- The string that stands in memory from `at` on, with its terminator.
abbrev pub HoldsText : (memory : ℕ → ℕ) → ℕ → List ℕ → Type 0
HoldsText memory at [] = memory at ≡ 0
HoldsText memory at (c ∷ str) = (memory at ≡ c) × (c ≢ 0) × HoldsText memory (at + 1) str
