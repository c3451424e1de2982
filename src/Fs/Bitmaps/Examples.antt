-- ===== src/Fs/Bitmaps/Examples.antt =====
-- The search at a block whose first byte is full, and a bitmap of eleven entries.
use gloworm.Prelude.{ℕ, ◌<◌, ◌≡◌, ◌⊎◌, refl, true, some, ◌==◌, if◌then◌else◌, arith, none}
use gloworm.Fs.Bitmaps.{bit_alloc, bitmap_init}
use gloworm.Fs.Bitmaps.Search.{First, in_use, bit_alloc-First}

abbrev first_full : ℕ → ℕ
first_full i = if i == 0 then 255 else 5

bit_alloc-First_example :
    ((n : ℕ) × (bytes' : ℕ → ℕ) × (bit_alloc (some first_full) 2 ≡ (n, some bytes'))
      × First first_full bytes' n 16)
    ⊎ ((bit_alloc (some first_full) 2 ≡ (0, some first_full))
        × ((k : ℕ) → k < 16 → in_use first_full k ≡ true))
bit_alloc-First_example = bit_alloc-First first_full 2 (λ j. ground arith)

-- The entries 8, 9 and 10 count as in use, and those behind the last one as free.
last_byte_turned :
    (elim (bitmap_init (some (λ _. 0)) 4 11 1) as (λ _. ℕ) [ none ↦ 0 | some block ↦ block 1 ]) ≡ 7
unfolding bitmap_init
last_byte_turned = refl
