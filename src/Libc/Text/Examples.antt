-- ===== src/Libc/Text/Examples.antt =====
-- The theorem on `strcat` at two short strings, and texts where the searches do otherwise than meant.
use gloworm.Prelude.{ℕ, suc, ◌<◌, ◌≡◌, ◌≢◌, refl, some, [], ◌∷◌, ◌==◌, if◌then◌else◌, arith}
use gloworm.Libc.Text.{strlen, strstr, memcmp, above}

nonzero : (n : ℕ) → suc n ≢ 0
nonzero n e = omega (arith, e)

abbrev hello : ℕ → ℕ
hello a = if a == 5 then 104 else if a == 6 then 105 else 0

two_characters : strlen (104 ∷ 105 ∷ []) < 3
unfolding strlen
two_characters = omega arith

-- "hi" is found in "h".
found_too_long : strstr (104 ∷ []) (104 ∷ 105 ∷ []) ≡ some (104 ∷ [])
unfolding strstr
found_too_long = refl

-- 0 compares as more than 255.
wrong_order : memcmp (λ a. if a == 0 then 0 else 255) 0 1 1 ≡ above
unfolding memcmp
wrong_order = refl
