-- ===== src/Libc/Number/Examples.antt =====
-- The theorems on numbers in text, and two texts where `strtol` or `itoa_padded` do otherwise.
use gloworm.Prelude.{ℕ, suc, ◌-◌, ◌^◌, ◌≡◌, ◌≢◌, refl, List, [], ◌∷◌, true, false, arith}
use gloworm.Libc.{HoldsText}
use gloworm.Libc.Number.{atoi, strtol, itoa_padded}
use gloworm.Libc.Number.Read.{atoi-itoa_padded, strtol-atoi}

atoi-itoa_padded_example :
    (text : List ℕ) × HoldsText (itoa_padded (2 ^ 32 - 42) (λ _. 7) 10 5 false true) 0 text
    × (atoi text ≡ 2 ^ 32 - 42)
atoi-itoa_padded_example = atoi-itoa_padded (2 ^ 32 - 42) 5 (λ _. 7) (omega arith)

strtol-atoi_example :
    (strtol (32 ∷ 45 ∷ 49 ∷ 55 ∷ 44 ∷ []) 10).0 ≡ atoi (32 ∷ 45 ∷ 49 ∷ 55 ∷ 44 ∷ [])
unfolding strtol
strtol-atoi_example = strtol-atoi (32 ∷ 45 ∷ 49 ∷ 55 ∷ 44 ∷ []) (λ e. omega (arith, e))

nonzero : (n : ℕ) → suc n ≢ 0
nonzero n e = omega (arith, e)

-- -5 in five places, padded with zeros: 000-5.
zeros_before_sign :
    HoldsText (itoa_padded (2 ^ 32 - 5) (λ _. 7) 10 5 true true) 0 (48 ∷ 48 ∷ 48 ∷ 45 ∷ 53 ∷ [])
unfolding itoa_padded
zeros_before_sign = (
  refl,
  nonzero 47,
  (refl, nonzero 47, (refl, nonzero 47, (refl, nonzero 44, (refl, nonzero 52, refl)))),
)

-- 09 in base 10 is read in base 8, which ends at the 9.
leading_zero : strtol (48 ∷ 57 ∷ []) 10 ≡ (0, 57 ∷ [])
unfolding strtol
leading_zero = refl
