-- ===== src/Net/Tcp/Slice.antt =====
-- The parts of a stream of bytes.
use gloworm.Prelude.{
  ℕ, zero, suc, ◌+◌, ◌-◌, ◌≡◌, refl, ap, ap₂, ◌∙◌, List, [], ◌∷◌, ◌++◌, length, drop, take, min,
  arith,
}

-- The `n` bytes of a stream from the sequence number `at` on.
abbrev pub slice : (stream : ℕ → ℕ) → (at n : ℕ) → List ℕ
slice stream at zero = []
slice stream at (suc n) = stream at ∷ slice stream (suc at) n

pub slice-++ :
    (stream : ℕ → ℕ) (at m n k : ℕ)
    → k ≡ at + m
    → slice stream at m ++ slice stream k n ≡ slice stream at (m + n)
slice-++ stream at zero n k e = ap₂ (slice stream) (omega (arith, e)) (omega arith)
slice-++ stream at (suc m) n k e =
    ap (λ l. stream at ∷ l) (slice-++ stream (suc at) m n k (omega (arith, e)))
    ∙ ap (λ x. slice stream at x) {x = suc (m + n)} {y = suc m + n} (omega arith)

pub length-slice : (stream : ℕ → ℕ) (at n : ℕ) → length (slice stream at n) ≡ n
length-slice stream at zero = refl
length-slice stream at (suc n) = ap suc (length-slice stream (suc at) n)

pub take-slice :
    (stream : ℕ → ℕ) (k at n : ℕ) → take k (slice stream at n) ≡ slice stream at (min n k)
take-slice stream zero at n = ap (λ x. slice stream at x) {x = 0} {y = min n 0} (omega arith)
take-slice stream (suc k) at zero =
    ap (λ x. slice stream at x) {x = 0} {y = min 0 (suc k)} (omega arith)
take-slice stream (suc k) at (suc n) =
    ap (λ l. stream at ∷ l) (take-slice stream k (suc at) n)
    ∙ ap (λ x. slice stream at x) {x = suc (min n k)} {y = min (suc n) (suc k)} (omega arith)

pub drop-slice :
    (stream : ℕ → ℕ) (k at n last : ℕ)
    → last ≡ at + k
    → drop k (slice stream at n) ≡ slice stream last (n - k)
drop-slice stream zero at n last e = ap₂ (slice stream) (omega (arith, e)) (omega arith)
drop-slice stream (suc k) at zero last e =
    ap (λ x. slice stream last x) {x = 0} {y = 0 - suc k} (omega arith)
drop-slice stream (suc k) at (suc n) last e =
    drop-slice stream k (suc at) n last (omega (arith, e))
    ∙ ap (λ x. slice stream last x) {x = n - k} {y = suc n - suc k} (omega arith)
