-- ===== src/Utils/RingBuffer/Window.antt =====
-- The bytes of a ring in the order in which they come out.
use gloworm.Prelude.{
  ℕ, zero, suc, ◌+◌, ◌-◌, ◌≤◌, ◌<◌, ◌≡◌, ◌≢◌, refl, ap, ap₂, List, [], ◌∷◌, ◌++◌, arith, ltb,
  if◌then◌else◌, length, take, drop, update,
}
use gloworm.Utils.RingBuffer.{Ring, next, used_space}

-- The index that lies `n` steps behind `i`, for `n` up to the size of the ring.
abbrev pub walk : ℕ → ℕ → ℕ → ℕ
walk m i n = if ltb (i + n) m then i + n else i + n - m

module _ (buf : ℕ → ℕ) (m : ℕ) where
  -- `n` bytes from the index `i` on, going round at the end.
  unfoldable pub window : ℕ → ℕ → List ℕ
  window i zero = []
  window i (suc n) = buf i ∷ window (next m i) n

  pub length-window : (i n : ℕ) → length (window i n) ≡ n
  unfolding window
  length-window i zero = refl
  length-window i (suc n) = ap suc (length-window (next m i) n)

  pub window_of_pos : (i n : ℕ) → 0 < n → window i n ≡ buf i ∷ window (next m i) (n - 1)
  unfolding window
  window_of_pos i zero h = absurd (omega arith)
  window_of_pos i (suc n) h = ap (λ k. window i (suc k)) (omega arith)

  pub window-drop :
      (i n k : ℕ) → k ≤ n → i < m → n < m → drop k (window i n) ≡ window (walk m i k) (n - k)
  unfolding window
  window-drop i n zero h hi hn = ground arith
  window-drop i zero (suc k) h hi hn = absurd (omega arith)
  window-drop i (suc n) (suc k) h hi hn = ground (arith, window-drop (next m i) n k)

  pub window-take : (i n k : ℕ) → k ≤ n → take k (window i n) ≡ window i k
  unfolding window
  window-take i n zero h = refl
  window-take i zero (suc k) h = absurd (omega arith)
  window-take i (suc n) (suc k) h = ap (λ t. buf i ∷ t) (window-take (next m i) n k (omega arith))

-- A write outside a window leaves it alone.
pub window-update :
    (buf : ℕ → ℕ) (m i n j x : ℕ)
    → i < m
    → n < m
    → ((k : ℕ) → k < n → walk m i k ≢ j)
    → window (update buf j x) m i n ≡ window buf m i n
unfolding window
window-update buf m i zero j x hi hn h = refl
window-update buf m i (suc n) j x hi hn h = ap₂ ◌∷◌ (ground (arith, h 0)) (
    window-update buf m (next m i) n j x (ground arith) (omega arith)
      (λ k hk. ground (arith, h (suc k))))

-- Writing at the first index behind a window extends it.
pub window-snoc :
    (buf : ℕ → ℕ) (m i n j x : ℕ)
    → i < m
    → n < m
    → j ≡ walk m i n
    → window (update buf j x) m i (suc n) ≡ window buf m i n ++ x ∷ []
unfolding window
window-snoc buf m i zero j x hi hn e = ground arith
window-snoc buf m i (suc n) j x hi hn e =
    ap₂ ◌∷◌ (ground arith)
      (window-snoc buf m (next m i) n j x (ground arith) (omega arith) (ground arith))

-- What the ring holds, oldest byte first.
abbrev pub contents : Ring → List ℕ
contents cb = window cb.buffer cb.max cb.out (used_space cb)
