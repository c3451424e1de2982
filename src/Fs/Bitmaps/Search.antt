-- ===== src/Fs/Bitmaps/Search.antt =====
-- What `bit_alloc` finds: the first entry that is not in use.
use gloworm.Prelude.{
  ℕ, zero, suc, ◌+◌, ◌*◌, ◌/◌, ◌%◌, ◌^◌, ◌<◌, ◌≤◌, ◌≡◌, ◌≢◌, ◌⊎◌, inl, inr, refl, ap, ◌∙◌, subst,
  Bool, true, false, not, ◌||◌, Option, none, some, ltb, ◌==◌, Bool-cases, ==_iff, update, arith,
}
use Prim.Native.Nat.{bit_or}
use gloworm.Prelude.Bits.{bit_at, bit_and-pow, bit_at-or, bit_at-pow, bit_at-le}
use gloworm.Fs.Bitmaps.{first_clear, alloc_in, bit_alloc}

-- An entry of the bitmap is in use.
abbrev pub in_use : (ℕ → ℕ) → ℕ → Bool
in_use bytes n = not (bit_at (bytes (n / 8)) (n % 8) == 0)

-- All bits of a byte are set.
full_byte : (byte : ℕ) → byte < 256 → ((k : ℕ) → k < 8 → bit_at byte k ≡ 1) → byte ≡ 255
full_byte byte l h = omega (
  arith,
  h 0 (omega arith),
  h 1 (omega arith),
  h 2 (omega arith),
  h 3 (omega arith),
  h 4 (omega arith),
  h 5 (omega arith),
  h 6 (omega arith),
  h 7 (omega arith),
)

first_clear_lem :
    (rounds byte bit : ℕ)
    → bit + rounds ≡ 8
    → byte < 256
    → byte ≢ 255
    → ((k : ℕ) → k < bit → bit_at byte k ≡ 1)
    → let r = first_clear rounds byte bit in
      (r < 8) × (bit_at byte r ≡ 0) × ((k : ℕ) → k < r → bit_at byte k ≡ 1)
unfolding first_clear
first_clear_lem zero byte bit e l ne set =
    absurd (ne (full_byte byte l (λ k m. set k (omega (arith, e)))))
first_clear_lem (suc rounds) byte bit e l ne set = elim (Bool-cases (bit_at byte bit == 0)) [
  | inl z ↦ rw (bit_and-pow byte bit, z) (omega (arith, e), ground (arith, z), set)
  | inr z ↦
      rw (bit_and-pow byte bit, z)
        (first_clear_lem rounds byte (bit + 1) (omega (arith, e)) l ne (λ k m.
          elim (Bool-cases (k == bit)) [
            | inl x ↦
                ap (λ k. bit_at byte k) ((==_iff _ _).0 x) ∙ ground (arith, z, bit_at-le byte bit)
            | inr x ↦ set k (ground (arith, x))
          ]))
]

ones : (k : ℕ) → k < 8 → bit_at 255 k ≡ 1
ones zero l = refl
ones (suc zero) l = refl
ones (suc (suc zero)) l = refl
ones (suc (suc (suc zero))) l = refl
ones (suc (suc (suc (suc zero)))) l = refl
ones (suc (suc (suc (suc (suc zero))))) l = refl
ones (suc (suc (suc (suc (suc (suc zero)))))) l = refl
ones (suc (suc (suc (suc (suc (suc (suc zero))))))) l = refl
ones (suc (suc (suc (suc (suc (suc (suc (suc k)))))))) l = absurd (omega arith)

-- The entry `n` is the first one that is not in use, and has been taken.
pub record First (bytes bytes' : ℕ → ℕ) (n end : ℕ) : Type 0 where
  pub inside : n < end
  pub was_free : in_use bytes n ≡ false
  pub lowest : (k : ℕ) → k < n → in_use bytes k ≡ true
  pub taken : (k : ℕ) → in_use bytes' k ≡ ((n == k) || in_use bytes k)

abbrev pub Searched : (bytes : ℕ → ℕ) → (end : ℕ) → Option (ℕ × (ℕ → ℕ)) → Type 0
Searched bytes end none = (k : ℕ) → k < end → in_use bytes k ≡ true
Searched bytes end (some r) = First bytes r.1 r.0 end

full_in_use : (bytes : ℕ → ℕ) (i : ℕ) → bytes i ≡ 255 → (k : ℕ) → k / 8 ≡ i → in_use bytes k ≡ true
full_in_use bytes i full k at =
    let byte : bytes (k / 8) ≡ 255 = ap bytes at ∙ full in
    ground (arith, ones (k % 8) (omega arith), ap (λ b. bit_at b (k % 8)) byte)

in_use-set :
    (bytes : ℕ → ℕ) (i r k : ℕ)
    → r < 8
    → in_use (update bytes i (bit_or (bytes i) (2 ^ r))) k ≡ ((r + i * 8 == k) || in_use bytes k)
in_use-set bytes i r k l = elim (Bool-cases (k / 8 == i)) [
  | inr e ↦ rw e (ground (arith, e, l))
  | inl e ↦
      let at : k / 8 ≡ i = (==_iff _ _).0 e in
      rw (e, at)
        (ground (
          arith,
          e,
          l,
          bit_at-or (bytes i) (2 ^ r) (k % 8),
          bit_at-pow r (k % 8),
          bit_at-le (bytes i) (k % 8),
        ))
]

found :
    (bytes : ℕ → ℕ) (i end : ℕ)
    → bytes i < 256
    → bytes i ≢ 255
    → i * 8 + 8 ≤ end
    → ((k : ℕ) → k < i * 8 → in_use bytes k ≡ true)
    → let r = first_clear 8 (bytes i) 0 in
      First bytes (update bytes i (bit_or (bytes i) (2 ^ r))) (r + i * 8) end
found bytes i end l ne bound before =
    let r = first_clear 8 (bytes i) 0 in
    let (small, clear, set) =
      first_clear_lem 8 (bytes i) 0 refl l ne (λ k m. absurd (omega (arith, m))) in
    let byte : (r + i * 8) / 8 ≡ i = omega (arith, small) in
    let bit : (r + i * 8) % 8 ≡ r = omega (arith, small) in
    record {
      inside = omega (arith, small, bound);
      was_free = rw (byte, bit, clear) refl;
      lowest = λ k m. elim (Bool-cases (ltb k (i * 8))) [
        | inl e ↦ before k (ground (arith, e))
        | inr e ↦
            let here : k / 8 ≡ i = ground (arith, e, m, small) in
            let one : bit_at (bytes (k / 8)) (k % 8) ≡ 1 =
              ap (λ j. bit_at (bytes j) (k % 8)) here ∙ set (k % 8) (ground (arith, e, m, small)) in
            ground (arith, one)
      ];
      taken = λ k. in_use-set bytes i r k small;
    }

alloc_in-Searched :
    (rounds : ℕ) (bytes : ℕ → ℕ) (i : ℕ)
    → ((j : ℕ) → bytes j < 256)
    → ((k : ℕ) → k < i * 8 → in_use bytes k ≡ true)
    → Searched bytes ((i + rounds) * 8) (alloc_in rounds bytes i)
unfolding alloc_in
alloc_in-Searched zero bytes i l before = λ k m. before k (omega (arith, m))
alloc_in-Searched (suc rounds) bytes i l before = elim (Bool-cases (bytes i == 255)) [
  | inr e ↦
      rw e (
        found bytes i ((i + suc rounds) * 8) (l i) (λ x. ground (arith, e, x)) (omega arith) before)
  | inl e ↦ rw e (
      subst (λ end. Searched bytes (end * 8) (alloc_in rounds bytes (i + 1))) {x = i + 1 + rounds}
        {y = i + suc rounds} (omega arith)
        (alloc_in-Searched rounds bytes (i + 1) l (λ k m. elim (Bool-cases (ltb k (i * 8))) [
          | inl b ↦ before k (ground (arith, b))
          | inr b ↦ full_in_use bytes i ((==_iff _ _).0 e) k (ground (arith, b, m))
        ])))
]

-- Over a block of bytes, `bit_alloc` returns the first entry that is not in use, and takes it and
-- changes no other; or it returns 0 and leaves the block as it is, and all entries are in use.
pub bit_alloc-First :
    (bytes : ℕ → ℕ) (block_size : ℕ)
    → ((j : ℕ) → bytes j < 256)
    → ((n : ℕ) × (bytes' : ℕ → ℕ) × (bit_alloc (some bytes) block_size ≡ (n, some bytes'))
        × First bytes bytes' n (block_size * 8))
      ⊎ ((bit_alloc (some bytes) block_size ≡ (0, some bytes))
          × ((k : ℕ) → k < block_size * 8 → in_use bytes k ≡ true))
unfolding bit_alloc
bit_alloc-First bytes block_size l = cases (alloc_in block_size bytes 0) (
    subst (λ e. Searched bytes (e * 8) (alloc_in block_size bytes 0)) {x = 0 + block_size}
      {y = block_size} (omega arith)
      (alloc_in-Searched block_size bytes 0 l (λ k m. absurd (omega (arith, m)))))
  where
    cases :
        (r : Option (ℕ × (ℕ → ℕ)))
        → Searched bytes (block_size * 8) r
        → ((n : ℕ) × (bytes' : ℕ → ℕ) × ((elim r as (λ _. ℕ × Option (ℕ → ℕ)) [
          | none ↦ (0, some bytes)
          | some r ↦ (r.0, some r.1)
        ])
              ≡ (n, some bytes'))
            × First bytes bytes' n (block_size * 8))
          ⊎ (((elim r as (λ _. ℕ × Option (ℕ → ℕ)) [
            | none ↦ (0, some bytes)
            | some r ↦ (r.0, some r.1)
          ])
                ≡ (0, some bytes))
              × ((k : ℕ) → k < block_size * 8 → in_use bytes k ≡ true))
    cases none s = inr (refl, s)
    cases (some r) s = inl (r.0, r.1, refl, s)
