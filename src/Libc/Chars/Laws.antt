-- ===== src/Libc/Chars/Laws.antt =====
-- The bits that `clzsi2` and `ctzsi2` count.
use gloworm.Prelude.{
  ℕ, zero, suc, ◌+◌, ◌-◌, ◌*◌, ◌/◌, ◌%◌, ◌^◌, ◌<◌, ◌≤◌, ◌≡◌, refl, sym, ap, ◌∙◌, subst, ltb, ◌==◌,
  if◌then◌else◌, Bool-cases, inl, inr, arith,
}
use gloworm.Libc.Chars.{shift_left, clzsi2, shift_right, ffsdi2, ctzsi2}

-- A number doubled `z` times.
abbrev doubled : ℕ → ℕ → ℕ
doubled zero a = a
doubled (suc z) a = doubled z a * 2

doubled-pow : (z a : ℕ) → doubled z a ≡ a * 2 ^ z
doubled-pow zero a = omega arith
doubled-pow (suc z) a = grind (arith, doubled-pow z a)

doubled-add : (m z a : ℕ) → doubled (m + z) a ≡ doubled m (doubled z a)
doubled-add zero z a = ap (λ k. doubled k a) {x = 0 + z} {y = z} (omega arith)
doubled-add (suc m) z a =
    ap (λ k. doubled k a) {x = suc m + z} {y = suc (m + z)} (omega arith)
    ∙ ap (λ k. k * 2) (doubled-add m z a)

-- What the steps of `clzsi2` keep: the word is `a` doubled as often as is counted, and its top `n`
-- bits are not all zero.
record Shifted (a n : ℕ) (s : ℕ × ℕ) : Type 0 where
  zeros : ℕ
  counted : s.1 + zeros ≡ 32
  same : s.0 ≡ doubled zeros a
  large : 2 ^ (32 - n) ≤ s.0
  word : s.0 < 2 ^ 32
  left : n ≤ s.1

shift_left-Shifted :
    (n a : ℕ) (s : ℕ × ℕ)
    → ((x : ℕ)
        → x < 2 ^ (32 - n)
        → 2 ^ (32 - 2 * n) ≤ x
        → (x * 2 ^ n < 2 ^ 32) × (2 ^ (32 - n) ≤ x * 2 ^ n))
    → Shifted a (2 * n) s
    → Shifted a n (shift_left n s)
unfolding shift_left
shift_left-Shifted n a (b, index) scale s = elim (Bool-cases (ltb b (2 ^ (32 - n)))) [
  | inr e ↦ rw e (record {
    zeros = s.zeros;
    counted = s.counted;
    same = s.same;
    large = ground (arith, e);
    word = s.word;
    left = omega (arith, s.left);
  })
  | inl e ↦
      let (fits, big) = scale b (ground (arith, e)) s.large in
      let kept : b * 2 ^ n % 2 ^ 32 ≡ b * 2 ^ n = omega (arith, fits) in
      rw e (record {
        zeros = n + s.zeros;
        counted = omega (arith, s.counted, s.left);
        same =
            kept
            ∙ sym (doubled-pow n b)
            ∙ ap (λ k. doubled n k) s.same
            ∙ sym (doubled-add n s.zeros a);
        large = omega (arith, kept, big);
        word = omega (arith, kept, fits);
        left = omega (arith, s.left);
      })
]

last_bit :
    (a b zeros : ℕ)
    → b ≡ doubled zeros a
    → 2 ^ 30 ≤ b
    → b < 2 ^ 32
    → let z = if ltb b (2 ^ 31) then suc zeros else zeros in
      (2 ^ 31 ≤ a * 2 ^ z) × (a * 2 ^ z < 2 ^ 32)
last_bit a b zeros same large word = elim (Bool-cases (ltb b (2 ^ 31))) [
  | inr e ↦
      rw e (ground (arith, e, same, doubled-pow zeros a), omega (arith, same, doubled-pow zeros a))
  | inl e ↦ rw e (
    omega (arith, same, doubled-pow (suc zeros) a),
    ground (arith, e, same, doubled-pow (suc zeros) a),
  )
]

clzsi2_lem :
    (a : ℕ) → 0 < a → a < 2 ^ 32 → (2 ^ 31 ≤ a * 2 ^ clzsi2 a) × (a * 2 ^ clzsi2 a < 2 ^ 32)
unfolding clzsi2
clzsi2_lem a some_bit word =
    let s0 : Shifted a 32 (a, 32) = record {
      zeros = 0;
      counted = refl;
      same = refl;
      large = some_bit;
      word = word;
      left = omega arith;
    } in
    let s1 = shift_left-Shifted 16 a _ (λ x l m. (omega arith, omega arith)) s0 in
    let s2 = shift_left-Shifted 8 a _ (λ x l m. (omega arith, omega arith)) s1 in
    let s3 = shift_left-Shifted 4 a _ (λ x l m. (omega arith, omega arith)) s2 in
    let s4 = shift_left-Shifted 2 a _ (λ x l m. (omega arith, omega arith)) s3 in
    let (b, index) = shift_left 2 (shift_left 4 (shift_left 8 (shift_left 16 (a, 32)))) in
    subst (λ z. (2 ^ 31 ≤ a * 2 ^ z) × (a * 2 ^ z < 2 ^ 32))
      {x = if ltb b (2 ^ 31) then suc s4.zeros else s4.zeros}
      {y = 32 - (if ltb b (2 ^ 31) then index - 1 else index)} (ground (arith, s4.counted, s4.left))
      (last_bit a b s4.zeros s4.same s4.large s4.word)

-- What the steps of `ffsdi2` keep: `a` is the word doubled as often as is counted, and the low `n`
-- bits of the word are not all zero.
record Halved (a n : ℕ) (s : ℕ × ℕ) : Type 0 where
  same : a ≡ doubled s.1 s.0
  odd : 0 < s.0 % 2 ^ n

shift_right-Halved :
    (n a : ℕ) (s : ℕ × ℕ)
    → 0 < 2 ^ n
    → ((x : ℕ)
        → x % 2 ^ n ≡ 0
        → 0 < x % 2 ^ (2 * n)
        → (x / 2 ^ n * 2 ^ n ≡ x) × (0 < x / 2 ^ n % 2 ^ n))
    → Halved a (2 * n) s
    → Halved a n (shift_right n s)
unfolding shift_right
shift_right-Halved n a (b, index) positive scale s = elim (Bool-cases (b % 2 ^ n == 0)) [
  | inr e ↦ rw e (record { same = s.same; odd = ground (arith, e) })
  | inl e ↦
      let (exact, odd) = scale b (ground (arith, e)) s.odd in
      rw e (record {
        same =
            s.same
            ∙ ap (λ k. doubled index k) (sym exact ∙ sym (doubled-pow n (b / 2 ^ n)))
            ∙ sym (doubled-add index n (b / 2 ^ n));
        odd = odd;
      })
]

ctzsi2_lem : (a : ℕ) → 0 < a → a < 2 ^ 32 → (q : ℕ) × (a ≡ q * 2 ^ ctzsi2 a) × (q % 2 ≡ 1)
unfolding ctzsi2 ffsdi2
ctzsi2_lem a some_bit word =
    let s0 : Halved a 32 (a, 0) = record { same = refl; odd = omega arith } in
    let s1 = shift_right-Halved 16 a _ (omega arith) (λ x l m. (omega arith, omega arith)) s0 in
    let s2 = shift_right-Halved 8 a _ (omega arith) (λ x l m. (omega arith, omega arith)) s1 in
    let s3 = shift_right-Halved 4 a _ (omega arith) (λ x l m. (omega arith, omega arith)) s2 in
    let s4 = shift_right-Halved 2 a _ (omega arith) (λ x l m. (omega arith, omega arith)) s3 in
    let (b, index) = shift_right 2 (shift_right 4 (shift_right 8 (shift_right 16 (a, 0)))) in
    elim (Bool-cases (b % 2 == 0)) [
      | inr e ↦ rw e (b, s4.same ∙ doubled-pow index b, ground (arith, e))
      | inl e ↦ rw e (
        b / 2,
        s4.same
            ∙ ap (λ k. doubled index k) {x = b} {y = doubled 1 (b / 2)} (ground (arith, e))
            ∙ sym (doubled-add index 1 (b / 2))
            ∙ doubled-pow (index + 1) (b / 2),
        ground (arith, e, s4.odd),
      )
    ]

-- For every word but 0, `__clzsi2` is the number of leading zeros: with as many doublings the top
-- bit of the word is set, and none is lost. `__ctzsi2` is the number of trailing zeros: the word is
-- an odd number doubled as many times.
zeros_counted :
    (a : ℕ)
    → 0 < a
    → a < 2 ^ 32
    → ((2 ^ 31 ≤ a * 2 ^ clzsi2 a) × (a * 2 ^ clzsi2 a < 2 ^ 32))
      × ((q : ℕ) × (a ≡ q * 2 ^ ctzsi2 a) × (q % 2 ≡ 1))
zeros_counted a some_bit word = (clzsi2_lem a some_bit word, ctzsi2_lem a some_bit word)
