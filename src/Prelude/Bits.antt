-- ===== src/Prelude/Bits.antt =====
-- The single bits of a word, and what `bit_and` and `bit_or` do to them.
use Prim.Native.Nat.{
  ℕ, zero, suc, ◌+◌, ◌-◌, ◌*◌, ◌/◌, ◌%◌, ◌^◌, ◌≤◌, ◌<◌, min, max, digits, bit_and, bit_or,
  bit_and-bitwise, bit_or-bitwise,
}
use mathlib.Core.Path.{◌≡◌, refl, sym, ap, ◌∙◌}
use mathlib.Core.Logic.{inl, inr}
use mathlib.Core.Bool.{Bool, true, false}
use native.Mathlib.Nat.{div-div-eq-div-mul}
use native.Mathlib.Omega.{arith}
use gloworm.Prelude.Tests.{◌==◌, if◌then◌else◌, ==_iff, Bool-cases}

-- The bit `i` of a word.
abbrev pub bit_at : ℕ → ℕ → ℕ
bit_at w i = w / 2 ^ i % 2

pub bit_at-suc : (w i : ℕ) → bit_at w (suc i) ≡ bit_at (w / 2) i
bit_at-suc w i =
    ap (λ d. d % 2) (ap (λ e. w / e) (omega arith) ∙ sym (div-div-eq-div-mul w 2 (2 ^ i)))

pub bit_at-zero : (w : ℕ) → bit_at w 0 ≡ w % 2
bit_at-zero w = omega arith

pub zero_bit : (i : ℕ) → bit_at 0 i ≡ 0
zero_bit zero = refl
zero_bit (suc i) = bit_at-suc 0 i ∙ zero_bit i

-- A bitwise operation with enough rounds works on each bit by itself.
and_rounds :
    (n a b i : ℕ) → a ≤ n → bit_at (digits (λ b. zero) min n a b) i ≡ min (bit_at a i) (bit_at b i)
and_rounds zero zero b i h = zero_bit i ∙ omega (arith, zero_bit i)
and_rounds zero (suc a) b i h = absurd (omega arith)
and_rounds (suc n) zero b i h = zero_bit i ∙ omega (arith, zero_bit i)
and_rounds (suc n) (suc a) b zero h = omega arith
and_rounds (suc n) (suc a) b (suc i) h = omega (
  arith,
  bit_at-suc (digits (λ b. zero) min (suc n) (suc a) b) i,
  bit_at-suc (suc a) i,
  bit_at-suc b i,
  ap (λ w. bit_at w i)
      (halved (digits (λ b. zero) min n (suc a / 2) (b / 2)) (min (suc a % 2) (b % 2))
        (omega arith)),
  and_rounds n (suc a / 2) (b / 2) i (omega arith),
)
  where
    halved : (h d : ℕ) → d < 2 → (h * 2 + d) / 2 ≡ h
    halved h d l = omega arith

or_rounds :
    (n a b i : ℕ) → a ≤ n → bit_at (digits (λ b. b) max n a b) i ≡ max (bit_at a i) (bit_at b i)
or_rounds zero zero b i h = omega (arith, zero_bit i)
or_rounds zero (suc a) b i h = absurd (omega arith)
or_rounds (suc n) zero b i h = omega (arith, zero_bit i)
or_rounds (suc n) (suc a) b zero h = omega arith
or_rounds (suc n) (suc a) b (suc i) h = omega (
  arith,
  bit_at-suc (digits (λ b. b) max (suc n) (suc a) b) i,
  bit_at-suc (suc a) i,
  bit_at-suc b i,
  ap (λ w. bit_at w i)
      (halved (digits (λ b. b) max n (suc a / 2) (b / 2)) (max (suc a % 2) (b % 2)) (omega arith)),
  or_rounds n (suc a / 2) (b / 2) i (omega arith),
)
  where
    halved : (h d : ℕ) → d < 2 → (h * 2 + d) / 2 ≡ h
    halved h d l = omega arith

pub bit_at-and : (a b i : ℕ) → bit_at (bit_and a b) i ≡ min (bit_at a i) (bit_at b i)
bit_at-and a b i = ap (λ w. bit_at w i) (bit_and-bitwise a b) ∙ and_rounds a a b i (omega arith)

pub bit_at-or : (a b i : ℕ) → bit_at (bit_or a b) i ≡ max (bit_at a i) (bit_at b i)
bit_at-or a b i = ap (λ w. bit_at w i) (bit_or-bitwise a b) ∙ or_rounds a a b i (omega arith)

-- Words with the same bits are the same.
pub bits_ext : (n a b : ℕ) → a ≤ n → b ≤ n → ((i : ℕ) → bit_at a i ≡ bit_at b i) → a ≡ b
bits_ext zero a b h k e = omega arith
bits_ext (suc n) a b h k e = omega (
  arith,
  e 0,
  bits_ext n (a / 2) (b / 2) (omega arith) (omega arith)
      (λ i. sym (bit_at-suc a i) ∙ e (suc i) ∙ bit_at-suc b i),
)

pub bit_at-pow : (i j : ℕ) → bit_at (2 ^ i) j ≡ (if i == j then 1 else 0)
bit_at-pow zero zero = refl
bit_at-pow zero (suc j) = bit_at-suc 1 j ∙ zero_bit j ∙ ground arith
bit_at-pow (suc i) zero = ground (arith, even (2 ^ i))
  where
    even : (n : ℕ) → n * 2 % 2 ≡ 0
    even n = omega arith
bit_at-pow (suc i) (suc j) =
    bit_at-suc (2 ^ suc i) j ∙ ap (λ w. bit_at w j) (halved i) ∙ bit_at-pow i j ∙ ground arith
  where
    halved : (n : ℕ) → 2 ^ suc n / 2 ≡ 2 ^ n
    halved n = omega arith

pub bit_at-le : (w i : ℕ) → bit_at w i ≤ 1
bit_at-le w i = omega arith

nonzero : (w i : ℕ) → bit_at w i ≡ 1 → (w == 0) ≡ false
nonzero zero i e = ground (arith, e, zero_bit i)
nonzero (suc w) i e = ground arith

-- The C test `w & (1 << i)`.
pub bit_and-pow : (w i : ℕ) → (bit_and w (2 ^ i) == 0) ≡ (bit_at w i == 0)
bit_and-pow w i = elim (Bool-cases (bit_at w i == 0)) [
  | inl e ↦
      let none_left : bit_and w (2 ^ i) ≡ 0 =
        bits_ext (bit_and w (2 ^ i)) (bit_and w (2 ^ i)) 0 (omega arith) (omega arith)
          (λ j. ground (arith, bit_at-and w (2 ^ i) j, bit_at-pow i j, zero_bit j, e)) in
      rw (none_left, e) refl
  | inr e ↦
      let one : bit_at (bit_and w (2 ^ i)) i ≡ 1 =
        ground (arith, bit_at-and w (2 ^ i) i, bit_at-pow i i, e) in
      rw e (nonzero (bit_and w (2 ^ i)) i one)
]

-- The places of a 16-bit word are few, so that a test on them can be run at each.
tests_pass : (test : ℕ → Bool) → ℕ → Bool
tests_pass test zero = true
tests_pass test (suc last) = if test last then tests_pass test last else false

tests_pass_lem :
    (test : ℕ → Bool) (places : ℕ)
    → tests_pass test places ≡ true
    → (i : ℕ) → i < places
    → test i ≡ true
unfolding tests_pass
tests_pass_lem test zero passed i inside = absurd (omega arith)
tests_pass_lem test (suc last) passed i inside =
    let here : test last ≡ true = ground (arith, passed) in
    let before : tests_pass test last ≡ true = ground (arith, passed) in
    elim (Bool-cases (i == last)) [
      | inl e ↦ ap test ((==_iff i last).0 e) ∙ here
      | inr e ↦ tests_pass_lem test last before i (ground (arith, e))
    ]

ones_table : tests_pass (λ i. bit_at 0xffff i == 1) 16 ≡ true
unfolding tests_pass
ones_table = refl

pub bit_at-ones : (i : ℕ) → i < 16 → bit_at 0xffff i ≡ 1
bit_at-ones i h = (==_iff _ _).0 (tests_pass_lem (λ i. bit_at 0xffff i == 1) 16 ones_table i h)

complement_table :
    tests_pass (λ i. tests_pass (λ j. bit_at (0xffff - 2 ^ i) j == (if i == j then 0 else 1)) 16) 16
    ≡ true
unfolding tests_pass
complement_table = refl

-- The C mask `~(1 << i)` of 16 bits.
pub bit_at-complement :
    (i j : ℕ) → i < 16 → j < 16 → bit_at (0xffff - 2 ^ i) j ≡ (if i == j then 0 else 1)
bit_at-complement i j h l =
    let row =
      λ (i : ℕ). tests_pass (λ j. bit_at (0xffff - 2 ^ i) j == (if i == j then 0 else 1)) 16 in
    let entry = λ (j : ℕ). bit_at (0xffff - 2 ^ i) j == (if i == j then 0 else 1) in
    (==_iff _ _).0 (tests_pass_lem entry 16 (tests_pass_lem row 16 complement_table i h) j l)
