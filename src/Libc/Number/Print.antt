-- ===== src/Libc/Number/Print.antt =====
-- What `itoa` leaves in its buffer for a decimal number.
use gloworm.Prelude.{
  ℕ, zero, suc, ◌+◌, ◌-◌, ◌*◌, ◌/◌, ◌%◌, ◌<◌, ◌≡◌, ◌≢◌, inl, inr, refl, ap, ◌∙◌, subst, false, ◌&&◌,
  List, [], ◌∷◌, ltb, leb, if◌then◌else◌, update, Bool-cases, arith,
}
use gloworm.Libc.{HoldsText}
use gloworm.Libc.Number.{digit_char, put_digits, turn_around}

-- The number without its last `p` decimal digits.
abbrev pub shifted : ℕ → ℕ → ℕ
shifted zero num = num
shifted (suc p) num = shifted p (num / 10)

pub shifted-div : (p num : ℕ) → shifted p (num / 10) ≡ shifted p num / 10
shifted-div zero num = refl
shifted-div (suc p) num = shifted-div p (num / 10)

-- More than the numbers of `r + 1` digits.
abbrev limit : ℕ → ℕ
limit zero = 10
limit (suc r) = 10 * limit r

-- The digits of `num` stand in a memory from `i` on, the last one first.
pub record Digits (buffer : ℕ → ℕ) (i num : ℕ) (result : (ℕ → ℕ) × ℕ) : Type 0 where
  pub length : ℕ
  pub some_digits : 0 < length
  pub end : result.1 ≡ i + length
  pub kept : (k : ℕ) → k < i → result.0 k ≡ buffer k
  pub digits : (k : ℕ) → k < length → result.0 (i + k) ≡ 48 + shifted k num % 10
  pub all : shifted length num ≡ 0

digit_char-digit : (num : ℕ) → digit_char (num % 10) ≡ 48 + num % 10
unfolding digit_char
digit_char-digit num = ground arith

one_more :
    (buffer : ℕ → ℕ) (i num : ℕ) (result : (ℕ → ℕ) × ℕ)
    → Digits (update buffer i (digit_char (num % 10))) (i + 1) (num / 10) result
    → Digits buffer i num result
one_more buffer i num result d =
    let last : result.0 i ≡ 48 + num % 10 = ground (arith, d.kept i, digit_char-digit num) in
    record {
      length = suc d.length;
      some_digits = omega arith;
      end = omega (arith, d.end);
      kept = λ k l. ground (arith, d.kept k);
      digits = λ k l.
          elim k as (λ k. k < suc d.length → result.0 (i + k) ≡ 48 + shifted k num % 10) [
            | zero ↦ λ l. ap result.0 {x = i + 0} {y = i} (omega arith) ∙ last
            | suc k ↦ λ l.
                ap result.0 {x = i + suc k} {y = i + 1 + k} (omega arith)
                ∙ d.digits k (omega (arith, l))
          ]
            l;
      all = d.all;
    }

short : (num : ℕ) → num < 10 → ltb 0 (num / 10) ≡ false
short num l = ground arith

only_digit :
    (num : ℕ) (buffer : ℕ → ℕ) (i : ℕ)
    → num < 10
    → Digits buffer i num (update buffer i (digit_char (num % 10)), i + 1)
only_digit num buffer i l = record {
  length = 1;
  some_digits = omega arith;
  end = refl;
  kept = λ k l. ground arith;
  digits = λ k l. ground (arith, digit_char-digit num, ap (λ k. shifted k num) {x = k} {y = 0});
  all = ground arith;
}

pub put_digits-Digits :
    (r num : ℕ) (buffer : ℕ → ℕ) (i : ℕ)
    → num < limit r
    → Digits buffer i num (put_digits (suc r) num 10 buffer i)
unfolding put_digits
put_digits-Digits zero num buffer i l = rw (short num l) (only_digit num buffer i l)
put_digits-Digits (suc r) num buffer i l = elim (Bool-cases (ltb 0 (num / 10))) [
  | inr e ↦ rw e (only_digit num buffer i (ground (arith, e)))
  | inl e ↦ rw e (
      one_more buffer i num _ (
        put_digits-Digits r (num / 10) (update buffer i (digit_char (num % 10))) (i + 1)
          (omega (arith, l))))
]

-- The buffer in which the characters at `j` and `i` have changed places.
abbrev swapped : (ℕ → ℕ) → (j i : ℕ) → ℕ → ℕ
swapped buffer j i = update (update buffer j (buffer i)) i (buffer j)

swapped_inside :
    (buffer : ℕ → ℕ) (j i k : ℕ)
    → j < k
    → k < i
    → swapped buffer j i (i - 1 + (j + 1) - k) ≡ buffer (i + j - k)
swapped_inside buffer j i k l l' =
    subst (λ x. swapped buffer j i x ≡ buffer (i + j - k)) {x = i + j - k} {y = i - 1 + (j + 1) - k}
      (omega arith) (ground arith)

swap_step :
    (buffer : ℕ → ℕ) (j i k : ℕ)
    → j < i
    → (if leb (j + 1) k && leb k (i - 1)
        then swapped buffer j i (i - 1 + (j + 1) - k)
        else swapped buffer j i k)
      ≡ (if leb j k && leb k i then buffer (i + j - k) else buffer k)
swap_step buffer j i k l = elim (Bool-cases (leb (j + 1) k && leb k (i - 1))) [
  | inl e ↦ rw e (ground (arith, e, swapped_inside buffer j i k))
  | inr e ↦
      rw e (ground (arith, e, ap buffer {x = i} {y = i + j - k}, ap buffer {x = j} {y = i + j - k}))
]

-- The characters from `j` to `i` change places.
pub turn_around_lem :
    (rounds : ℕ) (buffer : ℕ → ℕ) (j i k : ℕ)
    → i < j + 2 * rounds
    → turn_around rounds buffer j i k
      ≡ (if leb j k && leb k i then buffer (i + j - k) else buffer k)
unfolding turn_around
turn_around_lem zero buffer j i k l = ground arith
turn_around_lem (suc rounds) buffer j i k l = elim (Bool-cases (ltb j i)) [
  | inr e ↦ rw e (ground (arith, e, ap buffer {x = i + j - k} {y = k}))
  | inl e ↦ rw e (
      turn_around_lem rounds (swapped buffer j i) (j + 1) (i - 1) k (ground (arith, e))
      ∙ swap_step buffer j i k (ground (arith, e)))
]

-- The characters of a memory below `p`, the highest one first.
abbrev pub descend : (ℕ → ℕ) → ℕ → List ℕ
descend f zero = []
descend f (suc p) = f p ∷ descend f p

pub descend-HoldsText :
    (memory f : ℕ → ℕ) (p at : ℕ)
    → ((k : ℕ) → k < p → (memory (at + k) ≡ f (p - 1 - k)) × (f k ≢ 0))
    → memory (at + p) ≡ 0
    → HoldsText memory at (descend f p)
descend-HoldsText memory f zero at h end = ap memory {x = at} {y = at + 0} (omega arith) ∙ end
descend-HoldsText memory f (suc p) at h end = (
  ap memory {x = at} {y = at + 0} (omega arith)
      ∙ (h 0 (omega arith)).0
      ∙ ap f {x = suc p - 1 - 0} {y = p} (omega arith),
  (h p (omega arith)).1,
  descend-HoldsText memory f p (at + 1)
      (λ k l. (
        ap memory {x = at + 1 + k} {y = at + suc k} (omega arith)
            ∙ (h (suc k) (omega arith)).0
            ∙ ap f {x = suc p - 1 - suc k} {y = p - 1 - k} (omega arith),
        (h k (omega arith)).1,
      ))
      (ap memory {x = at + 1 + p} {y = at + suc p} (omega arith) ∙ end),
)
