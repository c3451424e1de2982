-- ===== src/Libc/Number/Read.antt =====
-- What `atoi` and `strtol` read: the number that `itoa` has printed, and both the same.
use gloworm.Prelude.{
  ℕ, zero, suc, ◌+◌, ◌-◌, ◌*◌, ◌/◌, ◌%◌, ◌^◌, ◌<◌, ◌≤◌, ◌≡◌, ◌≢◌, inl, inr, refl, sym, ap, ◌∙◌,
  subst, true, false, ◌&&◌, List, [], ◌∷◌, ltb, leb, ◌==◌, if◌then◌else◌, update, Bool-cases, arith,
}
use gloworm.Libc.{char_at, after, between, HoldsText}
use gloworm.Libc.Number.{
  negated, is_blank, skip_blanks, read_digits, atoi, digit_value, read_number, strtol, put_digits,
  put_padding, turn_around, itoa_padded,
}
use gloworm.Libc.Number.Print.{
  shifted, shifted-div, descend, descend-HoldsText, turn_around_lem, Digits, put_digits-Digits,
}

shifted-le : (p num : ℕ) → shifted p num ≤ num
shifted-le zero num = omega arith
shifted-le (suc p) num = omega (arith, shifted-le p (num / 10))

-- `atoi` reads the digits of a word.
read_digits-descend :
    (f : ℕ → ℕ) (num p : ℕ)
    → num < 2 ^ 32
    → ((k : ℕ) → k < p → f k ≡ 48 + shifted k num % 10)
    → read_digits (descend f p) (shifted p num) ≡ num
unfolding read_digits
read_digits-descend f num zero l h = refl
read_digits-descend f num (suc p) l h =
    let digit = h p (omega arith) in
    let is_digit : between 48 57 (f p) ≡ true = ground (arith, digit) in
    let next : (shifted p (num / 10) * 10 + (f p - 48)) % 2 ^ 32 ≡ shifted p num =
      omega (arith, digit, shifted-div p num, shifted-le p num) in
    rw (is_digit, next) (read_digits-descend f num p l (λ k l'. h k (omega arith)))

skip_blanks-descend :
    (f : ℕ → ℕ) (i e : ℕ)
    → i ≤ e
    → ((k : ℕ) → i ≤ k → k < e → f k ≡ 32)
    → skip_blanks (descend f e) ≡ skip_blanks (descend f i)
unfolding skip_blanks is_blank
skip_blanks-descend f i zero l h = ap (λ k. skip_blanks (descend f k)) {x = 0} {y = i} (omega arith)
skip_blanks-descend f i (suc e) l h = elim (Bool-cases (i == suc e)) [
  | inl a ↦ ap (λ k. skip_blanks (descend f k)) {x = suc e} {y = i} (ground (arith, a))
  | inr a ↦
      rw (h e (ground (arith, a)) (omega arith))
        (skip_blanks-descend f i e (ground (arith, a)) (λ k m m'. h k m (omega arith)))
]

-- The characters of a number in the order in which they are put: its `n` digits, its sign and
-- spaces.
record Reversed (f : ℕ → ℕ) (num n end : ℕ) : Type 0 where
  some_digits : 0 < n
  long : n + (if leb (2 ^ 31) num then 1 else 0) ≤ end
  digits :
      (k : ℕ) → k < n → f k ≡ 48 + shifted k (if leb (2 ^ 31) num then negated num else num) % 10
  all : shifted n (if leb (2 ^ 31) num then negated num else num) ≡ 0
  minus : leb (2 ^ 31) num ≡ true → f n ≡ 45
  blank : (k : ℕ) → n + (if leb (2 ^ 31) num then 1 else 0) ≤ k → k < end → f k ≡ 32

atoi-positive :
    (f : ℕ → ℕ) (num n : ℕ)
    → num < 2 ^ 32
    → 0 < n
    → ((k : ℕ) → k < n → f k ≡ 48 + shifted k num % 10)
    → shifted n num ≡ 0
    → (str : List ℕ) → skip_blanks str ≡ skip_blanks (descend f n)
    → atoi str ≡ num
unfolding atoi skip_blanks is_blank
atoi-positive f num zero l some_digits h all str same = absurd (omega arith)
atoi-positive f num (suc n) l some_digits h all str same =
    let digit = h n (omega arith) in
    let no_blank : is_blank (f n) ≡ false = ground (arith, digit) in
    let no_sign : (f n == 45) ≡ false = ground (arith, digit) in
    let read = read_digits-descend f num (suc n) l h in
    rw (same, no_blank, no_sign) (subst (λ acc. read_digits (descend f (suc n)) acc ≡ num) all read)

atoi-negative :
    (f : ℕ → ℕ) (num n : ℕ)
    → num < 2 ^ 32
    → ((k : ℕ) → k < n → f k ≡ 48 + shifted k num % 10)
    → shifted n num ≡ 0
    → f n ≡ 45
    → (str : List ℕ) → skip_blanks str ≡ skip_blanks (descend f (suc n))
    → atoi str ≡ negated num
unfolding atoi skip_blanks is_blank
atoi-negative f num n l h all minus str same =
    let no_blank : is_blank (f n) ≡ false = ground (arith, minus) in
    let sign : (f n == 45) ≡ true = ground (arith, minus) in
    let read = read_digits-descend f num n l h in
    rw (same, no_blank, sign)
      (ap negated (subst (λ acc. read_digits (descend f n) acc ≡ num) all read))

atoi-Reversed :
    (f : ℕ → ℕ) (num n end : ℕ) → num < 2 ^ 32 → Reversed f num n end → atoi (descend f end) ≡ num
atoi-Reversed f num n end l r = elim (Bool-cases (leb (2 ^ 31) num)) [
  | inr e ↦
      let skipped =
        skip_blanks-descend f n end (ground (arith, e, r.long))
          (λ k m m'. r.blank k (ground (arith, e, m)) m') in
      atoi-positive f num n l r.some_digits (λ k m. r.digits k m ∙ rw e refl)
        (sym (rw e refl) ∙ r.all) (descend f end) skipped
  | inl e ↦
      let skipped =
        skip_blanks-descend f (suc n) end (ground (arith, e, r.long))
          (λ k m m'. r.blank k (ground (arith, e, m)) m') in
      atoi-negative f (negated num) n (omega arith) (λ k m. r.digits k m ∙ rw e refl)
        (sym (rw e refl) ∙ r.all) (r.minus e) (descend f end) skipped
      ∙ ground (arith, e)
]

put_padding_lem :
    (rounds fill : ℕ) (buffer : ℕ → ℕ) (i k : ℕ)
    → put_padding rounds fill buffer i k
      ≡ (if leb i k && ltb k (i + rounds) then fill else buffer k)
unfolding put_padding
put_padding_lem zero fill buffer i k = ground arith
put_padding_lem (suc rounds) fill buffer i k =
    ground (arith, put_padding_lem rounds fill (update buffer i fill) (i + 1) k)

turned-HoldsText :
    (f : ℕ → ℕ) (end : ℕ)
    → 0 < end
    → ((k : ℕ) → k < end → f k ≢ 0)
    → HoldsText (turn_around end (update f end 0) 0 (end - 1)) 0 (descend f end)
turned-HoldsText f end some_text h =
    let turned = λ (k : ℕ). turn_around_lem end (update f end 0) 0 (end - 1) k (omega arith) in
    descend-HoldsText (turn_around end (update f end 0) 0 (end - 1)) f end 0
      (λ k l.
        (ground (arith, turned (0 + k), ap f {x = end - 1 + 0 - (0 + k)} {y = end - 1 - k}), h k l))
      (ground (arith, turned (0 + end)))

Reversed-nonzero : (f : ℕ → ℕ) (num n end k : ℕ) → Reversed f num n end → k < end → f k ≢ 0
Reversed-nonzero f num n end k r l =
    ground (arith, r.digits k, r.minus, r.blank k, ap f {x = n} {y = k})

-- The word without its sign.
abbrev word : ℕ → ℕ
word num = if leb (2 ^ 31) num then negated num else num

-- Behind the digits, with the sign at their end, the padding and the terminator.
module _ (num width : ℕ) (result : (ℕ → ℕ) × ℕ) (buffer : ℕ → ℕ) where
  abbrev stop : ℕ
  stop = if leb (2 ^ 31) num then result.1 + 1 else result.1

  abbrev last : ℕ
  last = stop + (width - stop)

  abbrev padded : ℕ → ℕ
  padded =
      put_padding (width - stop) 32
        (if leb (2 ^ 31) num then update result.0 result.1 45 else result.0) stop

  padded_at :
      (k : ℕ)
      → padded k ≡ (
          if leb stop k && ltb k last
          then 32
          else if leb (2 ^ 31) num && result.1 == k
          then 45
          else result.0 k)
  padded_at k = ground (
    arith,
    put_padding_lem (width - stop) 32
        (if leb (2 ^ 31) num then update result.0 result.1 45 else result.0) stop k,
  )

  padded-Reversed : Digits buffer 0 (word num) result → Reversed padded num result.1 last
  padded-Reversed d = record {
    some_digits = omega (arith, d.end, d.some_digits);
    long = ground arith;
    digits = λ k l. ground (arith, padded_at k, d.end, d.digits k, ap result.0 {x = 0 + k} {y = k});
    all =
        subst (λ n. shifted n (word num) ≡ 0) {x = d.length} {y = result.1} (omega (arith, d.end))
          d.all;
    minus = λ e. ground (arith, e, padded_at result.1);
    blank = λ k l l'. ground (arith, padded_at k);
  }

-- For every 32-bit word and every width, `itoa_padded` in base 10, with a sign and padded with
-- spaces, leaves a string in the buffer that `atoi` reads as the same word.
pub atoi-itoa_padded :
    (num width : ℕ) (buffer : ℕ → ℕ)
    → num < 2 ^ 32
    → (text : List ℕ) × HoldsText (itoa_padded num buffer 10 width false true) 0 text
      × (atoi text ≡ num)
unfolding itoa_padded
atoi-itoa_padded num width buffer l =
    let result = put_digits 32 (word num) 10 buffer 0 in
    let d = put_digits-Digits 31 (word num) buffer 0 (ground arith) in
    let r = padded-Reversed num width result buffer d in
    (
      descend (padded num width result buffer) (last num width result buffer),
      turned-HoldsText _ _ (omega (arith, r.long, r.some_digits))
          (λ k. Reversed-nonzero _ num result.1 _ k r),
      atoi-Reversed _ num result.1 _ l r,
    )

read_number-read_digits :
    (str : List ℕ) (num : ℕ) → (read_number 10 str num).0 ≡ read_digits str num
unfolding read_number read_digits digit_value
read_number-read_digits [] num = refl
read_number-read_digits (c ∷ str) num = elim (Bool-cases (between 48 57 c)) [
  | inl e ↦
      let small : leb 10 (c - 48) ≡ false = ground (arith, e) in
      rw (e, small) (read_number-read_digits str ((num * 10 + (c - 48)) % 2 ^ 32))
  | inr e ↦
      let big : leb 10
            (if between 65 90 c then c - 65 + 10 else if between 97 122 c then c - 97 + 10 else 10)
          ≡ true =
        ground (arith, e) in
      rw (e, big) refl
]

-- In base 10, `strtol` and `atoi` read the same word from every text whose first character behind
-- the space is not 0.
pub strtol-atoi : (text : List ℕ) → char_at (skip_blanks text) ≢ 48 → (strtol text 10).0 ≡ atoi text
unfolding strtol atoi
strtol-atoi text h =
    let str = skip_blanks text in
    let not_zero : (char_at str == 48) ≡ false = ground (arith, h) in
    elim (Bool-cases (char_at str == 45)) [
      | inl e ↦ rw e (ap negated (read_number-read_digits (after str) 0))
      | inr e ↦ rw (e, not_zero) (read_number-read_digits str 0)
    ]
