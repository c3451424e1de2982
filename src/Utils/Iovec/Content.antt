-- ===== src/Utils/Iovec/Content.antt =====
-- The bytes that a sequence of segments holds, and the lists that copies take of them.
use gloworm.Prelude.{
  ℕ, zero, suc, ◌+◌, ◌-◌, ◌≡◌, refl, ap, ap₂, ◌∙◌, List, [], ◌∷◌, ◌++◌, arith, length, take, drop,
  min,
}
use gloworm.Utils.Iovec.{Memory, Kvec, read_bytes}

-- The bytes of `n` segments from the segment `cur` on.
abbrev pub content : Memory → (ℕ → Kvec) → (cur n : ℕ) → List ℕ
content mem segs cur zero = []
content mem segs cur (suc n) =
    read_bytes mem (segs cur).buf (segs cur).bytes ++ content mem segs (cur + 1) n

module _ {ℓ} {A : Type ℓ} where
  pub take-append :
      (n : ℕ) (xs ys : List A) → take n (xs ++ ys) ≡ take n xs ++ take (n - length xs) ys
  take-append zero xs ys = let e : 0 ≡ 0 - length xs = omega arith in ap (λ k. take k ys) e
  take-append (suc n) [] ys = let e : suc n ≡ suc n - 0 = omega arith in ap (λ k. take k ys) e
  take-append (suc n) (x ∷ xs) ys =
      let e : n - length xs ≡ suc n - suc (length xs) = omega arith in
      ap (λ l. x ∷ l) (take-append n xs ys ∙ ap (λ k. take n xs ++ take k ys) e)

  pub drop-append :
      (n : ℕ) (xs ys : List A) → drop n (xs ++ ys) ≡ drop n xs ++ drop (n - length xs) ys
  drop-append zero xs ys = let e : 0 ≡ 0 - length xs = omega arith in ap (λ k. xs ++ drop k ys) e
  drop-append (suc n) [] ys = let e : suc n ≡ suc n - 0 = omega arith in ap (λ k. drop k ys) e
  drop-append (suc n) (x ∷ xs) ys =
      let e : n - length xs ≡ suc n - suc (length xs) = omega arith in
      drop-append n xs ys ∙ ap (λ k. drop n xs ++ drop k ys) e

pub length-read_bytes : (mem : Memory) (a n : ℕ) → length (read_bytes mem a n) ≡ n
length-read_bytes mem a zero = refl
length-read_bytes mem a (suc n) = ground (arith, length-read_bytes mem (a + 1) n)

pub take-read_bytes :
    (n : ℕ) (mem : Memory) (a m : ℕ) → take n (read_bytes mem a m) ≡ read_bytes mem a (min n m)
take-read_bytes zero mem a m = let e : 0 ≡ min 0 m = omega arith in ap (λ k. read_bytes mem a k) e
take-read_bytes (suc n) mem a zero =
    let e : 0 ≡ min (suc n) 0 = omega arith in ap (λ k. read_bytes mem a k) e
take-read_bytes (suc n) mem a (suc m) =
    let e : suc (min n m) ≡ min (suc n) (suc m) = omega arith in
    ap (λ l. mem a ∷ l) (take-read_bytes n mem (a + 1) m) ∙ ap (λ k. read_bytes mem a k) e

pub drop-read_bytes :
    (n : ℕ) (mem : Memory) (a m : ℕ) → drop n (read_bytes mem a m) ≡ read_bytes mem (a + n) (m - n)
drop-read_bytes zero mem a m =
    let e : a ≡ a + 0 = omega arith in
    let e' : m ≡ m - 0 = omega arith in ap₂ (λ b k. read_bytes mem b k) e e'
drop-read_bytes (suc n) mem a zero =
    let e : 0 ≡ 0 - suc n = omega arith in ap (λ k. read_bytes mem (a + suc n) k) e
drop-read_bytes (suc n) mem a (suc m) =
    let e : a + 1 + n ≡ a + suc n = omega arith in
    let e' : m - n ≡ suc m - suc n = omega arith in
    drop-read_bytes n mem (a + 1) m ∙ ap₂ (λ b k. read_bytes mem b k) e e'
