-- ===== src/Fs/Pipe/Memory.antt =====
-- Bytes read from memory behind a write.
use gloworm.Prelude.{
  ℕ, zero, suc, ◌+◌, ◌<◌, ◌≤◌, ◌≡◌, refl, ap, ap₂, ◌∙◌, List, [], ◌∷◌, ◌++◌, length, update, arith,
}
use gloworm.Utils.Iovec.{read_bytes, write_bytes}

write_bytes-below :
    (mem : ℕ → ℕ) (b : ℕ) (xs : List ℕ) (c : ℕ) → c < b → write_bytes mem b xs c ≡ mem c
write_bytes-below mem b [] c l = refl
write_bytes-below mem b (x ∷ xs) c l =
    write_bytes-below (update mem b x) (b + 1) xs c (omega arith) ∙ ground arith

pub read_bytes-frame :
    (mem : ℕ → ℕ) (b : ℕ) (xs : List ℕ) (a m : ℕ)
    → a + m ≤ b
    → read_bytes (write_bytes mem b xs) a m ≡ read_bytes mem a m
read_bytes-frame mem b xs a zero l = refl
read_bytes-frame mem b xs a (suc m) l =
    ap₂ (λ y ys. y ∷ ys) (write_bytes-below mem b xs a (omega arith))
      (read_bytes-frame mem b xs (a + 1) m (omega arith))

pub read_bytes-written :
    (mem : ℕ → ℕ) (b : ℕ) (xs : List ℕ) → read_bytes (write_bytes mem b xs) b (length xs) ≡ xs
read_bytes-written mem b [] = refl
read_bytes-written mem b (x ∷ xs) =
    let mem' = update mem b x in
    ap₂ (λ y ys. y ∷ ys) (write_bytes-below mem' (b + 1) xs b (omega arith) ∙ ground arith)
      (read_bytes-written mem' (b + 1) xs)

pub read_bytes-append :
    (mem : ℕ → ℕ) (a m n : ℕ)
    → read_bytes mem a (m + n) ≡ read_bytes mem a m ++ read_bytes mem (a + m) n
read_bytes-append mem a zero n =
    let e : 0 + n ≡ n = omega arith in
    let e' : a ≡ a + 0 = omega arith in ap₂ (λ b k. read_bytes mem b k) e' e
read_bytes-append mem a (suc m) n =
    let e : suc m + n ≡ suc (m + n) = omega arith in
    let e' : a + 1 + m ≡ a + suc m = omega arith in
    ap (λ k. read_bytes mem a k) e
    ∙ ap (λ ys. mem a ∷ ys)
        (read_bytes-append mem (a + 1) m n
          ∙ ap (λ b. read_bytes mem (a + 1) m ++ read_bytes mem b n) e')

-- A region grows by what is written at its end.
pub read_bytes-grown :
    (mem : ℕ → ℕ) (b : ℕ) (xs : List ℕ) (a m : ℕ)
    → a + m ≡ b
    → read_bytes (write_bytes mem b xs) a (m + length xs) ≡ read_bytes mem a m ++ xs
read_bytes-grown mem b xs a m e =
    read_bytes-append (write_bytes mem b xs) a m (length xs)
    ∙ ap₂ (λ ys zs. ys ++ zs) (read_bytes-frame mem b xs a m (omega arith))
        (ap (λ c. read_bytes (write_bytes mem b xs) c (length xs)) e ∙ read_bytes-written mem b xs)
