-- ===== src/Mm/Heap/List.antt =====
-- The free blocks of a heap as a list of addresses and sizes.
use gloworm.Prelude.{
  ℕ, ◌+◌, ◌^◌, ◌<◌, ◌≤◌, ◌≡◌, ◌⊎◌, inl, inr, refl, ◌∙◌, subst, Bool, false, ◌&&◌, ◌||◌, List, [],
  ◌∷◌, ltb, leb, ◌==◌, if◌then◌else◌, Bool-cases, arith,
}
use gloworm.Utils.Queue.{Ptr, null}
use gloworm.Mm.Heap.{Block}

-- The blocks that are linked from `p` on, and their sizes.
abbrev pub Chain : (Ptr → Block) → Ptr → List (ℕ × ℕ) → Type 0
Chain blocks p [] = p ≡ null
Chain blocks p (f ∷ fs) = (p ≡ f.0) × ((blocks p).size ≡ f.1) × Chain blocks (blocks p).next fs

-- Blocks stand behind `low` in the order of their addresses, and no two of them touch.
abbrev pub Sparse : (low : ℕ) → List (ℕ × ℕ) → Type 0
Sparse low [] = Unit
Sparse low (f ∷ fs) = (low < f.0) × (0 < f.1) × (f.0 + f.1 < 2 ^ 32) × Sparse (f.0 + f.1) fs

-- The `n` bytes from `b` on are outside all blocks.
abbrev pub Apart : (b n : ℕ) → List (ℕ × ℕ) → Type 0
Apart b n [] = Unit
Apart b n (f ∷ fs) = ((f.0 + f.1 ≤ b) ⊎ (b + n ≤ f.0)) × Apart b n fs

-- A byte is free.
abbrev pub covers : List (ℕ × ℕ) → ℕ → Bool
covers [] x = false
covers (f ∷ fs) x = (leb f.0 x && ltb x (f.0 + f.1)) || covers fs x

abbrev pub free_bytes : List (ℕ × ℕ) → ℕ
free_bytes [] = 0
free_bytes (f ∷ fs) = f.1 + free_bytes fs

-- The block in front of others, with the first of these if they touch.
abbrev pub join : (b n : ℕ) → List (ℕ × ℕ) → List (ℕ × ℕ)
join b n [] = (b, n) ∷ []
join b n (f ∷ fs) = if b + n == f.0 then (b, n + f.1) ∷ fs else (b, n) ∷ f ∷ fs

-- The free blocks with one more.
abbrev pub insert_free : (b n : ℕ) → List (ℕ × ℕ) → List (ℕ × ℕ)
insert_free b n [] = (b, n) ∷ []
insert_free b n (f ∷ fs) =
    if f.0 + f.1 == b
    then join f.0 (f.1 + n) fs
    else if leb b f.0
    then join b n (f ∷ fs)
    else f ∷ insert_free b n fs

-- The first block does not begin before `e`.
abbrev pub From : (e : ℕ) → List (ℕ × ℕ) → Type 0
From e [] = Unit
From e (f ∷ fs) = e ≤ f.0

join-Sparse :
    (b n low m : ℕ) (fs : List (ℕ × ℕ))
    → low < b
    → 0 < n
    → b + n < 2 ^ 32
    → Sparse m fs
    → From (b + n) fs
    → Sparse low (join b n fs)
join-Sparse b n low m [] l p fits s e = (l, p, fits, tt)
join-Sparse b n low m (f ∷ fs) l p fits (_, q, fits', s) e = elim (Bool-cases (b + n == f.0)) [
  | inl t ↦ rw t (
    l,
    omega (arith, p),
    ground (arith, t, fits'),
    subst (λ k. Sparse k fs) {x = f.0 + f.1} {y = b + (n + f.1)} (ground (arith, t)) s,
  )
  | inr t ↦ rw t (l, p, fits, (ground (arith, t, e), q, fits', s))
]

join-covers :
    (b n : ℕ) (fs : List (ℕ × ℕ)) (x : ℕ)
    → covers (join b n fs) x ≡ ((leb b x && ltb x (b + n)) || covers fs x)
join-covers b n [] x = refl
join-covers b n (f ∷ fs) x = elim (Bool-cases (b + n == f.0)) [
  | inl t ↦ rw t (ground (arith, t))
  | inr t ↦ rw t refl
]

join-free_bytes : (b n : ℕ) (fs : List (ℕ × ℕ)) → free_bytes (join b n fs) ≡ n + free_bytes fs
join-free_bytes b n [] = refl
join-free_bytes b n (f ∷ fs) = elim (Bool-cases (b + n == f.0)) [
  | inl t ↦ rw t (omega arith)
  | inr t ↦ rw t refl
]

-- A block behind the one that it touches stands before all the others.
Apart-From :
    (b n low : ℕ) (fs : List (ℕ × ℕ)) → Sparse low fs → Apart b n fs → b ≤ low → From (b + n) fs
Apart-From b n low [] s a l = tt
Apart-From b n low (f ∷ fs) (l', p, _, _) (a, _) l = ground (arith, a, l', p, l)

pub insert_free-Sparse :
    (b n low : ℕ) (fs : List (ℕ × ℕ))
    → low < b
    → 0 < n
    → b + n < 2 ^ 32
    → Sparse low fs
    → Apart b n fs
    → Sparse low (insert_free b n fs)
insert_free-Sparse b n low [] l p fits s a = (l, p, fits, tt)
insert_free-Sparse b n low (f ∷ fs) l p fits (l', q, fits', s) (here, a) =
    elim (Bool-cases (f.0 + f.1 == b)) [
      | inl t ↦ rw t (
          join-Sparse f.0 (f.1 + n) low (f.0 + f.1) fs l' (omega (arith, q))
            (ground (arith, t, fits)) s
            (subst (λ k. From k fs) {x = b + n} {y = f.0 + (f.1 + n)} (ground (arith, t))
              (Apart-From b n (f.0 + f.1) fs s a (ground (arith, t)))))
      | inr t ↦ elim (Bool-cases (leb b f.0)) [
        | inl u ↦
            rw (t, u)
              (join-Sparse b n low low (f ∷ fs) l p fits (l', q, fits', s)
                (ground (arith, u, here, q)))
        | inr u ↦
            rw (t, u)
              (
                l',
                q,
                fits',
                insert_free-Sparse b n (f.0 + f.1) fs (ground (arith, t, u, here)) p fits s a,
              )
      ]
    ]

pub insert_free-covers :
    (b n : ℕ) (fs : List (ℕ × ℕ)) (x : ℕ)
    → covers (insert_free b n fs) x ≡ ((leb b x && ltb x (b + n)) || covers fs x)
insert_free-covers b n [] x = refl
insert_free-covers b n (f ∷ fs) x = elim (Bool-cases (f.0 + f.1 == b)) [
  | inl t ↦ rw t (join-covers f.0 (f.1 + n) fs x ∙ ground (arith, t))
  | inr t ↦ elim (Bool-cases (leb b f.0)) [
    | inl u ↦ rw (t, u) (join-covers b n (f ∷ fs) x)
    | inr u ↦ rw (t, u) (ground (arith, insert_free-covers b n fs x))
  ]
]

pub insert_free-free_bytes :
    (b n : ℕ) (fs : List (ℕ × ℕ)) → free_bytes (insert_free b n fs) ≡ n + free_bytes fs
insert_free-free_bytes b n [] = refl
insert_free-free_bytes b n (f ∷ fs) = elim (Bool-cases (f.0 + f.1 == b)) [
  | inl t ↦ rw t (omega (arith, join-free_bytes f.0 (f.1 + n) fs))
  | inr t ↦ elim (Bool-cases (leb b f.0)) [
    | inl u ↦ rw (t, u) (join-free_bytes b n (f ∷ fs))
    | inr u ↦ rw (t, u) (omega (arith, insert_free-free_bytes b n fs))
  ]
]
