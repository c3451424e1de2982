-- ===== src/Utils/Queue/Seg.antt =====
-- Segments of a doubly linked list, and what a queue stands for: the sequence of its nodes.
use gloworm.Prelude.{
  ◌≡◌, ◌≢◌, refl, Bool, true, false, ◌||◌, List, [], ◌∷◌, ◌++◌, arith, ◌==◌, if◌then◌else◌, ==_refl,
}
use gloworm.Utils.Queue.{Ptr, null, Store, Queue}

abbrev pub has : Ptr → List Ptr → Bool
has a [] = false
has a (x ∷ xs) = (a == x) || has a xs

abbrev pub Distinct : List Ptr → Type 0
Distinct [] = Unit {0}
Distinct (x ∷ xs) = (has x xs ≡ false) × Distinct xs

-- From `p`, whose back pointer is `before`, the nodes `xs` lead to `behind`; the last is `last`.
abbrev pub Seg : Store → (p before : Ptr) → List Ptr → (behind last : Ptr) → Type 0
Seg st p before [] behind last = (p ≡ behind) × (last ≡ before)
Seg st p before (x ∷ xs) behind last =
    (p ≡ x) × (x ≢ null) × ((st x).prev ≡ before) × Seg st (st x).next x xs behind last

pub record IsQueue (q : Queue) (st : Store) (xs : List Ptr) : Type 0 where
  pub links : Seg st q.head null xs null q.tail
  pub distinct : Distinct xs

-- The store changed at most at the nodes `xs`.
abbrev pub SameOutside : List Ptr → Store → Store → Type 0
SameOutside xs st st' = (a : Ptr) → has a xs ≡ false → st' a ≡ st a

pub apart : (a b : Ptr) (xs : List Ptr) → has a xs ≡ false → has b xs ≡ true → (a == b) ≡ false
apart a b xs h i = ground arith

pub has-append : (a : Ptr) (xs ys : List Ptr) → has a (xs ++ ys) ≡ (has a xs || has a ys)
has-append a [] ys = refl
has-append a (x ∷ xs) ys = ground (arith, has-append a xs ys)

pub Distinct-append :
    (xs ys : List Ptr)
    → Distinct (xs ++ ys)
    → Distinct xs × Distinct ys × ((a : Ptr) → has a xs ≡ true → has a ys ≡ false)
Distinct-append [] ys d = (tt, d, λ a h. ground arith)
Distinct-append (x ∷ xs) ys d =
    let (front, back, sep) = Distinct-append xs ys d.1 in
    (
      (ground (arith, has-append x xs ys), front),
      back,
      λ a h. ground (arith, sep a, has-append x xs ys),
    )

pub Distinct-insert_behind :
    (xs ys : List Ptr) (x a : Ptr)
    → Distinct (xs ++ a ∷ ys)
    → has x (xs ++ a ∷ ys) ≡ false
    → Distinct (xs ++ a ∷ x ∷ ys)
Distinct-insert_behind [] ys x a d out = (ground arith, (ground arith, d.1))
Distinct-insert_behind (w ∷ xs) ys x a d out = (
  ground (arith, has-append w xs (a ∷ ys), has-append w xs (a ∷ x ∷ ys)),
  Distinct-insert_behind xs ys x a d.1 (ground arith),
)

pub Distinct-remove :
    (xs ys : List Ptr) (x : Ptr)
    → Distinct (xs ++ x ∷ ys)
    → Distinct (xs ++ ys) × (has x (xs ++ ys) ≡ false)
Distinct-remove [] ys x d = (d.1, d.0)
Distinct-remove (w ∷ xs) ys x d =
    let (rest, out) = Distinct-remove xs ys x d.1 in
    (
      (ground (arith, has-append w xs ys, has-append w xs (x ∷ ys)), rest),
      ground (arith, has-append w xs (x ∷ ys)),
    )

module _ (st : Store) where
  -- A segment in two parts.
  pub Seg-split :
      (xs ys : List Ptr) (p b n e : Ptr)
      → Seg st p b (xs ++ ys) n e
      → (m : Ptr) × (k : Ptr) × Seg st p b xs m k × Seg st m k ys n e
  Seg-split [] ys p b n e s = (p, b, (refl, refl), s)
  Seg-split (x ∷ xs) ys p b n e s =
      let (m, k, front, back) = Seg-split xs ys (st x).next x n e s.3 in
      (m, k, (s.0, s.1, s.2, front), back)

  pub Seg-join :
      (xs ys : List Ptr) (p b m k n e : Ptr)
      → Seg st p b xs m k
      → Seg st m k ys n e
      → Seg st p b (xs ++ ys) n e
  Seg-join [] ys p b m k n e s t = ground (arith, t)
  Seg-join (x ∷ xs) ys p b m k n e s t = (s.0, s.1, s.2, Seg-join xs ys (st x).next x m k n e s.3 t)

  -- The last node is one of the segment.
  pub has-last :
      (x : Ptr) (xs : List Ptr) (p b n e : Ptr) → Seg st p b (x ∷ xs) n e → has e (x ∷ xs) ≡ true
  has-last x [] p b n e s = ground arith
  has-last x (y ∷ xs) p b n e s = ground (arith, has-last y xs (st x).next x n e s.3)

  pub first_or_behind :
      (xs : List Ptr) (p b n e : Ptr) → Seg st p b xs n e → (has p xs || p == n) ≡ true
  first_or_behind [] p b n e s = ground arith
  first_or_behind (x ∷ xs) p b n e s = ground arith

  pub last_or_before :
      (xs : List Ptr) (p b n e : Ptr) → Seg st p b xs n e → (has e xs || e == b) ≡ true
  last_or_before [] p b n e s = ground arith
  last_or_before (x ∷ xs) p b n e s = ground (arith, has-last x xs p b n e s)

  pub last-next :
      (x : Ptr) (xs : List Ptr) (p b n e : Ptr) → Seg st p b (x ∷ xs) n e → (st e).next ≡ n
  last-next x [] p b n e s = rw s.3.1 s.3.0
  last-next x (y ∷ xs) p b n e s = last-next y xs (st x).next x n e s.3

  pub Seg-cast :
      (xs : List Ptr) (p b n e p' e' : Ptr)
      → p' ≡ p
      → e' ≡ e
      → Seg st p b xs n e
      → Seg st p' b xs n e'
  Seg-cast xs p b n e p' e' h k s = rw (h, k) s

  pub Seg-ne-null :
      (xs : List Ptr) (p b n e a : Ptr) → Seg st p b xs n e → has a xs ≡ true → a ≢ null
  Seg-ne-null [] p b n e a s h = ground arith
  Seg-ne-null (x ∷ xs) p b n e a s h = ground (arith, Seg-ne-null xs (st x).next x n e a s.3)

  module _ (st' : Store) where
    -- A segment of which no node changed.
    pub Seg-frame :
        (xs : List Ptr) (p b n e : Ptr)
        → Seg st p b xs n e
        → ((a : Ptr) → has a xs ≡ true → st' a ≡ st a)
        → Seg st' p b xs n e
    Seg-frame [] p b n e s same = s
    Seg-frame (x ∷ xs) p b n e s same =
        let here : st' x ≡ st x = same x (ground (arith, ==_refl x)) in
        (
          s.0,
          s.1,
          rw here s.2,
          rw here (Seg-frame xs (st x).next x n e s.3 (λ a h. same a (ground arith))),
        )

    -- A segment of which only the two ends were linked anew.
    pub Seg-relink :
        (x : Ptr) (xs : List Ptr) (p b n e b' n' : Ptr)
        → Seg st p b (x ∷ xs) n e
        → Distinct (x ∷ xs)
        → ((a : Ptr)
            → has a (x ∷ xs) ≡ true
            → ((st' a).next ≡ (if a == e then n' else (st a).next))
              × ((st' a).prev ≡ (if a == p then b' else (st a).prev)))
        → Seg st' p b' (x ∷ xs) n' e
    Seg-relink x [] p b n e b' n' s d h = ground (arith, h x)
    Seg-relink x (y ∷ xs) p b n e b' n' s d h =
        let inside = has-last y xs (st x).next x n e s.3 in
        let x≠e : (x == e) ≡ false = apart x e (y ∷ xs) d.0 inside in
        let same : (st' x).next ≡ (st x).next = ground (arith, h x) in
        (
          s.0,
          s.1,
          ground (arith, h x),
          rw same (
              Seg-relink y xs (st x).next x n e x n' s.3 d.1
                (λ a i. ground (arith, h a, apart a x (y ∷ xs)))),
        )
