-- ===== src/Mm/Pages/Bitmap.antt =====
-- The bitmap as a set of pages: what marking and clearing a bit do to each of them.
use gloworm.Prelude.{
  ℕ, zero, suc, ◌+◌, ◌-◌, ◌/◌, ◌%◌, ◌^◌, ◌<◌, ◌≤◌, ◌≡◌, inl, inr, refl, sym, ap, ◌∙◌, Bool, false,
  not, ◌&&◌, ◌||◌, ltb, leb, ◌==◌, if◌then◌else◌, Bool-cases, update, arith,
}
use gloworm.Prelude.Bits.{
  bit_at, bit_at-or, bit_at-and, bit_at-pow, bit_at-complement, bit_and-pow, bit_at-le,
}
use Prim.Native.Nat.{bit_and}
use gloworm.Mm.Pages.{PageBlock, is_taken, mark, claim, drop_ref}

-- A page's bit is the one with its remainder in the word with its quotient.
pub is_taken-bit :
    (b : PageBlock) (i : ℕ) → is_taken b i ≡ not (bit_at (b.bitmap (i / 16)) (i % 16) == 0)
unfolding is_taken
is_taken-bit b i = ap not (bit_and-pow (b.bitmap (i / 16)) (i % 16))

same_place : (i j : ℕ) → (i == j) ≡ ((i / 16 == j / 16) && (i % 16 == j % 16))
same_place i j = ground arith

pub is_taken-mark : (b : PageBlock) (i j : ℕ) → is_taken (mark b i) j ≡ ((i == j) || is_taken b j)
unfolding mark
is_taken-mark b i j =
    let w = b.bitmap (i / 16) in
    ground (
      arith,
      is_taken-bit (mark b i) j,
      is_taken-bit b j,
      same_place i j,
      bit_at-or w (2 ^ (i % 16)) (j % 16),
      bit_at-pow (i % 16) (j % 16),
      bit_at-le w (j % 16),
    )

-- A page that loses its last reference is no longer taken.
pub is_taken-drop :
    (b : PageBlock) (i j : ℕ)
    → is_taken (drop_ref b i) j ≡ (
        if (b.refcounts i + 0xffff) % 2 ^ 16 == 0
        then not (i == j) && is_taken b j
        else is_taken b j)
unfolding drop_ref
is_taken-drop b i j = elim (Bool-cases ((b.refcounts i + 0xffff) % 2 ^ 16 == 0)) [
  | inr e ↦ rw e (is_taken-bit _ j ∙ sym (is_taken-bit b j))
  | inl e ↦ rw (e, is_taken-bit b j) (is_taken-bit _ j ∙ cleared)
]
  where
    cleared :
        not (
          bit_at
            (update b.bitmap
              (i / 16)
              (bit_and (b.bitmap (i / 16)) (0xffff - 2 ^ (i % 16)))
              (j / 16))
            (j % 16)
          == 0)
        ≡ (not (i == j) && not (bit_at (b.bitmap (j / 16)) (j % 16) == 0))
    cleared = ground (
      arith,
      same_place i j,
      bit_at-and (b.bitmap (i / 16)) (0xffff - 2 ^ (i % 16)) (j % 16),
      bit_at-complement (i % 16) (j % 16) (omega arith) (omega arith),
      bit_at-le (b.bitmap (i / 16)) (j % 16),
    )

-- How many of the first `k` numbers a test refuses.
abbrev pub count_free : (ℕ → Bool) → ℕ → ℕ
count_free p zero = 0
count_free p (suc k) = count_free p k + (if p k then 0 else 1)

pub count_free-same :
    (p q : ℕ → Bool) (k : ℕ) → ((i : ℕ) → p i ≡ q i) → count_free p k ≡ count_free q k
count_free-same p q zero e = refl
count_free-same p q (suc k) e =
    omega (arith, count_free-same p q k e, ap {B = ℕ} (λ b. if b then 0 else 1) (e k))

pub count_free-set :
    (p q : ℕ → Bool) (i k : ℕ)
    → ((j : ℕ) → q j ≡ ((i == j) || p j))
    → p i ≡ false
    → count_free p k ≡ count_free q k + (if ltb i k then 1 else 0)
count_free-set p q i zero e h = ground arith
count_free-set p q i (suc k) e h = ground (arith, e k, count_free-set p q i k e h)

pub claim-taken :
    (n : ℕ) (b : PageBlock) (i j : ℕ)
    → is_taken (claim n b i) j ≡ ((leb i j && ltb j (i + n)) || is_taken b j)
unfolding claim
claim-taken zero b i j = ground arith
claim-taken (suc n) b i j = ground (arith, claim-taken n (mark b i) (i + 1) j, is_taken-mark b i j)

pub claim-refcounts :
    (n : ℕ) (b : PageBlock) (i j : ℕ)
    → (claim n b i).refcounts j ≡ (if leb i j && ltb j (i + n) then 1 else b.refcounts j)
unfolding claim mark
claim-refcounts zero b i j = ground arith
claim-refcounts (suc n) b i j = ground (arith, claim-refcounts n (mark b i) (i + 1) j)

-- Claiming free pages takes as many from the number of free ones.
pub claim-count :
    (n : ℕ) (b : PageBlock) (i k : ℕ)
    → ((j : ℕ) → i ≤ j → j < i + n → is_taken b j ≡ false)
    → i + n ≤ k
    → count_free (is_taken b) k ≡ count_free (is_taken (claim n b i)) k + n
unfolding claim
claim-count zero b i k h l = omega arith
claim-count (suc n) b i k h l = omega (
  arith,
  count_free-set (is_taken b) (is_taken (mark b i)) i k (is_taken-mark b i)
      (h i (omega arith) (omega arith)),
  claim-count n (mark b i) (i + 1) k
      (λ j l l'. ground (arith, is_taken-mark b i j, h j (omega arith) (omega arith)))
      (omega arith),
  below,
)
  where
    below : ◌≡◌ {A = ℕ} (if ltb i k then 1 else 0) 1
    below = ground arith
