-- ===== src/Mm/Pages/Init.antt =====
-- What a block is like behind its initialisation.
use gloworm.Prelude.{
  ℕ, zero, suc, ◌*◌, ◌/◌, ◌%◌, ◌<◌, ◌≤◌, ◌≡◌, refl, sym, ap, ap₂, inl, inr, Bool-cases, ==_iff, ◌∙◌,
  Bool, true, false, ◌==◌, arith,
}
use gloworm.Prelude.Bits.{bit_at, bit_at-zero, zero_bit}
use gloworm.Mm.Pages.{page_size, is_taken, init_page_block_with_bitmap}
use gloworm.Mm.Pages.Bitmap.{is_taken-bit, count_free}
use gloworm.Mm.Pages.Alloc.{IsValid}

count_free-all : (p : ℕ → Bool) (k : ℕ) → ((i : ℕ) → p i ≡ false) → count_free p k ≡ k
count_free-all p zero h = refl
count_free-all p (suc k) h = ground (arith, h k, count_free-all p k h)

count_free-le : (p : ℕ → Bool) (k : ℕ) → count_free p k ≤ k
count_free-le p zero = omega arith
count_free-le p (suc k) = ground (arith, count_free-le p k)

count_free-lt : (p : ℕ → Bool) (i k : ℕ) → p i ≡ true → i < k → count_free p k < k
count_free-lt p i zero h l = absurd (omega arith)
count_free-lt p i (suc k) h l = elim (Bool-cases (i == k)) [
  | inl e ↦ ground (arith, e, h, ap p ((==_iff i k).0 e), count_free-le p k)
  | inr e ↦ ground (arith, e, count_free-lt p i k h)
]

module _ (size addr : ℕ) (bitmap : ℕ → ℕ) (bitmap_size : ℕ) (descriptors : ℕ → ℕ) (flags : ℕ) where
  -- Over memory that holds zeros, a new block is valid and all its pages are free.
  pub init-IsValid_zeroed :
      ((i : ℕ) → bitmap i ≡ 0)
      → ((i : ℕ) → descriptors i ≡ 0)
      → let b = (init_page_block_with_bitmap size addr bitmap bitmap_size descriptors flags).1 in
        IsValid b × (b.free_pages ≡ size / page_size) × ((i : ℕ) → is_taken b i ≡ false)
  unfolding init_page_block_with_bitmap
  init-IsValid_zeroed clear unused =
      let b = (init_page_block_with_bitmap size addr bitmap bitmap_size descriptors flags).1 in
      let free : (i : ℕ) → is_taken b i ≡ false =
        λ i. is_taken-bit b i ∙ ground (arith, clear (i / 16), zero_bit (i % 16)) in
      let counts : (i : ℕ) → b.refcounts i ≡ 0 = λ i. ground (arith, unused i) in
      (
        record {
          counted = sym (count_free-all (is_taken b) (size / page_size) free);
          used = λ i l. ground (arith, free i, counts i);
          words = λ i. omega (arith, counts i);
        },
        refl,
        free,
      )

  -- A block of more than eight pages for each entry of its bitmap keeps what the memory behind the
  -- first half of the bitmap holds: `memset` is given the number of entries, not of bytes. If the bit
  -- of the page is set there, then the page is taken from the start, and the block is not valid.
  init_keeps_bits :
      bitmap_size % 2 ≡ 0
      → 8 * bitmap_size < size / page_size
      → bitmap (bitmap_size / 2) % 2 ≡ 1
      → let b = (init_page_block_with_bitmap size addr bitmap bitmap_size descriptors flags).1 in
        (is_taken b (8 * bitmap_size) ≡ true) × ¬ IsValid b
  unfolding init_page_block_with_bitmap
  init_keeps_bits even long set =
      let b = (init_page_block_with_bitmap size addr bitmap bitmap_size descriptors flags).1 in
      let place : 8 * bitmap_size / 16 ≡ bitmap_size / 2 = omega arith in
      let low : 8 * bitmap_size % 16 ≡ 0 = omega arith in
      let word : b.bitmap (bitmap_size / 2) ≡ bitmap (bitmap_size / 2) = ground arith in
      let same : b.bitmap (8 * bitmap_size / 16) ≡ bitmap (bitmap_size / 2) =
        ap b.bitmap place ∙ word in
      let one : bit_at (b.bitmap (8 * bitmap_size / 16)) (8 * bitmap_size % 16) ≡ 1 =
        ap₂ bit_at same low ∙ bit_at-zero (bitmap (bitmap_size / 2)) ∙ set in
      let taken : is_taken b (8 * bitmap_size) ≡ true =
        is_taken-bit b (8 * bitmap_size) ∙ ground (arith, one) in
      (
        taken,
        λ v. omega (
          arith,
          v.counted,
          count_free-lt (is_taken b) (8 * bitmap_size) (size / page_size) taken long,
        ),
      )
