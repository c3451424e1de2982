-- ===== src/Mm/Pages/Free.antt =====
-- Giving pages back: what `page_block_free` does to each page, and that it undoes an allocation.
use gloworm.Prelude.{
  ℕ, zero, suc, ◌+◌, ◌-◌, ◌*◌, ◌/◌, ◌%◌, ◌^◌, ◌<◌, ◌≤◌, ◌≡◌, ◌≢◌, inl, inr, refl, sym, ap, subst,
  ◌∙◌, true, not, ◌&&◌, none, some, ltb, leb, ◌==◌, if◌then◌else◌, Bool-cases, ==_iff, arith,
}
use gloworm.Utils.Queue.{Ptr, null}
use gloworm.Mm.Pages.{
  PageBlock, page_size, is_taken, drop_ref, free_from, page_block_alloc, page_block_free,
}
use gloworm.Mm.Pages.Bitmap.{is_taken-drop, count_free, count_free-same, count_free-set}
use gloworm.Mm.Pages.Alloc.{IsValid, Claimed, page_block_alloc_lem}

some_inj : (a a' : Ptr × PageBlock) → some a ≡ some a' → a ≡ a'
some_inj a a' e = ap (λ o. elim o [ none ↦ a | some x ↦ x ]) e

drop_ref-count :
    (b : PageBlock) (i j : ℕ)
    → (drop_ref b i).refcounts j
      ≡ (if i == j then (b.refcounts i + 0xffff) % 2 ^ 16 else b.refcounts j)
unfolding drop_ref
drop_ref-count b i j = ground arith

drop_ref-total :
    (b : PageBlock) (i : ℕ)
    → ((drop_ref b i).total_pages ≡ b.total_pages)
      × ((drop_ref b i).base ≡ b.base)
      × ((drop_ref b i).free_pages
          ≡ (if (b.refcounts i + 0xffff) % 2 ^ 16 == 0 then b.free_pages + 1 else b.free_pages))
unfolding drop_ref
drop_ref-total b i = (ground arith, ground arith, ground arith)

drop_ref-counted :
    (b : PageBlock) (i : ℕ)
    → IsValid b
    → i < b.total_pages
    → is_taken b i ≡ true
    → (if (b.refcounts i + 0xffff) % 2 ^ 16 == 0 then b.free_pages + 1 else b.free_pages)
      ≡ count_free (is_taken (drop_ref b i)) b.total_pages
drop_ref-counted b i v inside used =
    let taken = is_taken-drop b i in
    elim (Bool-cases ((b.refcounts i + 0xffff) % 2 ^ 16 == 0)) [
      | inl z ↦
          let gained =
            count_free-set (is_taken (drop_ref b i)) (is_taken b) i b.total_pages
              (λ j.
                ground
                  (arith, taken j, z, used, ==_iff i j, ap (λ k. is_taken b k) {x = i} {y = j}))
              (ground (arith, taken i, z)) in
          rw z (ground (arith, gained, v.counted))
      | inr z ↦ rw z (
          v.counted
          ∙ count_free-same (is_taken b) (is_taken (drop_ref b i)) b.total_pages
              (λ j. ground (arith, taken j, z)))
    ]

-- A page in use that loses a reference leaves the block valid.
drop_ref-IsValid :
    (b : PageBlock) (i : ℕ)
    → IsValid b
    → i < b.total_pages
    → is_taken b i ≡ true
    → IsValid (drop_ref b i)
drop_ref-IsValid b i v inside used =
    let (total, _, free) = drop_ref-total b i in
    let taken = is_taken-drop b i in
    let positive : 0 < b.refcounts i = ground (arith, v.used i inside, used) in
    record {
      counted =
          free
          ∙ drop_ref-counted b i v inside used
          ∙ ap (λ t. count_free (is_taken (drop_ref b i)) t) (sym total);
      used = λ j l. ground (
        arith,
        taken j,
        drop_ref-count b i j,
        v.used j (subst (λ t. j < t) total l),
        v.words i,
        positive,
      );
      words = λ j. ground (arith, drop_ref-count b i j, v.words j);
    }

free_from-count :
    (n : ℕ) (b : PageBlock) (i j : ℕ)
    → (free_from n b i).refcounts j
      ≡ (if leb i j && ltb j (i + n) then (b.refcounts j + 0xffff) % 2 ^ 16 else b.refcounts j)
unfolding free_from
free_from-count zero b i j = ground arith
free_from-count (suc n) b i j =
    ground (arith, free_from-count n (drop_ref b i) (i + 1) j, drop_ref-count b i j)

free_from-taken :
    (n : ℕ) (b : PageBlock) (i j : ℕ)
    → is_taken (free_from n b i) j
      ≡ (not (leb i j && ltb j (i + n) && (b.refcounts j + 0xffff) % 2 ^ 16 == 0) && is_taken b j)
unfolding free_from
free_from-taken zero b i j = ground arith
free_from-taken (suc n) b i j =
    ground
      (arith, free_from-taken n (drop_ref b i) (i + 1) j, drop_ref-count b i j, is_taken-drop b i j)

-- Pages in use keep the block valid when each loses a reference.
free_from-IsValid :
    (n : ℕ) (b : PageBlock) (i : ℕ)
    → IsValid b
    → i + n ≤ b.total_pages
    → ((j : ℕ) → i ≤ j → j < i + n → is_taken b j ≡ true)
    → IsValid (free_from n b i) × ((free_from n b i).total_pages ≡ b.total_pages)
unfolding free_from
free_from-IsValid zero b i v inside used = (v, refl)
free_from-IsValid (suc n) b i v inside used =
    let total = (drop_ref-total b i).0 in
    let v' = drop_ref-IsValid b i v (omega arith) (used i (omega arith) (omega arith)) in
    let (valid, same) =
      free_from-IsValid n (drop_ref b i) (i + 1) v' (omega (arith, total))
        (λ j l l'. ground (arith, is_taken-drop b i j, used j (omega arith) (omega arith))) in
    (valid, same ∙ total)

-- Behind an allocation it takes the block back to where it was.
free_from-undoes :
    (b b' : PageBlock) (n s : ℕ)
    → IsValid b
    → Claimed b b' n s
    → let b'' = free_from n b' s in
      IsValid b''
      × ((j : ℕ) → is_taken b'' j ≡ is_taken b j)
      × ((j : ℕ) → j < b.total_pages → b''.refcounts j ≡ b.refcounts j)
      × (b''.free_pages ≡ b.free_pages)
free_from-undoes b b' n s v c =
    let total = c.total in
    let b'' = free_from n b' s in
    let (valid, same) =
      free_from-IsValid n b' s c.valid (omega (arith, total, c.run.inside))
        (λ j l l'. ground (arith, c.taken j)) in
    let bits : (j : ℕ) → is_taken b'' j ≡ is_taken b j = λ j.
      ground
        (arith, free_from-taken n b' s j, c.taken j, c.counts j, c.run.free j, c.valid.words j) in
    let counts : (j : ℕ) → j < b.total_pages → b''.refcounts j ≡ b.refcounts j =
      λ j l. ground (arith, free_from-count n b' s j, c.counts j, c.run.free j, v.used j l) in
    let size = same ∙ total in
    (
      valid,
      bits,
      counts,
      valid.counted
          ∙ ap (λ t. count_free (is_taken b'') t) size
          ∙ count_free-same _ _ b.total_pages bits
          ∙ sym v.counted,
    )

-- What an allocation returns, read back from its result.
page_block_alloc-Claimed :
    (b : PageBlock) (size ptr : ℕ) (b' : PageBlock)
    → IsValid b
    → page_size ≤ size
    → page_block_alloc b size ≡ some (ptr, b')
    → ptr ≢ null
    → (s : ℕ) × (ptr ≡ b.base + s * page_size) × Claimed b b' (size / page_size) s
page_block_alloc-Claimed b size ptr b' v big e ne = elim (page_block_alloc_lem b size v big) [
  | inl (s, c, r, claimed) ↦
      let same = some_inj (b.base + s * page_size, c) (ptr, b') (sym r ∙ e) in
      (
        s,
        sym (ap (λ p. p.0) same),
        subst (λ c. Claimed b c (size / page_size) s) (ap (λ p. p.1) same) claimed,
      )
  | inr (r, _) ↦ absurd (ne (sym (ap (λ p. p.0) (some_inj (null, b) (ptr, b') (sym r ∙ e)))))
]

-- For a valid block and a size of one page or more, `page_block_free` of what `page_block_alloc`
-- returned, if that is not null, undoes it: each page is taken or free as before, with the
-- references that it had, the number of free pages is the same, and the block is valid.
pub page_block_free-alloc :
    (b : PageBlock) (size ptr : ℕ) (b' : PageBlock)
    → IsValid b
    → page_size ≤ size
    → page_block_alloc b size ≡ some (ptr, b')
    → ptr ≢ null
    → let b'' = page_block_free b' ptr size in
      IsValid b''
      × ((j : ℕ) → is_taken b'' j ≡ is_taken b j)
      × ((j : ℕ) → j < b.total_pages → b''.refcounts j ≡ b.refcounts j)
      × (b''.free_pages ≡ b.free_pages)
unfolding page_block_free
page_block_free-alloc b size ptr b' v big e ne =
    let (s, at, c) = page_block_alloc-Claimed b size ptr b' v big e ne in
    let page : s ≡ (ptr - b'.base) / page_size = omega (arith, at, c.base) in
    subst
      (λ i.
        let b'' = free_from (size / page_size) b' i in
        IsValid b''
        × ((j : ℕ) → is_taken b'' j ≡ is_taken b j)
        × ((j : ℕ) → j < b.total_pages → b''.refcounts j ≡ b.refcounts j)
        × (b''.free_pages ≡ b.free_pages))
      page (free_from-undoes b b' (size / page_size) s v c)
