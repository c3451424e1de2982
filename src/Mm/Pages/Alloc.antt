-- ===== src/Mm/Pages/Alloc.antt =====
-- What `page_block_alloc` finds: the first run of free pages that is long enough.
use gloworm.Prelude.{
  ℕ, zero, suc, ◌+◌, ◌-◌, ◌*◌, ◌/◌, ◌%◌, ◌^◌, ◌<◌, ◌≤◌, ◌≡◌, ◌⊎◌, inl, inr, refl, sym, ap, subst,
  ◌∙◌, true, false, not, ◌&&◌, ◌||◌, Option, some, ltb, leb, ◌==◌, if◌then◌else◌, Bool-cases,
  ==_iff, arith,
}
use gloworm.Prelude.Bits.{bit_at-ones}
use gloworm.Utils.Queue.{Ptr, null}
use gloworm.Mm.Pages.{
  PageBlock, page_size, all_pages_at_index, is_taken, run_end, mark, claim, alloc_from,
  page_block_alloc,
}
use gloworm.Mm.Pages.Bitmap.{
  is_taken-bit, count_free, count_free-same, claim-taken, claim-refcounts, claim-count,
}

-- The bits and the counts of a block agree.
pub record IsValid (b : PageBlock) : Type 0 where
  pub counted : b.free_pages ≡ count_free (is_taken b) b.total_pages
  pub used : (i : ℕ) → i < b.total_pages → is_taken b i ≡ not (b.refcounts i == 0)
  pub words : (i : ℕ) → b.refcounts i < 2 ^ 16

-- `n` pages from `s` on are free.
pub record Run (b : PageBlock) (n s : ℕ) : Type 0 where
  pub inside : s + n ≤ b.total_pages
  pub free : (i : ℕ) → s ≤ i → i < s + n → is_taken b i ≡ false

-- Where the search for the end of a run stops.
record End (b : PageBlock) (n s e : ℕ) : Type 0 where
  ahead : s < e
  bounded : e ≤ b.total_pages
  short : e ≤ s + n
  free : (i : ℕ) → s ≤ i → i < e → is_taken b i ≡ false
  why : (e ≡ b.total_pages) ⊎ (e ≡ s + n) ⊎ (is_taken b e ≡ true)

run_end-End :
    (rounds : ℕ) (b : PageBlock) (n s e : ℕ)
    → b.total_pages ≤ e + rounds
    → s < e
    → e ≤ b.total_pages
    → e ≤ s + n
    → ((i : ℕ) → s ≤ i → i < e → is_taken b i ≡ false)
    → End b n s (run_end rounds b n s e)
unfolding run_end
run_end-End zero b n s e fuel ahead bounded short free = record {
  ahead = ahead;
  bounded = bounded;
  short = short;
  free = free;
  why = inl (omega arith);
}
run_end-End (suc r) b n s e fuel ahead bounded short free =
    elim (Bool-cases (ltb e b.total_pages && ltb (e - s) n && not (is_taken b e))) [
      | inl a ↦ rw a (
          run_end-End r b n s (e + 1) (omega arith) (omega arith) (ground (arith, a))
            (ground (arith, a))
            (λ i l l'. elim (Bool-cases (i == e)) [
              | inl x ↦ rw ((==_iff _ _).0 x) (ground (arith, a))
              | inr x ↦ free i l (ground (arith, x))
            ]))
      | inr a ↦ rw a (record {
        ahead = ahead;
        bounded = bounded;
        short = short;
        free = free;
        why = ground arith;
      })
    ]

-- The search enters a word at its first page, or knows that it is not full.
abbrev Entered : PageBlock → ℕ → Type 0
Entered b start = (start % 16 ≡ 0) ⊎ ((b.bitmap (start / 16) == all_pages_at_index) ≡ false)

abbrev NoRunBefore : PageBlock → ℕ → ℕ → Type 0
NoRunBefore b n start = (s : ℕ) → s < start → Run b n s → ⊥

full_word :
    (b : PageBlock) (start i : ℕ)
    → (b.bitmap (start / 16) == all_pages_at_index) ≡ true
    → i / 16 ≡ start / 16
    → is_taken b i ≡ true
full_word b start i full same =
    ground
      (arith, is_taken-bit b i, full, same, bit_at-ones (i % 16) (omega arith), (==_iff _ _).0 full)

skip_word :
    (b : PageBlock) (n start : ℕ)
    → 0 < n
    → Entered b start
    → (b.bitmap (start / 16) == all_pages_at_index) ≡ true
    → NoRunBefore b n start
    → NoRunBefore b n (start + 16)
skip_word b n start some_pages entered full none_yet s l run = elim (Bool-cases (ltb s start)) [
  | inl a ↦ none_yet s (ground (arith, a)) run
  | inr a ↦
      let taken = full_word b start s full (ground (arith, a, entered, full)) in
      ground (arith, taken, run.free s (omega arith) (omega (arith, some_pages)))
]

one_free :
    (b : PageBlock) (start i : ℕ)
    → is_taken b start ≡ false
    → start ≤ i
    → i < start + 1
    → is_taken b i ≡ false
one_free b start i h l l' = subst (λ j. is_taken b j ≡ false) (omega arith) h

not_here :
    (b : PageBlock) (n start : ℕ)
    → 0 < n
    → start < b.total_pages
    → (let e = run_end b.total_pages b n start (start + 1) in
        (is_taken b start || ltb b.total_pages e || ltb (e - start) n) ≡ true)
    → Run b n start
    → ⊥
not_here b n start some_pages inside why run =
    let e = run_end b.total_pages b n start (start + 1) in
    let here = run.free start (omega arith) (omega (arith, some_pages)) in
    let end =
      run_end-End b.total_pages b n start (start + 1) (omega arith) (omega arith) (omega arith)
        (omega arith) (λ i l l'. one_free b start i here l l') in
    let gap : e < start + n = ground (arith, why, here, end.bounded, end.ahead) in
    elim end.why [
      | inl x ↦ omega (arith, run.inside, gap, x)
      | inr (inl x) ↦ omega (arith, gap, x)
      | inr (inr x) ↦ ground (arith, x, run.free e (omega (arith, end.ahead)) gap)
    ]

skip_page :
    (b : PageBlock) (n start : ℕ)
    → 0 < n
    → start < b.total_pages
    → (let e = run_end b.total_pages b n start (start + 1) in
        (is_taken b start || ltb b.total_pages e || ltb (e - start) n) ≡ true)
    → NoRunBefore b n start
    → NoRunBefore b n (start + 1)
skip_page b n start some_pages inside why none_yet s l run = elim (Bool-cases (ltb s start)) [
  | inl a ↦ none_yet s (ground (arith, a)) run
  | inr a ↦
      not_here b n start some_pages inside why (subst (λ j. Run b n j) (ground (arith, a)) run)
]

-- The block behind an allocation of the run at `s`.
pub record Claimed (b b' : PageBlock) (n s : ℕ) : Type 0 where
  pub run : Run b n s
  pub first : NoRunBefore b n s
  pub taken : (j : ℕ) → is_taken b' j ≡ ((leb s j && ltb j (s + n)) || is_taken b j)
  pub counts : (j : ℕ) → b'.refcounts j ≡ (if leb s j && ltb j (s + n) then 1 else b.refcounts j)
  pub left : b'.free_pages + n ≡ b.free_pages
  pub total : b'.total_pages ≡ b.total_pages
  pub base : b'.base ≡ b.base
  pub valid : IsValid b'

abbrev pub Allocated : PageBlock → ℕ → Option (Ptr × PageBlock) → Type 0
Allocated b n r =
    ((s : ℕ) × (b' : PageBlock) × (r ≡ some (b.base + s * page_size, b')) × Claimed b b' n s)
    ⊎ ((r ≡ some (null, b)) × ((s : ℕ) → Run b n s → ⊥))

claim-total : (n : ℕ) (b : PageBlock) (s : ℕ) → (claim n b s).total_pages ≡ b.total_pages
unfolding claim mark
claim-total zero b s = refl
claim-total (suc n) b s = claim-total n (mark b s) (s + 1)

claim-base : (n : ℕ) (b : PageBlock) (s : ℕ) → (claim n b s).base ≡ b.base
unfolding claim mark
claim-base zero b s = refl
claim-base (suc n) b s = claim-base n (mark b s) (s + 1)

-- The number of free pages is not part of the bitmap.
pub is_taken-count :
    (b : PageBlock) (f i : ℕ) → is_taken (record b { free_pages = f }) i ≡ is_taken b i
unfolding is_taken
is_taken-count b f i = refl

claim-Claimed :
    (b : PageBlock) (n s : ℕ)
    → IsValid b
    → Run b n s
    → NoRunBefore b n s
    → Claimed b (record (claim n b s) { free_pages = b.free_pages - n }) n s
claim-Claimed b n s v run first =
    let b' = record (claim n b s) { free_pages = b.free_pages - n } in
    let same = is_taken-count (claim n b s) (b.free_pages - n) in
    let taken : (j : ℕ) → is_taken b' j ≡ ((leb s j && ltb j (s + n)) || is_taken b j) =
      λ j. same j ∙ claim-taken n b s j in
    let count = claim-count n b s b.total_pages run.free run.inside in
    let total = claim-total n b s in
    let same_count = count_free-same (is_taken b') (is_taken (claim n b s)) b.total_pages same in
    let counted : b.free_pages - n ≡ count_free (is_taken b') b.total_pages =
      omega (arith, count, same_count, v.counted) in
    record {
      run = run;
      first = first;
      taken = taken;
      counts = claim-refcounts n b s;
      left = omega (arith, count, v.counted);
      total = total;
      base = claim-base n b s;
      valid = record {
        counted = counted ∙ ap (λ t. count_free (is_taken b') t) (sym total);
        used = λ i l.
            ground (arith, taken i, claim-refcounts n b s i, v.used i (subst (λ t. i < t) total l));
        words = λ i. ground (arith, claim-refcounts n b s i, v.words i);
      };
    }

next_word :
    (b : PageBlock) (start : ℕ)
    → Entered b start
    → (b.bitmap (start / 16) == all_pages_at_index) ≡ true
    → Entered b (start + 16)
next_word b start entered w = inl (ground (arith, entered, w))

next_page :
    (b : PageBlock) (start : ℕ)
    → (b.bitmap (start / 16) == all_pages_at_index) ≡ false
    → Entered b (start + 1)
next_page b start w = elim (Bool-cases ((start + 1) % 16 == 0)) [
  | inl e ↦ inl (ground (arith, e))
  | inr e ↦
      let same : start / 16 ≡ (start + 1) / 16 = ground (arith, e) in
      inr (subst (λ i. (b.bitmap i == all_pages_at_index) ≡ false) same w)
]

-- Where the search stops at a run that is long enough.
found :
    (b : PageBlock) (n start : ℕ)
    → IsValid b
    → start < b.total_pages
    → 0 < n
    → NoRunBefore b n start
    → let e = run_end b.total_pages b n start (start + 1) in
      (is_taken b start || ltb b.total_pages e || ltb (e - start) n) ≡ false
      → Allocated b n (
          some (
            b.base + start * page_size,
            record (claim (e - start) b start) { free_pages = b.free_pages - n },
          ))
found b n start v inside some_pages none_yet c =
    let e = run_end b.total_pages b n start (start + 1) in
    let end =
      run_end-End b.total_pages b n start (start + 1) (omega arith) (omega arith) (omega arith)
        (omega arith) (λ i l l'. one_free b start i (ground (arith, c)) l l') in
    let exact : e ≡ start + n = ground (arith, c, end.ahead, end.short) in
    let length : e - start ≡ n = omega arith in
    let run : Run b n start = record {
      inside = omega (arith, exact, end.bounded);
      free = λ i l l'. end.free i l (omega (arith, exact));
    } in
    subst
      (λ m. Allocated b n (
        some
          (b.base + start * page_size, record (claim m b start) { free_pages = b.free_pages - n })))
      (sym length) (inl (start, _, refl, claim-Claimed b n start v run none_yet))

alloc_from-Allocated :
    (fuel : ℕ) (b : PageBlock) (n start : ℕ)
    → IsValid b
    → 0 < n
    → b.total_pages - start < fuel
    → Entered b start
    → NoRunBefore b n start
    → Allocated b n (alloc_from fuel b n start)
unfolding alloc_from
alloc_from-Allocated zero b n start v some_pages f entered none_yet = absurd (omega arith)
alloc_from-Allocated (suc fuel) b n start v some_pages f entered none_yet =
    let e = run_end b.total_pages b n start (start + 1) in
    let full = b.bitmap (start / 16) == all_pages_at_index in
    elim (Bool-cases (ltb start b.total_pages)) [
      | inr a ↦ rw a (inr (refl, λ s run. none_yet s (ground (arith, a, run.inside)) run))
      | inl a ↦ elim (Bool-cases full) [
        | inl w ↦
            rw (a, w)
              (alloc_from-Allocated fuel b n (start + 16) v some_pages (ground (arith, a))
                (next_word b start entered w) (skip_word b n start some_pages entered w none_yet))
        | inr w ↦ elim (Bool-cases (is_taken b start || ltb b.total_pages e || ltb (e - start) n)) [
          | inl c ↦
              rw (a, w, c)
                (alloc_from-Allocated fuel b n (start + 1) v some_pages (ground (arith, a))
                  (next_page b start w)
                  (skip_page b n start some_pages (ground (arith, a)) c none_yet))
          | inr c ↦ rw (a, w, c) (found b n start v (ground (arith, a)) some_pages none_yet c)
        ]
      ]
    ]

-- For a size of one page or more and a valid block, `page_block_alloc` ends. It returns the lowest
-- run of free pages that is long enough, and marks its pages with one reference each and no others,
-- which leaves the block valid; or it returns null and changes nothing, and there is no such run.
pub page_block_alloc_lem :
    (b : PageBlock) (size : ℕ)
    → IsValid b
    → page_size ≤ size
    → Allocated b (size / page_size) (page_block_alloc b size)
unfolding page_block_alloc
page_block_alloc_lem b size v big =
    alloc_from-Allocated (b.total_pages + 1) b (size / page_size) 0 v (omega arith) (omega arith)
      (inl refl) (λ s l. absurd (omega arith))
