-- ===== src/Mm/Heap/Alloc.antt =====
-- What `kmalloc` takes from the list of free blocks.
use gloworm.Prelude.{
  ℕ, zero, suc, ◌+◌, ◌<◌, ◌≤◌, ◌≡◌, ◌≢◌, ◌⊎◌, inl, inr, refl, sym, ap, ◌∙◌, subst, true, false,
  ◌&&◌, ◌||◌, List, [], ◌∷◌, ltb, leb, ◌==◌, Bool-cases, arith, length,
}
use gloworm.Utils.Queue.{Ptr, null}
use gloworm.Mm.Pages.{align_up}
use gloworm.Mm.Heap.{Block, Heap, HeapResult, done, add32, take_block, alloc_from, kmalloc}
use gloworm.Mm.Heap.List.{Chain, Sparse, Apart, covers}
use gloworm.Mm.Heap.Take.{HoldHeaders, Place, Without, Taken, take_whole, take_part}
use gloworm.Mm.Heap.Free.{IsFree, free_bytes-bound}

-- A free block has room for `bs` bytes.
abbrev pub HasRoom : (bs : ℕ) → List (ℕ × ℕ) → Type 0
HasRoom bs [] = ⊥
HasRoom bs (f ∷ fs) = (bs ≤ f.1) ⊎ HasRoom bs fs

next-Place :
    (h : Heap) (prev cur low : ℕ) (f : ℕ × ℕ) (fs : List (ℕ × ℕ))
    → Place h prev cur low (f ∷ fs)
    → Place h cur (h.blocks cur).next (f.0 + f.1) fs
next-Place h prev cur low f fs p =
    let (l, q, fits, s) = p.sparse in
    let (at, size, c) = p.chain in
    record {
      chain = c;
      sparse = s;
      past = omega (arith, at);
      first = λ e. absurd (omega (arith, e, at, l));
      behind = λ ne. refl;
    }

behind-Taken :
    (h h' : Heap) (prev cur low a m : ℕ) (f : ℕ × ℕ) (fs fs' : List (ℕ × ℕ))
    → Place h prev cur low (f ∷ fs)
    → Taken h h' cur (f.0 + f.1) a m fs'
    → Taken h h' prev low a m (f ∷ fs')
behind-Taken h h' prev cur low a m f fs fs' p t =
    let (l, q, fits, s) = p.sparse in
    let (at, size, c) = p.chain in
    let some_address : cur ≢ null = λ e. omega (arith, e, at, l) in
    let here = t.behind some_address in
    let same : (x : Ptr) → x ≤ low → h'.blocks x ≡ h.blocks x =
      λ x k. t.kept x (omega (arith, k, l)) (λ e. omega (arith, e, k, l, at)) in
    let first : h'.free_blocks ≡ h.free_blocks = t.first ∙ ground (arith, some_address) in
    record {
      entry = cur;
      chain = (
        at,
        ap (λ b. b.size) here ∙ size,
        subst (λ (b : Block). Chain h'.blocks b.next fs') (sym here) t.chain,
      );
      block = t.block;
      first = ground (arith, first, p.first);
      behind = λ ne.
          same prev p.past
          ∙ ap (λ q. record { size = (h.blocks prev).size; next = q }) (p.behind ne);
      kept = λ x k ne. same x k;
      free = t.free;
      allocated = t.allocated;
    }

behind-Without :
    (bs a m low : ℕ) (f : ℕ × ℕ) (fs fs' : List (ℕ × ℕ))
    → Sparse low (f ∷ fs)
    → Without bs a m (f.0 + f.1) fs fs'
    → Without bs a m low (f ∷ fs) (f ∷ fs')
behind-Without bs a m low f fs fs' (l, q, fits, s) w = record {
  sparse = (l, q, fits, w.sparse);
  covers_both = λ x. ground (arith, w.covers_both x);
  apart = (inl (omega (arith, w.inside.0)), w.apart);
  enough = w.enough;
  inside = (omega (arith, l, w.inside.0), w.inside.1);
  bytes = omega (arith, w.bytes);
  headers = λ hs. (hs.0, w.headers hs.1);
}

-- What `kmalloc` returns from the list.
abbrev Allotted : (h : Heap) (bs prev low : ℕ) → List (ℕ × ℕ) → HeapResult → Type 0
Allotted h bs prev low fs r =
    (a m : ℕ) × (h' : Heap) × (fs' : List (ℕ × ℕ)) × (r ≡ done (a + 8) h')
    × Taken h h' prev low a m fs'
    × Without bs a m low fs fs'

alloc_from-Allotted :
    (fuel : ℕ) (h : Heap) (bs prev cur low : ℕ) (fs : List (ℕ × ℕ))
    → Place h prev cur low fs
    → 0 < bs
    → HasRoom bs fs
    → length fs < fuel
    → Allotted h bs prev low fs (alloc_from fuel h bs prev cur)
unfolding alloc_from
alloc_from-Allotted zero h bs prev cur low fs p some_bytes room l = absurd (omega arith)
alloc_from-Allotted (suc fuel) h bs prev cur low [] p some_bytes room l = absurd room
alloc_from-Allotted (suc fuel) h bs prev cur low (f ∷ fs) p some_bytes room l =
    let (low_ok, q, fits, s) = p.sparse in
    let (at, size, c) = p.chain in
    let some_block : (cur == null) ≡ false = ground (arith, at, low_ok) in
    elim (Bool-cases (leb bs f.1)) [
      | inl t ↦
          let here : leb bs (h.blocks cur).size ≡ true = ap (λ n. leb bs n) size ∙ t in
          elim (Bool-cases (leb (bs + 16) f.1)) [
            | inl u ↦
                let (taken, without) = take_part h bs prev cur low f fs p some_bytes u in
                (
                  f.0,
                  bs,
                  _,
                  _,
                  rw (some_block, here) (ap (λ a. done (a + 8) (take_block h bs prev cur)) at),
                  taken,
                  without,
                )
            | inr u ↦
                let (taken, without) = take_whole h bs prev cur low f fs p (ground (arith, t)) u in
                (
                  f.0,
                  f.1,
                  _,
                  _,
                  rw (some_block, here) (ap (λ a. done (a + 8) (take_block h bs prev cur)) at),
                  taken,
                  without,
                )
          ]
      | inr t ↦
          let later : leb bs (h.blocks cur).size ≡ false = ap (λ n. leb bs n) size ∙ t in
          let room' : HasRoom bs fs = elim room [
            | inl k ↦ absurd (ground (arith, k, t))
            | inr k ↦ k
          ] in
          let (a, m, h', fs', e, taken, without) =
            alloc_from-Allotted fuel h bs cur (h.blocks cur).next (f.0 + f.1) fs
              (next-Place h prev cur low f fs p) some_bytes room' (omega (arith, l)) in
          (
            a,
            m,
            h',
            f ∷ fs',
            rw (some_block, later) e,
            behind-Taken h h' prev cur low a m f fs fs' p taken,
            behind-Without bs a m low f fs fs' p.sparse without,
          )
    ]

-- If the free blocks are linked in the order of their addresses, no two touch, each has room for its
-- header of eight bytes, and the counter holds their sizes, and one has room for the size, rounded up
-- to words, and the eight bytes before it, then `kmalloc` ends with a round more than there are free
-- blocks. It returns the address behind those eight bytes of a block with that room, which it
-- unlinks; the same holds of the free blocks that it leaves, so that no header that it writes lies on
-- another block, and the bytes that were free are those of the block and those still free, which are
-- apart.
pub kmalloc-IsFree :
    (fuel : ℕ) (h : Heap) (size : ℕ) (fs : List (ℕ × ℕ))
    → IsFree h fs
    → HoldHeaders fs
    → HasRoom (align_up size 4 + 8) fs
    → length fs < fuel
    → (a m : ℕ) × (h' : Heap) × (fs' : List (ℕ × ℕ)) × (kmalloc fuel h size ≡ done (a + 8) h')
      × IsFree h' fs'
      × HoldHeaders fs'
      × (h'.blocks a ≡ record { size = m; next = null })
      × (align_up size 4 + 8 ≤ m)
      × ((x : ℕ) → covers fs x ≡ ((leb a x && ltb x (a + m)) || covers fs' x))
      × Apart a m fs'
      × (h'.bytes_allocated ≡ add32 h.bytes_allocated m)
unfolding kmalloc
kmalloc-IsFree fuel h size fs v hold room l =
    let place : Place h null h.free_blocks 0 fs = record {
      chain = v.chain;
      sparse = v.sparse;
      past = omega arith;
      first = λ e. refl;
      behind = λ ne. absurd (ne refl);
    } in
    let (a, m, h', fs', e, t, w) =
      alloc_from-Allotted fuel h (align_up size 4 + 8) null h.free_blocks 0 fs place (omega arith)
        room l in
    let bound = free_bytes-bound 0 fs (omega arith) v.sparse in
    (
      a,
      m,
      h',
      fs',
      e,
      record {
        chain = subst (λ p. Chain h'.blocks p fs') (sym t.first) t.chain;
        sparse = w.sparse;
        counted = t.free ∙ omega (arith, v.counted, w.bytes, bound);
      },
      w.headers hold,
      t.block,
      w.enough,
      w.covers_both,
      w.apart,
      t.allocated,
    )
