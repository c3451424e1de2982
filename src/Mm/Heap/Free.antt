-- ===== src/Mm/Heap/Free.antt =====
-- What `kmfree` does to the list of free blocks.
use gloworm.Prelude.{
  ℕ, zero, suc, ◌+◌, ◌-◌, ◌^◌, ◌<◌, ◌≤◌, ◌≡◌, ◌≢◌, inl, inr, refl, sym, ap, ◌∙◌, subst, true, false,
  ◌&&◌, ◌||◌, List, [], ◌∷◌, ltb, leb, ◌==◌, Bool-cases, ==_iff, arith, length,
}
use gloworm.Utils.Queue.{Ptr, null}
use gloworm.Mm.Heap.{Block, Heap, done, add32, sub32, write_next, write_link, free_from, kmfree}
use gloworm.Mm.Heap.Link.{link_before-Linked, link_last-Linked}
use gloworm.Mm.Heap.Splice.{
  Place, Spliced, last-Spliced, before-Spliced, previous, still_first, touching-Spliced,
}
use gloworm.Mm.Heap.List.{
  Chain, Sparse, Apart, covers, free_bytes, insert_free, insert_free-Sparse, insert_free-covers,
  insert_free-free_bytes,
}

-- The next round: the block is behind the one that the loop stands at.
next-Place :
    (h : Heap) (b n prev cur low : ℕ) (f : ℕ × ℕ) (fs : List (ℕ × ℕ))
    → Place h b n prev cur low (f ∷ fs)
    → (f.0 + f.1 == b) ≡ false
    → leb b f.0 ≡ false
    → Place h b n cur (h.blocks cur).next (f.0 + f.1) fs
next-Place h b n prev cur low f fs p t u =
    let (l, q, fits, s) = p.sparse in
    let (at, size, c) = p.chain in
    record {
      chain = c;
      sparse = s;
      apart = p.apart.1;
      ahead = ground (arith, t, u, p.apart.0, p.some_bytes);
      past = omega (arith, at);
      some_bytes = p.some_bytes;
      fits = p.fits;
      size = p.size;
      first = λ e. absurd (omega (arith, e, at, l));
      behind = λ ne. refl;
    }

behind-Spliced :
    (h h' : Heap) (b n prev cur low : ℕ) (f : ℕ × ℕ) (fs : List (ℕ × ℕ))
    → Place h b n prev cur low (f ∷ fs)
    → leb b f.0 ≡ false
    → Spliced h h' b cur (f.0 + f.1) (insert_free b n fs)
    → Spliced h h' b prev low (f ∷ insert_free b n fs)
behind-Spliced h h' b n prev cur low f fs p u r =
    let (l, q, fits, s) = p.sparse in
    let (at, size, c) = p.chain in
    let some_address : cur ≢ null = λ e. omega (arith, e, at, l) in
    let here = r.behind some_address in
    let same : (x : Ptr) → x ≤ low → x < b → h'.blocks x ≡ h.blocks x =
      λ x k k'. r.kept x (omega (arith, k, l)) k' (λ e. omega (arith, e, k, l, at)) in
    let first : h'.free_blocks ≡ h.free_blocks = r.first ∙ ground (arith, some_address) in
    record {
      entry = cur;
      chain = (
        at,
        ap (λ b. b.size) here ∙ size,
        subst (λ (c : Block). Chain h'.blocks c.next (insert_free b n fs)) (sym here) r.chain,
      );
      first = still_first h h' b n prev cur low cur (f ∷ fs) p refl first;
      behind = λ ne.
          previous h h' b n prev cur low cur (f ∷ fs) p refl
            (same prev p.past (omega (arith, p.past, p.ahead))) ne;
      kept = λ x k k' ne. same x k k';
      free = r.free;
      allocated = r.allocated;
    }

-- No block of the list is the one that is freed.
not_linked :
    (blocks : Ptr → Block) (p b n low : ℕ) (fs : List (ℕ × ℕ))
    → 0 < b
    → 0 < n
    → Chain blocks p fs
    → Sparse low fs
    → Apart b n fs
    → (p == b) ≡ false
not_linked blocks p b n low [] some_address some_bytes c s a = ground (arith, c, some_address)
not_linked blocks p b n low (f ∷ fs) some_address some_bytes (at, _, _) (_, q, _, _) (here, _) =
    ground (arith, at, q, here, some_bytes)

free_from-Spliced :
    (fuel : ℕ) (h : Heap) (b n prev cur low : ℕ) (fs : List (ℕ × ℕ))
    → Place h b n prev cur low fs
    → length fs < fuel
    → (h' : Heap) × (free_from fuel h b prev cur ≡ done null h')
      × Spliced h h' b prev low (insert_free b n fs)
unfolding free_from
free_from-Spliced zero h b n prev cur low fs p l = absurd (omega arith)
free_from-Spliced (suc fuel) h b n prev cur low [] p l =
    let end : (cur == null) ≡ true = ground (arith, p.chain) in
    let linked = link_last-Linked h b prev (omega (arith, p.past, p.ahead)) in
    (
      write_link (write_next h b null) prev b,
      (elim (Bool-cases (prev == null)) [
        | inl e ↦
            let only : (h.free_blocks == null) ≡ true = ground (arith, e, p.first, p.chain) in
            rw (end, e, only) refl
        | inr e ↦ rw (end, e) refl
      ]),
      last-Spliced h _ b n prev cur low p linked,
    )
free_from-Spliced (suc fuel) h b n prev cur low (f ∷ fs) p l =
    let (low_ok, q, fits, s) = p.sparse in
    let (at, size, c) = p.chain in
    let some_block : (cur == null) ≡ false = ground (arith, at, low_ok) in
    let single : ((h.blocks cur).next == b) ≡ false =
      not_linked h.blocks (h.blocks cur).next b n (f.0 + f.1) fs (omega (arith, p.ahead))
        p.some_bytes c s p.apart.1 in
    elim (Bool-cases (f.0 + f.1 == b)) [
      | inl t ↦
          let touch : (add32 cur (h.blocks cur).size == b) ≡ true =
            ground (arith, t, at, size, fits) in
          rw t (
            _,
            rw (some_block, single, touch) refl,
            touching-Spliced h b n prev cur low f fs p ((==_iff _ _).0 t),
          )
      | inr t ↦
          let apart : (add32 cur (h.blocks cur).size == b) ≡ false =
            ground (arith, t, at, size, fits) in
          elim (Bool-cases (leb b f.0)) [
            | inl u ↦
                let before : leb b cur ≡ true = ground (arith, u, at) in
                rw (t, u)
                  (
                    _,
                    rw (some_block, single, apart, before) refl,
                    before-Spliced h _ b n prev cur low f fs p
                        (link_before-Linked h b prev cur (omega (arith, p.past, p.ahead)))
                        (ground (arith, u)),
                  )
            | inr u ↦
                let behind : leb b cur ≡ false = ground (arith, u, at) in
                let (h', e, r) =
                  free_from-Spliced fuel h b n cur (h.blocks cur).next (f.0 + f.1) fs
                    (next-Place h b n prev cur low f fs p t u) (omega (arith, l)) in
                rw (t, u)
                  (
                    h',
                    rw (some_block, single, apart, behind) e,
                    behind-Spliced h h' b n prev cur low f fs p u r,
                  )
          ]
    ]

-- The free blocks of a heap: they are linked in order, do not touch, and the counter holds their
-- sizes.
pub record IsFree (h : Heap) (fs : List (ℕ × ℕ)) : Type 0 where
  pub chain : Chain h.blocks h.free_blocks fs
  pub sparse : Sparse 0 fs
  pub counted : h.bytes_free ≡ free_bytes fs

pub free_bytes-bound :
    (low : ℕ) (fs : List (ℕ × ℕ)) → low < 2 ^ 32 → Sparse low fs → low + free_bytes fs < 2 ^ 32
free_bytes-bound low [] l s = omega (arith, l)
free_bytes-bound low (f ∷ fs) l (m, q, fits, s) =
    omega (arith, m, free_bytes-bound (f.0 + f.1) fs fits s)

-- If the free blocks are linked in the order of their addresses, no two touch, and the counter holds
-- their sizes, then `kmfree` of a block that is apart from them, is not empty, ends below 2^32 and
-- is linked to no other ends with a round more than there are of them, and leaves free blocks of
-- which the same holds: a byte is free just if it was or lies in the block. The size has been taken
-- from the counter of the bytes allocated.
pub kmfree-IsFree :
    (fuel : ℕ) (h : Heap) (b n : ℕ) (fs : List (ℕ × ℕ))
    → IsFree h fs
    → 0 < b
    → 0 < n
    → b + n < 2 ^ 32
    → h.blocks b ≡ record { size = n; next = null }
    → Apart b n fs
    → length fs < fuel
    → (h' : Heap) × (fs' : List (ℕ × ℕ)) × (kmfree fuel h (b + 8) ≡ done null h')
      × IsFree h' fs'
      × ((x : ℕ) → covers fs' x ≡ ((leb b x && ltb x (b + n)) || covers fs x))
      × (h'.bytes_allocated ≡ sub32 h.bytes_allocated n)
unfolding kmfree
kmfree-IsFree fuel h b n fs v some_address some_bytes fits at apart l =
    let counted = record h {
      bytes_free = add32 h.bytes_free (h.blocks b).size;
      bytes_allocated = sub32 h.bytes_allocated (h.blocks b).size;
    } in
    let size : (h.blocks b).size ≡ n = ap (λ c. c.size) at in
    let place : Place counted b n null h.free_blocks 0 fs = record {
      chain = v.chain;
      sparse = v.sparse;
      apart = apart;
      ahead = some_address;
      past = omega arith;
      some_bytes = some_bytes;
      fits = fits;
      size = size;
      first = λ e. refl;
      behind = λ ne. absurd (ne refl);
    } in
    let (h', e, r) = free_from-Spliced fuel counted b n null h.free_blocks 0 fs place l in
    let sparse = insert_free-Sparse b n 0 fs some_address some_bytes fits v.sparse apart in
    let bytes = insert_free-free_bytes b n fs in
    let bound = free_bytes-bound 0 (insert_free b n fs) (omega arith) sparse in
    let not_linked_yet : ((h.blocks b).next == null) ≡ true = ground (arith, ap (λ c. c.next) at) in
    let same : b + 8 - 8 ≡ b = omega arith in
    (
      h',
      insert_free b n fs,
      rw (same, not_linked_yet) e,
      record {
        chain = subst (λ p. Chain h'.blocks p (insert_free b n fs)) (sym r.first) r.chain;
        sparse = sparse;
        counted = r.free ∙ omega (arith, v.counted, size, bytes, bound);
      },
      insert_free-covers b n fs,
      r.allocated ∙ ap (λ s. sub32 h.bytes_allocated s) size,
    )
