-- ===== src/Mm/Heap/Link.antt =====
-- What the writes of `kmfree` do to the blocks that are linked.
use gloworm.Prelude.{
  ℕ, ◌+◌, ◌^◌, ◌<◌, ◌≡◌, ◌≢◌, inl, inr, refl, sym, ap, ◌∙◌, subst, true, false, List, [], ◌∷◌, ◌==◌,
  if◌then◌else◌, update, Bool-cases, ==_refl, ==_iff, ne→==, arith,
}
use gloworm.Utils.Queue.{Ptr, null}
use gloworm.Mm.Heap.{Block, Heap, add32, write_size, write_next, write_link, absorb_next}
use gloworm.Mm.Heap.List.{Chain, Sparse, join}

-- Blocks behind `low` that are not written stay linked.
pub Chain-kept :
    (blocks blocks' : Ptr → Block) (low p : ℕ) (fs : List (ℕ × ℕ))
    → ((x : Ptr) → low < x → blocks' x ≡ blocks x)
    → Sparse low fs
    → Chain blocks p fs
    → Chain blocks' p fs
Chain-kept blocks blocks' low p [] kept s c = c
Chain-kept blocks blocks' low p (f ∷ fs) kept (l, q, _, s) (at, size, c) =
    let same : blocks' p ≡ blocks p = kept p (omega (arith, l, at)) in
    (
      at,
      ap (λ b. b.size) same ∙ size,
      subst (λ b. Chain blocks' b.next fs) (sym same)
          (Chain-kept blocks blocks' (f.0 + f.1) (blocks p).next fs
            (λ x m. kept x (omega (arith, l, m))) s c),
    )

-- The heap after a block has been written, but for the block and the list behind it.
pub record Kept (h h' : Heap) (written : Ptr) : Type 0 where
  pub blocks : (x : Ptr) → x ≢ written → h'.blocks x ≡ h.blocks x
  pub first : h'.free_blocks ≡ h.free_blocks
  pub free : h'.bytes_free ≡ h.bytes_free
  pub allocated : h'.bytes_allocated ≡ h.bytes_allocated

pub update_here : (blocks : Ptr → Block) (a : Ptr) (b : Block) → update blocks a b a ≡ b
update_here blocks a b = rw (==_refl a) refl

pub update_there :
    (blocks : Ptr → Block) (a x : Ptr) (b : Block) → x ≢ a → update blocks a b x ≡ blocks x
update_there blocks a x b e = rw (ne→== x a e) refl

taken_in :
    (h : Heap) (a m : ℕ) (f : ℕ × ℕ) (fs : List (ℕ × ℕ))
    → Sparse a (f ∷ fs)
    → (h.blocks a).size ≡ m
    → (h.blocks a).next ≡ f.0
    → (h.blocks (h.blocks a).next).size ≡ f.1
    → Chain h.blocks (h.blocks (h.blocks a).next).next fs
    → m + f.1 < 2 ^ 32
    → let next = (h.blocks a).next in
      let h1 = write_size h a (add32 (h.blocks a).size (h.blocks next).size) in
      let h' = write_next h1 a (h1.blocks next).next in
      Chain h'.blocks a ((a, m + f.1) ∷ fs) × Kept h h' a
taken_in h a m f fs (l, q, _, s) size at' size' c fits =
    let next = (h.blocks a).next in
    let h1 = write_size h a (add32 (h.blocks a).size (h.blocks next).size) in
    let h' = write_next h1 a (h1.blocks next).next in
    let apart : next ≢ a = λ e. omega (arith, e, at', l) in
    let here : h'.blocks a ≡ record {
      size = add32 (h.blocks a).size (h.blocks next).size;
      next = (h.blocks next).next;
    } =
      rw (==_refl a, ne→== next a apart) refl in
    let other : (x : Ptr) → x ≢ a → h'.blocks x ≡ h.blocks x = λ x e. rw (ne→== x a e) refl in
    (
      (
        refl,
        ap (λ b. b.size) here ∙ omega (arith, size, size', fits),
        subst (λ b. Chain h'.blocks b.next fs) (sym here)
            (Chain-kept h.blocks h'.blocks (f.0 + f.1) (h.blocks next).next fs
              (λ x k. other x (λ e. omega (arith, e, l, k))) s c),
      ),
      record { blocks = other; first = refl; free = refl; allocated = refl },
    )

pub absorb_next-Chain :
    (h : Heap) (a m : ℕ) (fs : List (ℕ × ℕ))
    → 0 < a
    → 0 < m
    → a + m < 2 ^ 32
    → Sparse a fs
    → Chain h.blocks a ((a, m) ∷ fs)
    → Chain (absorb_next h a).blocks a (join a m fs) × Kept h (absorb_next h a) a
unfolding absorb_next
absorb_next-Chain h a m [] some_address some_bytes fits s (at, size, end) =
    let alone : (add32 a (h.blocks a).size == (h.blocks a).next) ≡ false =
      ground (arith, size, end) in
    rw alone (
      (refl, size, end),
      record { blocks = λ x e. refl; first = refl; free = refl; allocated = refl },
    )
absorb_next-Chain h a m (f ∷ fs) some_address some_bytes fits (l, q, fits', s)
      (at, size, (at', size', c)) =
    elim (Bool-cases (a + m == f.0)) [
      | inr e ↦
          let apart : (add32 a (h.blocks a).size == (h.blocks a).next) ≡ false =
            ground (arith, size, at', e) in
          rw (apart, e)
            (
              (refl, size, (at', size', c)),
              record { blocks = λ x e. refl; first = refl; free = refl; allocated = refl },
            )
      | inl e ↦
          let touch : (add32 a (h.blocks a).size == (h.blocks a).next) ≡ true =
            ground (arith, size, at', e) in
          rw (touch, e)
            (taken_in h a m f fs (l, q, fits', s) size at' size' c
              (omega (arith, fits', (==_iff _ _).0 e)))
    ]

-- The heap in which `b` has been linked behind `prev` and in front of `cur`.
pub record Linked (h h' : Heap) (b prev cur : Ptr) : Type 0 where
  pub block : h'.blocks b ≡ record { size = (h.blocks b).size; next = cur }
  pub behind : prev ≢ null → h'.blocks prev ≡ record { size = (h.blocks prev).size; next = b }
  pub others : (x : Ptr) → x ≢ b → x ≢ prev → h'.blocks x ≡ h.blocks x
  pub first : h'.free_blocks ≡ (if prev == null then b else h.free_blocks)
  pub free : h'.bytes_free ≡ h.bytes_free
  pub allocated : h'.bytes_allocated ≡ h.bytes_allocated

pub link_before-Linked :
    (h : Heap) (b prev cur : Ptr)
    → prev < b
    → Linked h (write_next (write_link h prev b) b cur) b prev cur
link_before-Linked h b prev cur l = elim (Bool-cases (prev == null)) [
  | inl e ↦ rw e (record {
    block = rw (==_refl b) refl;
    behind = λ ne. absurd (ne ((==_iff _ _).0 e));
    others = λ x ne ne'. rw (ne→== x b ne) refl;
    first = rw e refl;
    free = refl;
    allocated = refl;
  })
  | inr e ↦
      let apart : (b == prev) ≡ false = ground (arith, l) in
      let apart' : (prev == b) ≡ false = ground (arith, l) in
      rw e (record {
        block = rw (==_refl b, apart) refl;
        behind = λ ne. rw (apart', ==_refl prev) refl;
        others = λ x ne ne'. rw (ne→== x b ne, ne→== x prev ne') refl;
        first = rw e refl;
        free = refl;
        allocated = refl;
      })
]

pub link_last-Linked :
    (h : Heap) (b prev : Ptr)
    → prev < b
    → Linked h (write_link (write_next h b null) prev b) b prev null
link_last-Linked h b prev l = elim (Bool-cases (prev == null)) [
  | inl e ↦ rw e (record {
    block = rw (==_refl b) refl;
    behind = λ ne. absurd (ne ((==_iff _ _).0 e));
    others = λ x ne ne'. rw (ne→== x b ne) refl;
    first = rw e refl;
    free = refl;
    allocated = refl;
  })
  | inr e ↦
      let apart : (b == prev) ≡ false = ground (arith, l) in
      let apart' : (prev == b) ≡ false = ground (arith, l) in
      rw e (record {
        block = rw (apart, ==_refl b) refl;
        behind = λ ne. rw (==_refl prev, apart') refl;
        others = λ x ne ne'. rw (ne→== x prev ne', ne→== x b ne) refl;
        first = rw e refl;
        free = refl;
        allocated = refl;
      })
]
