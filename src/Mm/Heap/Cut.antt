-- ===== src/Mm/Heap/Cut.antt =====
-- What the writes of `kmalloc` do to a free block that it takes.
use gloworm.Prelude.{
  ℕ, ◌+◌, ◌-◌, ◌<◌, ◌≡◌, ◌≢◌, refl, true, false, inl, inr, leb, ◌==◌, if◌then◌else◌, Bool-cases,
  ==_refl, ==_iff, ne→==, arith,
}
use gloworm.Utils.Queue.{Ptr, null}
use gloworm.Mm.Heap.{Heap, add32, sub32, take_block}

-- The block `cur` of `m` bytes has been taken, and `target` is linked in its place; no block but
-- these, the one before and `rest` has been written.
pub record Cut (h h' : Heap) (prev cur rest target m : ℕ) : Type 0 where
  pub block : h'.blocks cur ≡ record { size = m; next = null }
  pub behind : prev ≢ null → h'.blocks prev ≡ record { size = (h.blocks prev).size; next = target }
  pub first : h'.free_blocks ≡ (if prev == null then target else h.free_blocks)
  pub others : (x : Ptr) → x ≢ cur → x ≢ prev → x ≢ rest → h'.blocks x ≡ h.blocks x
  pub free : h'.bytes_free ≡ sub32 h.bytes_free m
  pub allocated : h'.bytes_allocated ≡ add32 h.bytes_allocated m

pub take_whole-Cut :
    (h : Heap) (bs prev cur : ℕ)
    → prev < cur
    → leb (bs + 16) (h.blocks cur).size ≡ false
    → Cut h (take_block h bs prev cur) prev cur cur (h.blocks cur).next (h.blocks cur).size
unfolding take_block
take_whole-Cut h bs prev cur l whole =
    let apart : (cur == prev) ≡ false = ground (arith, l) in
    let apart' : (prev == cur) ≡ false = ground (arith, l) in
    elim (Bool-cases (prev == null)) [
      | inl e ↦
          rw (whole, e)
            (record {
              block = rw (==_refl cur) refl;
              behind = λ ne. absurd (ne ((==_iff _ _).0 e));
              first = rw e refl;
              others = λ x ne ne' ne''. rw (ne→== x cur ne) refl;
              free = rw (==_refl cur) refl;
              allocated = rw (==_refl cur) refl;
            })
      | inr e ↦
          rw (whole, e)
            (record {
              block = rw (apart, ==_refl cur) refl;
              behind = λ ne. rw (==_refl prev, apart') refl;
              first = rw e refl;
              others = λ x ne ne' ne''. rw (ne→== x prev ne', ne→== x cur ne) refl;
              free = rw (apart, ==_refl cur) refl;
              allocated = rw (apart, ==_refl cur) refl;
            })
    ]

pub take_part-Cut :
    (h : Heap) (bs prev cur : ℕ)
    → prev < cur
    → 0 < bs
    → leb (bs + 16) (h.blocks cur).size ≡ true
    → let h' = take_block h bs prev cur in
      Cut h h' prev cur (cur + bs) (cur + bs) bs
      × (h'.blocks (cur + bs)
          ≡ record { size = (h.blocks cur).size - bs; next = (h.blocks cur).next })
unfolding take_block
take_part-Cut h bs prev cur l some_bytes part =
    let apart : (cur == prev) ≡ false = ground (arith, l) in
    let apart' : (prev == cur) ≡ false = ground (arith, l) in
    let ahead : (cur == cur + bs) ≡ false = ground (arith, some_bytes) in
    let ahead' : (cur + bs == cur) ≡ false = ground (arith, some_bytes) in
    let beyond : (prev == cur + bs) ≡ false = ground (arith, l) in
    let beyond' : (cur + bs == prev) ≡ false = ground (arith, l) in
    elim (Bool-cases (prev == null)) [
      | inl e ↦
          rw (part, e)
            (
              record {
                block = rw (==_refl cur, ahead) refl;
                behind = λ ne. absurd (ne ((==_iff _ _).0 e));
                first = rw e refl;
                others = λ x ne ne' ne''. rw (ne→== x cur ne, ne→== x (cur + bs) ne'') refl;
                free = rw (==_refl cur, ahead) refl;
                allocated = rw (==_refl cur, ahead) refl;
              },
              rw (ahead', ==_refl (cur + bs)) refl,
            )
      | inr e ↦
          rw (part, e)
            (
              record {
                block = rw (apart, ==_refl cur, ahead) refl;
                behind = λ ne. rw (==_refl prev, apart', beyond) refl;
                first = rw e refl;
                others = λ x ne ne' ne''.
                    rw (ne→== x prev ne', ne→== x cur ne, ne→== x (cur + bs) ne'') refl;
                free = rw (apart, ==_refl cur, ahead) refl;
                allocated = rw (apart, ==_refl cur, ahead) refl;
              },
              rw (beyond', ahead', ==_refl (cur + bs)) refl,
            )
    ]
