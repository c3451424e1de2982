-- ===== src/Mm/Map/Sbrk.antt =====
-- Where `memory_map_move_sbrk` puts the border between the heap and the stack.
use gloworm.Prelude.{
  ℕ, ◌+◌, ◌-◌, ◌<◌, ◌≤◌, ◌≡◌, refl, ap, ◌∙◌, true, false, none, some, List, [], ◌∷◌, ◌++◌, reverse,
  reverse_aux, inl, inr, ltb, leb, ◌==◌, if◌then◌else◌, Bool-cases, arith,
}
use Prim.Native.Nat.{bit_and}
use mathlib.Core.List.{append-nil}
use gloworm.Mm.Pages.{page_size}
use gloworm.Mm.Map.{
  Segment, MemoryMap, efault, enomem, add_word, sub_word, is_negative, has, seg_growsdown,
}
use gloworm.Mm.Map.Border.{
  memory_segment_find_prev, memory_map_resize, move_border, memory_map_move_sbrk,
}

reverse-place :
    (before after zs : List Segment)
    → reverse_aux (reverse_aux before after) zs ≡ reverse_aux after (before ++ zs)
reverse-place [] after zs = refl
reverse-place (s ∷ before) after zs = reverse-place before (s ∷ after) zs

-- All segments start above an address.
abbrev pub AllAbove : (address : ℕ) → List Segment → Type 0
AllAbove address [] = Unit
AllAbove address (s ∷ segments) = (address < s.start) × AllAbove address segments

find_prev-skips :
    (after rest acc : List Segment) (address : ℕ)
    → AllAbove address after
    → memory_segment_find_prev (reverse_aux after rest) acc address
      ≡ memory_segment_find_prev rest (after ++ acc) address
unfolding memory_segment_find_prev
find_prev-skips [] rest acc address above = refl
find_prev-skips (s ∷ after) rest acc address (l, above) =
    find_prev-skips after (s ∷ rest) acc address above ∙ ground arith

-- The heap below the stack, which grows down, with the border at `sbrk`.
pub record Border (sbrk : ℕ) (before : List Segment) (heap stack : Segment) (after : List Segment)
    : Type 0 where
  pub heap_grows_up : has heap.flags seg_growsdown ≡ false
  pub stack_grows_down : has stack.flags seg_growsdown ≡ true
  pub heap_ends : heap.end ≡ sbrk
  pub stack_starts : stack.start ≡ sbrk
  pub above_zero : 0 < sbrk
  pub room : sbrk < stack.end
  pub bounded : stack.end < 4294967296
  pub size_bounded : stack.end - sbrk < 2147483648
  pub above : AllAbove sbrk after

find_stack :
    (sbrk : ℕ) (before : List Segment) (heap stack : Segment) (after : List Segment)
    → Border sbrk before heap stack after
    → memory_segment_find_prev (reverse (reverse_aux (heap ∷ before) (stack ∷ after))) [] sbrk
      ≡ some (record { before = heap ∷ before; cur = stack; after = after })
unfolding memory_segment_find_prev
find_stack sbrk before heap stack after b =
    rw
      (
        reverse-place (heap ∷ before) (stack ∷ after) [],
        append-nil before,
        find_prev-skips after (stack ∷ heap ∷ before) [] sbrk b.above,
        append-nil after,
      )
      (ground (arith, b.stack_starts, b.room, b.above_zero))

resize_stack :
    (before : List Segment) (heap stack : Segment) (after : List Segment) (diff new : ℕ)
    → has stack.flags seg_growsdown ≡ true
    → 0 < heap.end
    → heap.end ≤ new
    → sub_word stack.start diff ≡ new
    → memory_map_resize (record { before = heap ∷ before; cur = stack; after = after }) diff
      ≡ (record { before = heap ∷ before; cur = record stack { start = new }; after = after }, none)
unfolding memory_map_resize
resize_stack before heap stack after diff new g pos l e = rw (g, e) (ground (arith, pos, l))

resize_heap_down :
    (before : List Segment) (heap stack : Segment) (after : List Segment) (diff new : ℕ)
    → has heap.flags seg_growsdown ≡ false
    → new < stack.start
    → add_word heap.end diff ≡ new
    → memory_map_resize (record { before = before; cur = heap; after = stack ∷ after }) diff
      ≡ (record { before = before; cur = record heap { end = new }; after = stack ∷ after }, none)
unfolding memory_map_resize
resize_heap_down before heap stack after diff new g l e = rw (g, e) (ground (arith, l))

-- The stack has been moved already.
resize_heap_up :
    (before : List Segment) (heap stack : Segment) (after : List Segment) (diff new : ℕ)
    → has heap.flags seg_growsdown ≡ false
    → 0 < stack.end
    → stack.start ≡ new
    → add_word heap.end diff ≡ new
    → memory_map_resize (record { before = before; cur = heap; after = stack ∷ after }) diff ≡ (
        if leb new stack.end
        then (
          record {
            before = before;
            cur = record heap { end = new };
            after = record stack { start = new } ∷ after;
          },
          none,
        )
        else (record { before = before; cur = heap; after = stack ∷ after }, some efault))
unfolding memory_map_resize
resize_heap_up before heap stack after diff new g pos e e' = rw (g, e', e) (ground (arith, pos))

move_border-up :
    (before : List Segment) (heap stack : Segment) (after : List Segment) (diff new : ℕ)
    → has heap.flags seg_growsdown ≡ false
    → has stack.flags seg_growsdown ≡ true
    → 0 < heap.end
    → 0 < stack.end
    → heap.end ≤ new
    → is_negative diff ≡ false
    → sub_word stack.start (sub_word 0 diff) ≡ new
    → add_word heap.end diff ≡ new
    → move_border (record { before = heap ∷ before; cur = stack; after = after }) diff ≡ (
        if leb new stack.end
        then (
          record {
            before = before;
            cur = record heap { end = new };
            after = record stack { start = new } ∷ after;
          },
          none,
        )
        else (
          record { before = before; cur = heap; after = record stack { start = new } ∷ after },
          some efault,
        ))
unfolding move_border
move_border-up before heap stack after diff new g g' pos pos' l n e e' =
    rw (n, resize_stack before heap stack after (sub_word 0 diff) new g' pos l e)
      (resize_heap_up before heap (record stack { start = new }) after diff new g pos' refl e')

move_border-down :
    (before : List Segment) (heap stack : Segment) (after : List Segment) (diff shrunk new : ℕ)
    → has heap.flags seg_growsdown ≡ false
    → has stack.flags seg_growsdown ≡ true
    → 0 < new
    → new < stack.start
    → is_negative diff ≡ true
    → sub_word 0 diff ≡ shrunk
    → add_word heap.end diff ≡ new
    → sub_word stack.start shrunk ≡ new
    → move_border (record { before = heap ∷ before; cur = stack; after = after }) diff ≡ (
      record {
        before = record heap { end = new } ∷ before;
        cur = record stack { start = new };
        after = after;
      },
      none,
    )
unfolding move_border
move_border-down before heap stack after diff shrunk new g g' pos l n e e' e2 =
    rw (n, resize_heap_down before heap stack after diff new g l e', e)
      (resize_stack before (record heap { end = new }) stack after shrunk new g' pos (omega arith)
        e2)

-- The map with the border somewhere else.
abbrev pub at_border :
    MemoryMap
    → (before : List Segment) → (heap stack : Segment) → (after : List Segment) → (sbrk : ℕ)
    → MemoryMap
at_border m before heap stack after sbrk = record m {
  segments =
      reverse_aux before (record heap { end = sbrk } ∷ record stack { start = sbrk } ∷ after);
  sbrk = sbrk;
}

-- `memory_map_move_sbrk` upwards, by whole pages, from the border of a heap and a stack, where the
-- heap and the stack have the flags that make them grow up and down, the heap ends and the stack
-- starts at `sbrk`, which is not 0, the stack is not empty, ends below 2 ^ 32 and is smaller than
-- 2 ^ 31 bytes, and all other segments behind the heap start above `sbrk`; the size of the stack and
-- the move make less than 2 ^ 31 and `sbrk` and the move less than 2 ^ 32. A move that the stack has
-- room for moves the end of the heap, the start of the stack and `sbrk`, and nothing else; a longer
-- one fails with EFAULT, and leaves the stack to start above its end.
pub memory_map_move_sbrk-up :
    (m : MemoryMap) (before : List Segment) (heap stack : Segment) (after : List Segment) (diff : ℕ)
    → m.segments ≡ reverse_aux (heap ∷ before) (stack ∷ after)
    → Border m.sbrk before heap stack after
    → stack.end - m.sbrk + diff < 2147483648
    → m.sbrk + diff < 4294967296
    → bit_and diff (page_size - 1) ≡ 0
    → memory_map_move_sbrk m diff ≡ (
        if leb (m.sbrk + diff) stack.end
        then (at_border m before heap stack after (m.sbrk + diff), none)
        else (
          record m {
            segments = reverse_aux (heap ∷ before) (record stack { start = m.sbrk + diff } ∷ after);
          },
          some efault,
        ))
unfolding memory_map_move_sbrk
memory_map_move_sbrk-up m before heap stack after diff e b small bound aligned =
    let new = m.sbrk + diff in
    let positive : is_negative diff ≡ false = ground (arith, b.room, small) in
    let opposite : sub_word stack.start (sub_word 0 diff) ≡ new =
      omega (arith, b.stack_starts, b.room, b.bounded, bound) in
    let size : is_negative (add_word (sub_word stack.end stack.start) diff) ≡ false =
      ground (arith, b.stack_starts, b.room, b.bounded, small) in
    let border : (m.sbrk == stack.start) ≡ true = ground (arith, b.stack_starts) in
    let heap_end : add_word heap.end diff ≡ new = omega (arith, b.heap_ends, bound) in
    let sbrk : add_word m.sbrk diff ≡ new = omega (arith, bound) in
    let found =
      ap (λ l. memory_segment_find_prev (reverse l) [] m.sbrk) e
      ∙ find_stack m.sbrk before heap stack after b in
    let moved =
      move_border-up before heap stack after diff new b.heap_grows_up b.stack_grows_down
        (omega (arith, b.heap_ends, b.above_zero)) (omega (arith, b.room))
        (omega (arith, b.heap_ends)) positive opposite heap_end in
    elim (Bool-cases (leb new stack.end)) [
      | inl fits ↦
          rw (memory_map_move_sbrk, found, positive, border, size, aligned, moved, fits, sbrk) refl
      | inr full ↦
          rw (memory_map_move_sbrk, found, positive, border, size, aligned, moved, full) refl
    ]

-- `memory_map_move_sbrk` downwards by `shrunk` bytes, a number of whole pages that is not 0, below
-- `sbrk` and below 2 ^ 31, from the border of a heap and a stack, where the heap and the stack have
-- the flags that make them grow up and down, the heap ends and the stack starts at `sbrk`, the stack
-- is not empty, ends below 2 ^ 32 and is smaller than 2 ^ 31 bytes, and all other segments behind the
-- heap start above `sbrk`: it fails with ENOMEM and changes nothing when the stack is smaller than
-- `shrunk`, however large the heap is, and otherwise it moves the end of the heap, the start of the
-- stack and `sbrk`, and nothing else, with no regard to where the heap starts.
pub memory_map_move_sbrk-down :
    (m : MemoryMap) (before : List Segment) (heap stack : Segment) (after : List Segment)
    (shrunk : ℕ)
    → m.segments ≡ reverse_aux (heap ∷ before) (stack ∷ after)
    → Border m.sbrk before heap stack after
    → 0 < shrunk
    → shrunk < m.sbrk
    → shrunk < 2147483648
    → bit_and shrunk (page_size - 1) ≡ 0
    → memory_map_move_sbrk m (sub_word 0 shrunk) ≡ (
        if ltb (stack.end - m.sbrk) shrunk
        then (m, some enomem)
        else (at_border m before heap stack after (m.sbrk - shrunk), none))
unfolding memory_map_move_sbrk
memory_map_move_sbrk-down m before heap stack after shrunk e b pos low small aligned =
    let new = m.sbrk - shrunk in
    let diff = sub_word 0 shrunk in
    let negative : is_negative diff ≡ true = ground (arith, pos, small) in
    let opposite : sub_word 0 diff ≡ shrunk = omega (arith, pos, small) in
    let border : (m.sbrk == stack.start) ≡ true = ground (arith, b.stack_starts) in
    let heap_end : add_word heap.end diff ≡ new =
      omega (arith, b.heap_ends, low, pos, small, b.room, b.bounded) in
    let sbrk : add_word m.sbrk diff ≡ new = omega (arith, low, pos, small, b.room, b.bounded) in
    let start : sub_word stack.start shrunk ≡ new =
      omega (arith, b.stack_starts, low, small, b.room, b.bounded) in
    let size : is_negative (add_word (sub_word stack.end stack.start) diff)
        ≡ ltb (stack.end - m.sbrk) shrunk =
      ground (arith, b.stack_starts, b.room, b.bounded, b.size_bounded, small, pos) in
    let found =
      ap (λ l. memory_segment_find_prev (reverse l) [] m.sbrk) e
      ∙ find_stack m.sbrk before heap stack after b in
    let moved =
      move_border-down before heap stack after diff shrunk new b.heap_grows_up b.stack_grows_down
        (omega (arith, low)) (omega (arith, b.stack_starts, pos)) negative opposite heap_end
        start in
    elim (Bool-cases (ltb (stack.end - m.sbrk) shrunk)) [
      | inl over ↦ rw (memory_map_move_sbrk, found, negative, border, size, over) refl
      | inr fits ↦
          rw
            (
              memory_map_move_sbrk, found, negative, border, size, fits, opposite, aligned, moved,
              sbrk,
            )
            refl
    ]
