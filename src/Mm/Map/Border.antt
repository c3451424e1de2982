-- ===== src/Mm/Map/Border.antt =====
-- src/kernel/mm/map.c: the border of a segment and its neighbour, and the one between the heap and
-- the stack.
use gloworm.Prelude.{
  ℕ, ◌-◌, not, ◌&&◌, Option, none, some, List, [], ◌∷◌, reverse, reverse_aux, ◌==◌, if◌then◌else◌,
}
use Prim.Native.Nat.{bit_and}
use gloworm.Mm.Pages.{page_size}
use gloworm.Mm.Map.{
  add_word, sub_word, is_negative, has, seg_growsdown, Error, Segment, MemoryMap,
  within_memory_segment_start, within_memory_segment_end, within_or_at_memory_segment_end, enomem,
  efault,
}

-- The segments around a segment of the queue, the nearest one first on both sides.
pub record Place : Type 0 where
  pub before : List Segment
  pub cur : Segment
  pub after : List Segment

abbrev pub segments_of : Place → List Segment
segments_of p = reverse_aux p.before (p.cur ∷ p.after)

-- `memory_segment_find_prev` from the last segment: `before` is the list backwards.
unfoldable pub memory_segment_find_prev :
    (before after : List Segment) → (address : ℕ) → Option Place
memory_segment_find_prev [] after address = none
memory_segment_find_prev (cur ∷ before) after address =
    let rest = memory_segment_find_prev before (cur ∷ after) address in
    if within_memory_segment_start cur address && within_memory_segment_end cur address
    then some (record { before = before; cur = cur; after = after })
    else rest

abbrev grow_down : Place → (adjacent : List Segment) → (new_addr : ℕ) → Place × Option Error
grow_down p [] new_addr = (record p { cur = record (p.cur) { start = new_addr } }, none)
grow_down p (adjacent ∷ rest) new_addr =
    let moved = record (p.cur) { start = new_addr } in
    if within_memory_segment_end adjacent new_addr
    then (if not (within_memory_segment_start adjacent new_addr)
        then (p, some efault)
        else (record p { before = record adjacent { end = new_addr } ∷ rest; cur = moved }, none))
    else (record p { cur = moved }, none)

abbrev grow_up : Place → (adjacent : List Segment) → (new_addr : ℕ) → Place × Option Error
grow_up p [] new_addr = (record p { cur = record (p.cur) { end = new_addr } }, none)
grow_up p (adjacent ∷ rest) new_addr =
    let moved = record (p.cur) { end = new_addr } in
    if within_memory_segment_start adjacent new_addr
    then (if not (within_or_at_memory_segment_end adjacent new_addr)
        then (p, some efault)
        else (record p { cur = moved; after = record adjacent { start = new_addr } ∷ rest }, none))
    else (record p { cur = moved }, none)

unfoldable pub memory_map_resize : Place → (diff : ℕ) → Place × Option Error
memory_map_resize p diff =
    if has (p.cur.flags) seg_growsdown
    then grow_down p p.before (sub_word (p.cur.start) diff)
    else grow_up p p.after (add_word (p.cur.end) diff)

abbrev pub to_prev : Place → Place
to_prev p = elim p.before [
  | [] ↦ p
  | prev ∷ before ↦ record { before = before; cur = prev; after = p.cur ∷ p.after }
]

abbrev pub to_next : Place → Place
to_next p = elim p.after [
  | [] ↦ p
  | next ∷ after ↦ record { before = p.cur ∷ p.before; cur = next; after = after }
]

-- The second of two resizes is left out when the first has failed.
abbrev pub and_then : Place × Option Error → (Place → Place × Option Error) → Place × Option Error
and_then (p, some e) second = (p, some e)
and_then (p, none) second = second p

-- The resizes of `memory_map_move_sbrk`, from the place of the stack.
unfoldable pub move_border : (stack : Place) → (diff : ℕ) → Place × Option Error
unfolding memory_map_resize
move_border stack diff =
    if is_negative diff
    then and_then (memory_map_resize (to_prev stack) diff)
        (λ heap. memory_map_resize (to_next heap) (sub_word 0 diff))
    else and_then (memory_map_resize stack (sub_word 0 diff))
        (λ moved. memory_map_resize (to_prev moved) diff)

abbrev pub set_sbrk : MemoryMap → (diff : ℕ) → Place × Option Error → MemoryMap × Option Error
set_sbrk m diff (p, some e) = (record m { segments = segments_of p }, some e)
set_sbrk m diff (p, none) =
    (record m { segments = segments_of p; sbrk = add_word m.sbrk diff }, none)

unfoldable pub memory_map_move_sbrk : MemoryMap → (diff : ℕ) → MemoryMap × Option Error
memory_map_move_sbrk m diff = elim (memory_segment_find_prev (reverse m.segments) [] m.sbrk) [
  | none ↦ (m, some efault)
  | some stack ↦ elim stack.before [
    | [] ↦ (m, some efault)
    | heap ∷ before ↦
        let size = sub_word (stack.cur.end) (stack.cur.start) in
        if not (m.sbrk == stack.cur.start)
        then (m, some efault)
        else if is_negative (add_word size diff)
        then (m, some enomem)
        else if not
            (bit_and (if is_negative diff then sub_word 0 diff else diff) (page_size - 1) == 0)
        then (m, some enomem)
        else set_sbrk m diff (move_border stack diff)
  ]
]
