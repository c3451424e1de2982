-- ===== src/Mm/Map/Segments.antt =====
-- src/kernel/mm/map.c: the segments that are put into an address space.
use gloworm.Prelude.{
  ℕ, ◌-◌, Bool, true, not, ◌&&◌, ◌||◌, Option, none, some, List, [], ◌∷◌, ltb, ◌==◌, if◌then◌else◌,
}
use Prim.Native.Nat.{bit_and, bit_or}
use gloworm.Utils.Queue.{Ptr, null}
use gloworm.Mm.Pages.{page_size}
use gloworm.Mm.Map.{
  add_word, sub_word, has, seg_type_heap, seg_type_stack, seg_read, seg_write, seg_executable,
  seg_growsdown, seg_anonymous, seg_fixed, seg_populate, seg_nocache, seg_supervisor, MemoryOps,
  Segment, MemoryMap, Host, mmu_op_map, mmu_type_unallocated, mmu_type_preallocated, mmu_type_fixed,
  mmu_flag_copy_on_write, mmu_flag_nocache, mmu_flag_supervisor, mmu_flag_write,
  overlapping_memory_segment_start, within_memory_segment_end, Result, einval, enomem, mmu_error,
  no_ops, file_memory_ops, anonymous_memory_ops, free_object, make_ref,
}

-- The test of `memory_map_insert_segment` on the segment that comes next, if there is one.
abbrev pub fits_before : Segment → (next : List Segment) → Bool
fits_before segment [] = true
fits_before segment (n ∷ next) = not (overlapping_memory_segment_start n (segment.end))

-- The loop of `memory_map_insert_segment`: the list with the segment in its place, if there is a
-- place after some segment.
unfoldable pub insert_after_fit : Segment → List Segment → Option (List Segment)
insert_after_fit segment [] = none
insert_after_fit segment (cur ∷ next) =
    let rest = insert_after_fit segment next in
    if not (within_memory_segment_end cur (segment.start)) && fits_before segment next
    then some (cur ∷ segment ∷ next)
    else elim rest [ none ↦ none | some l ↦ some (cur ∷ l) ]

-- `memory_map_insert_segment`, when the segment could be allocated.
unfoldable pub insert_segment : Segment → List Segment → List Segment
unfolding insert_after_fit
insert_segment segment segments = elim (insert_after_fit segment segments) [
  | some l ↦ l
  | none ↦ segment ∷ segments
]

unfoldable pub memory_map_adjust_markers : MemoryMap → Segment → MemoryMap
memory_map_adjust_markers m segment =
    let m1 =
      if has (segment.flags) seg_executable
      then record m { code_start = if m.code_start == 0 then segment.start else m.code_start }
      else record m { data_start = if m.data_start == 0 then segment.start else m.data_start } in
    if has (segment.flags) seg_type_stack && (segment.end == 0 || ltb m.stack_end (segment.end))
    then record m1 { stack_end = segment.end }
    else m1

-- The flags of the page table for those of a segment.
unfoldable pub mmu_flags : (flags : ℕ) → ℕ
mmu_flags flags =
    let write = if has flags seg_write then bit_or mmu_op_map mmu_flag_write else mmu_op_map in
    let kind =
      if has flags seg_fixed
      then bit_or write mmu_type_fixed
      else if has flags seg_anonymous
      then bit_or write mmu_type_unallocated
      else if has flags seg_populate
      then bit_or write mmu_type_preallocated
      else bit_or write mmu_type_unallocated in
    let cache = if has flags seg_nocache then bit_or kind mmu_flag_nocache else kind in
    if has flags seg_supervisor then bit_or cache mmu_flag_supervisor else cache

abbrev pub segment_ops : (flags : ℕ) → (object : Ptr) → MemoryOps
segment_ops flags object =
    if has flags seg_fixed
    then no_ops
    else if object == null
    then anonymous_memory_ops
    else file_memory_ops

module _ (host : Host) where
  open host use {
    State, kmalloc, kmfree, vfs_clone_fileptr, vfs_close, mmu_table_map, mmu_table_copy,
  }

  unfoldable pub memory_map_mmap :
      MemoryMap → State → (start length flags : ℕ) → (object : Ptr) → (offset : ℕ) → Result State
  unfolding insert_segment memory_map_adjust_markers mmu_flags
  memory_map_mmap m st start length flags object offset =
      let end = add_word start length in
      let segment : Segment = record {
        flags = flags;
        start = start;
        end = end;
        ops = segment_ops flags object;
        file = object;
        offset = offset;
      } in
      let (st1, allocated) = kmalloc st in
      let inserted = record m { segments = insert_segment segment m.segments } in
      let (st2, failed) = mmu_table_map st1 m.root_table start length (mmu_flags flags) in
      if not (bit_and length (page_size - 1) == 0)
      then record { error = some einval; memory_map = m; state = st }
      else if not (bit_and start (page_size - 1) == 0)
      then record { error = some einval; memory_map = m; state = st }
      else if ltb 0 end && ltb end start
      then record { error = some einval; memory_map = m; state = st }
      else if not allocated
      then record { error = some enomem; memory_map = m; state = free_object host st1 object }
      else elim failed [
        | some e ↦ record {
          error = some (mmu_error e);
          memory_map = inserted;
          state = free_object host st2 object;
        }
        | none ↦ record {
          error = none;
          memory_map = memory_map_adjust_markers inserted segment;
          state = st2;
        }
      ]

  unfoldable pub memory_map_copy_segment :
      (dest_map src_map : MemoryMap) → State → (src_segment : Segment) → Result State
  unfolding insert_segment memory_map_adjust_markers
  memory_map_copy_segment dest_map src_map st src =
      let length = sub_word src.end src.start in
      let segment = record src { end = add_word src.start length } in
      let (st1, allocated) = kmalloc st in
      let copied = record dest_map { segments = insert_segment segment dest_map.segments } in
      let flags =
        if has src.flags seg_fixed
        then mmu_type_fixed
        else if has src.flags seg_write
        then mmu_flag_copy_on_write
        else 0 in
      let (st2, failed) =
        mmu_table_copy (make_ref host st1 src.file) dest_map.root_table src_map.root_table src.start
          length flags in
      if not allocated
      then record { error = some enomem; memory_map = dest_map; state = st1 }
      else elim failed [
        | some e ↦ record { error = some (mmu_error e); memory_map = copied; state = st2 }
        | none ↦ record {
          error = none;
          memory_map = memory_map_adjust_markers copied segment;
          state = st2;
        }
      ]

  unfoldable pub memory_map_insert_heap_stack :
      MemoryMap → State → (heap_start stack_size : ℕ) → Result State
  unfolding memory_map_mmap
  memory_map_insert_heap_stack m st heap_start stack_size =
      let heap_flags = bit_or (bit_or (bit_or seg_type_heap seg_read) seg_write) seg_anonymous in
      let stack_flags =
        bit_or (bit_or (bit_or (bit_or seg_type_stack seg_growsdown) seg_read) seg_write)
          seg_anonymous in
      let heap = memory_map_mmap m st heap_start 0 heap_flags null 0 in
      let stack =
        memory_map_mmap heap.memory_map heap.state heap_start stack_size stack_flags null 0 in
      elim heap.error [
        | some e ↦ heap
        | none ↦ elim stack.error [
          | some e ↦ stack
          | none ↦ record stack {
            memory_map = record (stack.memory_map) {
              heap_start = heap_start;
              sbrk = heap_start;
              stack_end = add_word heap_start stack_size;
            };
          }
        ]
      ]
