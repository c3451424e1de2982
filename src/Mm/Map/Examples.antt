-- ===== src/Mm/Map/Examples.antt =====
-- The theorems on the address space of a process with code, a heap and a stack.
use gloworm.Prelude.{
  ℕ, suc, ◌≡◌, refl, true, ◌&&◌, none, some, [], ◌∷◌, inl, inr, ltb, leb, if◌then◌else◌, arith,
}
use gloworm.Utils.Queue.{null}
use gloworm.Mm.Map.{
  Segment, MemoryMap, Host, efault, enomem, no_ops, file_memory_ops, anonymous_memory_ops, sub_word,
  seg_fixed, memory_map_find,
}
use gloworm.Mm.Map.Segments.{memory_map_mmap}
use gloworm.Mm.Map.Cuts.{memory_map_unmap}
use gloworm.Mm.Map.Border.{memory_map_move_sbrk}
use gloworm.Mm.Map.Unmap.{IsBelow, Obliging, behind, cut_out, memory_map_unmap-cut_out}
use gloworm.Mm.Map.Insert.{Ordered, memory_map_mmap-Mapped}
use gloworm.Mm.Map.Sbrk.{Border, memory_map_move_sbrk-up, memory_map_move_sbrk-down}

-- A host that counts the calls.
abbrev counting : Host
counting = record {
  State = ℕ;
  kmalloc = λ n. (suc n, true);
  kmfree = suc;
  vfs_clone_fileptr = λ n file. suc n;
  vfs_close = λ n file. suc n;
  mmu_table_map = λ n root start length flags. (suc n, none);
  mmu_table_copy = λ n dest src start length flags. (suc n, none);
}

obliging : Obliging counting
obliging = record { allocates = λ st. refl; maps = λ st root start length flags. refl }

-- Two pages of a file, from its second page on.
abbrev code : Segment
code = record {
  flags = 0x0051;
  start = 0x10000;
  end = 0x12000;
  ops = file_memory_ops;
  file = 0x500;
  offset = 0x1000;
}

abbrev heap : Segment
heap = record {
  flags = 0x1033;
  start = 0x20000;
  end = 0x22000;
  ops = anonymous_memory_ops;
  file = null;
  offset = 0;
}

abbrev stack : Segment
stack = record {
  flags = 0x1134;
  start = 0x22000;
  end = 0x23000;
  ops = anonymous_memory_ops;
  file = null;
  offset = 0;
}

abbrev process : MemoryMap
process = record {
  segments = code ∷ heap ∷ stack ∷ [];
  code_start = 0x10000;
  data_start = 0;
  heap_start = 0x20000;
  sbrk = 0x22000;
  stack_end = 0x23000;
  root_table = 0x900;
}

code-IsBelow : IsBelow code
code-IsBelow = record { ordered = omega arith; ends = omega arith; bounded = omega arith }

heap-IsBelow : IsBelow heap
heap-IsBelow = record { ordered = omega arith; ends = omega arith; bounded = omega arith }

stack-IsBelow : IsBelow stack
stack-IsBelow = record { ordered = omega arith; ends = omega arith; bounded = omega arith }

-- The first page of the code goes.
memory_map_unmap-cut_out_example :
    let r = memory_map_unmap counting process 0 0x10000 0x1000 in
    (r.error ≡ none)
    × (behind (λ s. s.start) (memory_map_find r.memory_map.segments 0x11004) 0x11004
        ≡ cut_out counting 0x10000 0x11000 process.segments 0x11004)
memory_map_unmap-cut_out_example =
    memory_map_unmap-cut_out counting obliging process 0 0x10000 0x1000 0x11004
      (code-IsBelow, (heap-IsBelow, (stack-IsBelow, tt))) (omega arith)

-- A device between the code and the heap.
memory_map_mmap-Mapped_example :
    let r = memory_map_mmap counting process 0 0x18000 0x2000 seg_fixed null 0 in
    (r.error ≡ none)
    × Ordered 0 r.memory_map.segments
    × ((a : ℕ)
        → memory_map_find r.memory_map.segments a ≡ (
            if leb 0x18000 a && ltb a 0x1a000
            then some (record {
              flags = seg_fixed;
              start = 0x18000;
              end = 0x1a000;
              ops = no_ops;
              file = null;
              offset = 0;
            })
            else memory_map_find process.segments a))
memory_map_mmap-Mapped_example =
    memory_map_mmap-Mapped counting obliging process 0 0x18000 0x2000 seg_fixed null 0
      (omega arith, code-IsBelow, (omega arith, heap-IsBelow, (omega arith, stack-IsBelow, tt)))
      refl refl (omega arith) (omega arith)
      (inl (omega arith), (inr (omega arith), (inr (omega arith), tt)))

process-Border : Border 0x22000 (code ∷ []) heap stack []
process-Border = record {
  heap_grows_up = refl;
  stack_grows_down = refl;
  heap_ends = refl;
  stack_starts = refl;
  above_zero = omega arith;
  room = omega arith;
  bounded = omega arith;
  size_bounded = omega arith;
  above = tt;
}

-- Two pages, when the stack has one.
memory_map_move_sbrk-up_example : memory_map_move_sbrk process 0x2000 ≡ (
  record process { segments = code ∷ heap ∷ record stack { start = 0x24000 } ∷ [] },
  some efault,
)
memory_map_move_sbrk-up_example =
    memory_map_move_sbrk-up process (code ∷ []) heap stack [] 0x2000 refl process-Border
      (omega arith) (omega arith) refl

-- The heap has two pages, and cannot give them back.
memory_map_move_sbrk-down_example :
    memory_map_move_sbrk process (sub_word 0 0x2000) ≡ (process, some enomem)
memory_map_move_sbrk-down_example =
    memory_map_move_sbrk-down process (code ∷ []) heap stack [] 0x2000 refl process-Border
      (omega arith) (omega arith) (omega arith) refl
