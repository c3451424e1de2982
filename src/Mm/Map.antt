-- ===== src/Mm/Map.antt =====
-- src/kernel/mm/map.c and include/kernel/mm/map.h, as CONFIG_MMU has them: the address space of a
-- process as a list of segments, in the order of its queue. An address is a 32-bit word, and the end
-- 0 of a segment is the end of the address space. The page table, the allocation of a segment and
-- the references to a file are a parameter.
pub mod Segments
pub mod Cuts
pub mod Border
pub mod Unmap
pub mod Insert
pub mod Sbrk
mod Examples
use gloworm.Prelude.{
  ℕ, zero, suc, ◌+◌, ◌-◌, ◌%◌, ◌^◌, ◌≡◌, Bool, true, false, not, ◌&&◌, ◌||◌, Option, none, some,
  List, [], ◌∷◌, ◌++◌, reverse, reverse_aux, ltb, leb, ◌==◌, if◌then◌else◌,
}
use Prim.Native.Nat.{bit_and, bit_or}
use gloworm.Utils.Queue.{Ptr, null}
use gloworm.Mm.Pages.{page_size}

-- The arithmetic of `uintptr_t` and of `int`, in two's complement.
abbrev pub add_word : ℕ → ℕ → ℕ
add_word a b = (a + b) % 4294967296

abbrev pub sub_word : ℕ → ℕ → ℕ
sub_word a b = (a + (4294967296 - b)) % 4294967296

abbrev pub is_negative : ℕ → Bool
is_negative a = leb 2147483648 a

abbrev pub has : (flags mask : ℕ) → Bool
has flags mask = not (bit_and flags mask == 0)

abbrev pub seg_type_heap : ℕ
seg_type_heap = 0x0003

abbrev pub seg_type_stack : ℕ
seg_type_stack = 0x0004

abbrev pub seg_read : ℕ
seg_read = 0x0010

abbrev pub seg_write : ℕ
seg_write = 0x0020

abbrev pub seg_executable : ℕ
seg_executable = 0x0040

abbrev pub seg_growsdown : ℕ
seg_growsdown = 0x0100

abbrev pub seg_anonymous : ℕ
seg_anonymous = 0x1000

abbrev pub seg_fixed : ℕ
seg_fixed = 0x2000

abbrev pub seg_populate : ℕ
seg_populate = 0x4000

abbrev pub seg_nocache : ℕ
seg_nocache = 0x10000

abbrev pub seg_supervisor : ℕ
seg_supervisor = 0x80000

-- The errors, which the source has as negative numbers.
pub data Error : Type 0 where
  einval enomem efault : Error
  mmu_error : ℕ → Error

-- What `ops` points to.
pub data MemoryOps : Type 0 where
  no_ops file_memory_ops anonymous_memory_ops : MemoryOps

-- `struct memory_segment` without its node.
pub record Segment : Type 0 where
  pub flags : ℕ
  pub start : ℕ
  pub end : ℕ
  pub ops : MemoryOps
  pub file : Ptr
  pub offset : ℕ

-- `struct memory_map` without its reference count and the arguments of the process.
pub record MemoryMap : Type 0 where
  pub segments : List Segment
  pub code_start : ℕ
  pub data_start : ℕ
  pub heap_start : ℕ
  pub sbrk : ℕ
  pub stack_end : ℕ
  pub root_table : Ptr

-- What the map relies on: `kmalloc` of a segment, the references to an open file, and the calls that
-- change the page table, with their error.
pub record Host : Type 1 where
  pub State : Type 0
  pub kmalloc : State → State × Bool
  pub kmfree : State → State
  pub vfs_clone_fileptr : State → (file : Ptr) → State
  pub vfs_close : State → (file : Ptr) → State
  pub mmu_table_map : State → (root : Ptr) → (start length flags : ℕ) → State × Option ℕ
  pub mmu_table_copy : State → (dest src : Ptr) → (start length flags : ℕ) → State × Option ℕ

abbrev pub mmu_op_map : ℕ
mmu_op_map = 0x0001

abbrev pub mmu_op_unmap : ℕ
mmu_op_unmap = 0x0002

abbrev pub mmu_type_unallocated : ℕ
mmu_type_unallocated = 0x0000

abbrev pub mmu_type_preallocated : ℕ
mmu_type_preallocated = 0x0010

abbrev pub mmu_type_fixed : ℕ
mmu_type_fixed = 0x0020

abbrev pub mmu_flag_copy_on_write : ℕ
mmu_flag_copy_on_write = 0x0200

abbrev pub mmu_flag_nocache : ℕ
mmu_flag_nocache = 0x0400

abbrev pub mmu_flag_supervisor : ℕ
mmu_flag_supervisor = 0x0800

abbrev pub mmu_flag_write : ℕ
mmu_flag_write = 0x1000

abbrev pub within_memory_segment_start : Segment → ℕ → Bool
within_memory_segment_start segment address = leb segment.start address

abbrev pub overlapping_memory_segment_start : Segment → ℕ → Bool
overlapping_memory_segment_start segment address = ltb segment.start address

abbrev pub within_memory_segment_end : Segment → ℕ → Bool
within_memory_segment_end segment address = segment.end == 0 || ltb address segment.end

abbrev pub within_or_at_memory_segment_end : Segment → ℕ → Bool
within_or_at_memory_segment_end segment address = segment.end == 0 || leb address segment.end

-- `memory_segment_find_next` from the first segment.
unfoldable pub memory_map_find : List Segment → (address : ℕ) → Option Segment
memory_map_find [] address = none
memory_map_find (cur ∷ next) address =
    let rest = memory_map_find next address in
    if within_memory_segment_start cur address && within_memory_segment_end cur address
    then some cur
    else rest

-- The end of an operation: its error, the map and the rest of the system.
pub record Result (S : Type 0) : Type 0 where
  pub error : Option Error
  pub memory_map : MemoryMap
  pub state : S

module _ (host : Host) where
  open host use {
    State, kmalloc, kmfree, vfs_clone_fileptr, vfs_close, mmu_table_map, mmu_table_copy,
  }

  unfoldable pub memory_segment_free : State → Segment → State
  memory_segment_free st segment =
      kmfree (if segment.file == null then st else vfs_close st segment.file)

  abbrev pub free_object : State → (object : Ptr) → State
  free_object st object = if object == null then st else vfs_close st object

  abbrev pub make_ref : State → (object : Ptr) → State
  make_ref st object = if object == null then st else vfs_clone_fileptr st object
