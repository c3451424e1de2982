-- ===== src/Mm/Heap.antt =====
-- src/kernel/mm/kmalloc.c: the heap of the kernel, a list of free blocks over the pages of
-- `page_alloc`. Each block starts with its size and the next block, eight bytes; the blocks of the
-- heap are a function from addresses. Sizes and counters are 32-bit words.
pub mod List
mod Link
mod Splice
mod Cut
mod Take
pub mod Alloc
pub mod Free
mod Examples
use gloworm.Prelude.{
  ℕ, zero, suc, ◌+◌, ◌-◌, ◌*◌, ◌/◌, ◌%◌, ◌^◌, Bool, not, ◌&&◌, none, some, ltb, leb, ◌==◌,
  if◌then◌else◌, update,
}
use gloworm.Utils.Queue.{Ptr, null}
use gloworm.Mm.Pages.{page_size, page_addr_bits, align_up}
use gloworm.Mm.Pages.Global.{GlobalPages, page_alloc, page_free}

-- `struct block`, the header of eight bytes at the start of a block. The headers are a function from
-- the addresses; that each free block has room for its header is a part of what is proved.
pub record Block : Type 0 where
  pub size : ℕ
  pub next : Ptr

pub record Heap : Type 0 where
  pub free_blocks : Ptr
  pub total_pages : ℕ
  pub bytes_free : ℕ
  pub bytes_allocated : ℕ
  pub blocks : Ptr → Block
  pub pages : GlobalPages

-- How a call ends; a panic halts the system.
pub data HeapResult : Type 0 where
  done : Ptr → Heap → HeapResult
  panicked : Heap → HeapResult
  out_of_fuel : HeapResult

abbrev pub add32 : ℕ → ℕ → ℕ
add32 a b = (a + b) % 2 ^ 32

abbrev pub sub32 : ℕ → ℕ → ℕ
sub32 a b = (a + 2 ^ 32 - b) % 2 ^ 32

abbrev pub write_size : Heap → Ptr → ℕ → Heap
write_size h p size = record h { blocks = update h.blocks p (record (h.blocks p) { size = size }) }

abbrev pub write_next : Heap → Ptr → Ptr → Heap
write_next h p next = record h { blocks = update h.blocks p (record (h.blocks p) { next = next }) }

-- The block behind `prev`, or the first one if that is null.
abbrev pub write_link : Heap → (prev next : Ptr) → Heap
write_link h prev next =
    if prev == null then record h { free_blocks = next } else write_next h prev next

unfoldable pub init_kernel_heap : Heap → Heap
init_kernel_heap h = record h {
  free_blocks = null;
  total_pages = 0;
  bytes_free = 0;
  bytes_allocated = 0;
}

-- A block takes in the next one if that begins where it ends.
unfoldable pub absorb_next : Heap → Ptr → Heap
absorb_next h cur =
    let next = (h.blocks cur).next in
    let h' = write_size h cur (add32 (h.blocks cur).size (h.blocks next).size) in
    if add32 cur (h.blocks cur).size == next then write_next h' cur (h'.blocks next).next else h

-- The loop of `kmfree` and what follows it.
unfoldable pub free_from : ℕ → Heap → (block prev cur : Ptr) → HeapResult
unfolding absorb_next
free_from zero h block prev cur = out_of_fuel
free_from (suc fuel) h block prev cur =
    let rest = free_from fuel h block cur (h.blocks cur).next in
    let last = write_next h block null in
    if cur == null
    then if not (prev == null)
      then done null (write_next last prev block)
      else if last.free_blocks == null
      then done null (record last { free_blocks = block })
      else panicked last
    else if (h.blocks cur).next == block
    then panicked h
    else if add32 cur (h.blocks cur).size == block
    then done null
        (absorb_next (write_size h cur (add32 (h.blocks cur).size (h.blocks block).size)) cur)
    else if leb block cur
    then done null (absorb_next (write_next (write_link h prev block) block cur) block)
    else rest

unfoldable pub kmfree : ℕ → Heap → Ptr → HeapResult
unfolding free_from
kmfree fuel h ptr =
    let block = ptr - 8 in
    let size = (h.blocks block).size in
    if not ((h.blocks block).next == null)
    then panicked h
    else free_from fuel
        (record h {
          bytes_free = add32 h.bytes_free size;
          bytes_allocated = sub32 h.bytes_allocated size;
        })
        block null h.free_blocks

-- A free block is taken from the list, or its rest stays there if that can hold a block of its own.
unfoldable pub take_block : Heap → (block_size prev cur : Ptr) → Heap
take_block h block_size prev cur =
    let size = (h.blocks cur).size in
    let next = (h.blocks cur).next in
    let splits = leb (block_size + 16) size in
    let rest = cur + block_size in
    let h1 = write_size (write_size h rest (size - block_size)) cur block_size in
    let h' = if splits then write_next h1 rest next else h in
    let taken = write_link (write_next h' cur null) prev (if splits then rest else next) in
    record taken {
      bytes_free = sub32 taken.bytes_free (taken.blocks cur).size;
      bytes_allocated = add32 taken.bytes_allocated (taken.blocks cur).size;
    }

-- A new page, and its rest on the list.
unfoldable pub grow : ℕ → Heap → (block_size : ℕ) → HeapResult
unfolding kmfree
grow fuel h block_size =
    let size = align_up block_size page_size in
    elim (page_alloc h.pages size 0x4000) [
      | none ↦ out_of_fuel
      | some (cur, pages) ↦
          let h1 = record h { pages = pages } in
          let h2 = write_next (write_size h1 cur size) cur null in
          let h3 = record h2 {
            total_pages = add32 h2.total_pages size;
            bytes_allocated = add32 h2.bytes_allocated size;
          } in
          let rest = cur + block_size in
          let h4 =
            write_next (write_size (write_size h3 cur block_size) rest (size - block_size)) rest
              null in
          if cur == null
          then panicked h1
          else if ltb 16 (size - block_size)
          then (elim (kmfree fuel h4 (rest + 8)) [
            | done _ h5 ↦ done (cur + 8) h5
            | panicked h5 ↦ panicked h5
            | out_of_fuel ↦ out_of_fuel
          ])
          else done (cur + 8) h3
    ]

-- The loop of `kmalloc` over the free blocks and what follows it.
unfoldable pub alloc_from : ℕ → Heap → (block_size : ℕ) → (prev cur : Ptr) → HeapResult
unfolding take_block grow
alloc_from zero h block_size prev cur = out_of_fuel
alloc_from (suc fuel) h block_size prev cur =
    let rest = alloc_from fuel h block_size cur (h.blocks cur).next in
    if cur == null
    then grow (suc fuel) h block_size
    else if leb block_size (h.blocks cur).size
    then done (cur + 8) (take_block h block_size prev cur)
    else rest

unfoldable pub kmalloc : ℕ → Heap → (size : ℕ) → HeapResult
unfolding alloc_from
kmalloc fuel h size = alloc_from fuel h (align_up size 4 + 8) null h.free_blocks

-- The loop of `kernel_heap_compact`, which takes a block that has left the list for the one before
-- the next.
unfoldable pub compact_from : ℕ → Heap → (prev cur : Ptr) → HeapResult
compact_from zero h prev cur = out_of_fuel
compact_from (suc fuel) h prev cur =
    let size = (h.blocks cur).size in
    let linked = write_link h prev (h.blocks cur).next in
    let freed = record linked {
      pages = page_free linked.pages cur (size / 2 ^ page_addr_bits);
      bytes_free = sub32 linked.bytes_free size;
      total_pages = sub32 linked.total_pages size;
    } in
    let h' = if cur % page_size == 0 && size % page_size == 0 then freed else h in
    let rest = compact_from fuel h' cur (h'.blocks cur).next in
    if cur == null then done null h else rest

unfoldable pub kernel_heap_compact : ℕ → Heap → HeapResult
unfolding compact_from
kernel_heap_compact fuel h = compact_from fuel h null h.free_blocks
