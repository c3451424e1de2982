-- ===== src/Mm/Pages.antt =====
-- src/kernel/mm/pages.c: blocks of physical pages, with a bit for each page that is allocated and a
-- count of its references, as CONFIG_MMU has it. The bitmap is an array of 16-bit words, which the
-- operations on them do not leave.
pub mod Bitmap
pub mod Alloc
pub mod Free
pub mod Init
pub mod Global
mod Examples
use gloworm.Prelude.{
  ℕ, zero, suc, ◌+◌, ◌-◌, ◌*◌, ◌/◌, ◌%◌, ◌^◌, Bool, true, false, not, ◌&&◌, ◌||◌, Option, none,
  some, ltb, leb, ◌==◌, if◌then◌else◌, update,
}
use Prim.Native.Nat.{bit_and, bit_or}
use gloworm.Utils.Queue.{Ptr, null}

-- The default of CONFIG_PAGE_SIZE.
abbrev pub page_addr_bits : ℕ
page_addr_bits = 12

abbrev pub page_size : ℕ
page_size = 4096

abbrev pub pages_per_index : ℕ
pages_per_index = 16

abbrev pub all_pages_at_index : ℕ
all_pages_at_index = 0xffff

abbrev pub bit_index : ℕ → ℕ
bit_index bit = bit / 16

abbrev pub bit_mask : ℕ → ℕ
bit_mask bit = 2 ^ (bit % 16)

pub record PageBlock : Type 0 where
  pub flags : ℕ
  pub total_pages : ℕ
  pub free_pages : ℕ
  pub base : Ptr
  pub bitmap_size : ℕ
  pub bitmap : ℕ → ℕ
  pub refcounts : ℕ → ℕ

-- `init_page_block_with_bitmap`; the flag is false for -1. The sizes of the two `memset` calls are
-- in bytes.
unfoldable pub init_page_block_with_bitmap :
    (size addr : ℕ)
    → (bitmap : ℕ → ℕ) → (bitmap_size : ℕ) → (descriptors : ℕ → ℕ) → (flags : ℕ) → Bool × PageBlock
init_page_block_with_bitmap size addr bitmap bitmap_size descriptors flags =
    let total = size / page_size in
    (
      leb total (bitmap_size * 16),
      record {
        flags = flags;
        total_pages = total;
        free_pages = total;
        base = addr;
        bitmap_size = bitmap_size;
        bitmap = λ i.
            if ltb (2 * i + 1) bitmap_size
            then 0
            else if ltb (2 * i) bitmap_size
            then bitmap i % 256
            else bitmap i;
        refcounts = λ i.
            if ltb (2 * i + 1) total
            then 0
            else if ltb (2 * i) total
            then descriptors i % 256
            else descriptors i;
      },
    )

-- The bit of a page is set.
unfoldable pub is_taken : PageBlock → ℕ → Bool
is_taken block bit = not (bit_and (block.bitmap (bit_index bit)) (bit_mask bit) == 0)

-- The search for the end of a run of free pages, with the rounds left.
unfoldable pub run_end : ℕ → PageBlock → (contiguous_pages start_bit end_bit : ℕ) → ℕ
unfolding is_taken
run_end zero block n start at = at
run_end (suc rounds) block n start at =
    let rest = run_end rounds block n start (at + 1) in
    if ltb at block.total_pages && ltb (at - start) n && not (is_taken block at) then rest else at

unfoldable pub mark : PageBlock → ℕ → PageBlock
mark block bit = record block {
  bitmap =
      update block.bitmap (bit_index bit) (bit_or (block.bitmap (bit_index bit)) (bit_mask bit));
  refcounts = update block.refcounts bit 1;
}

-- The pages from `bit` on are marked, as many as there are rounds.
unfoldable pub claim : ℕ → PageBlock → ℕ → PageBlock
unfolding mark
claim zero block bit = block
claim (suc rounds) block bit = claim rounds (mark block bit) (bit + 1)

-- The loop of `page_block_alloc` on fuel; none if it ran out. The address is null if there is no run.
unfoldable pub alloc_from :
    ℕ → PageBlock → (contiguous_pages start_bit : ℕ) → Option (Ptr × PageBlock)
unfolding is_taken run_end claim
alloc_from zero block n start = none
alloc_from (suc fuel) block n start =
    let is_full = block.bitmap (bit_index start) == all_pages_at_index in
    let next = alloc_from fuel block n (if is_full then start + pages_per_index else start + 1) in
    let at_end = run_end block.total_pages block n start (start + 1) in
    if not (ltb start block.total_pages)
    then some (null, block)
    else if is_full
        || is_taken block start
        || ltb block.total_pages at_end
        || ltb (at_end - start) n
    then next
    else let claimed = claim (at_end - start) block start in
      some (block.base + start * page_size, record claimed { free_pages = block.free_pages - n })

unfoldable pub page_block_alloc : PageBlock → (size : ℕ) → Option (Ptr × PageBlock)
unfolding alloc_from
page_block_alloc block size = alloc_from (block.total_pages + 1) block (size / page_size) 0

-- One page loses a reference; the count is a 16-bit word.
unfoldable pub drop_ref : PageBlock → ℕ → PageBlock
drop_ref block page =
    let count = (block.refcounts page + 0xffff) % 2 ^ 16 in
    let block' = record block { refcounts = update block.refcounts page count } in
    if count == 0
    then record block' {
      bitmap =
          update block.bitmap (bit_index page)
            (bit_and (block.bitmap (bit_index page)) (0xffff - bit_mask page));
      free_pages = block.free_pages + 1;
    }
    else block'

-- The loop of `page_block_free`, a round for each whole page of the size.
unfoldable pub free_from : ℕ → PageBlock → ℕ → PageBlock
unfolding drop_ref
free_from zero block page = block
free_from (suc rounds) block page = free_from rounds (drop_ref block page) (page + 1)

unfoldable pub page_block_free : PageBlock → Ptr → (size : ℕ) → PageBlock
unfolding free_from
page_block_free block ptr size = free_from (size / page_size) block ((ptr - block.base) / page_size)

unfoldable pub make_ref_from : ℕ → PageBlock → ℕ → PageBlock
make_ref_from zero block page = block
make_ref_from (suc rounds) block page =
    make_ref_from rounds
      (record block {
        refcounts = update block.refcounts page ((block.refcounts page + 1) % 2 ^ 16);
      })
      (page + 1)

unfoldable pub page_block_make_ref : PageBlock → Ptr → (size : ℕ) → Ptr × PageBlock
unfolding make_ref_from
page_block_make_ref block ptr size =
    (ptr, make_ref_from (size / page_size) block ((ptr - block.base) / page_size))

unfoldable pub page_block_get_ref_single : PageBlock → Ptr → ℕ
page_block_get_ref_single block ptr = block.refcounts ((ptr - block.base) / page_size)

abbrev pub align_up : (value size : ℕ) → ℕ
align_up value size = (value + size - 1) / size * size

-- `init_page_block`, over the memory as 16-bit words at its addresses: the bitmap comes first, then
-- the descriptors, then the pages.
unfoldable pub init_page_block : (words : Ptr → ℕ) → (addr size flags : ℕ) → Bool × PageBlock
unfolding init_page_block_with_bitmap
init_page_block words addr size flags =
    let total = size / page_size in
    let bitmap_size = align_up (total / pages_per_index) pages_per_index in
    let bitmap_pages = align_up bitmap_size page_size / page_size in
    let descriptors_pages = align_up ((total - bitmap_pages) * 2) page_size / page_size in
    let descriptors_addr = addr + bitmap_pages * page_size in
    init_page_block_with_bitmap ((total - bitmap_pages - descriptors_pages) * page_size)
      (addr + (bitmap_pages + descriptors_pages) * page_size) (λ i. words (addr + 2 * i))
      bitmap_size (λ i. words (descriptors_addr + 2 * i)) flags
