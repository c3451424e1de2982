-- ===== src/Mm/Pages/Global.antt =====
-- src/kernel/mm/pages.c: the blocks of pages of the whole system. What `page_make_ref` and
-- `page_get_ref_single` return is a constant of the source; the block's own result is dropped there.
use gloworm.Prelude.{
  ℕ, zero, suc, ◌+◌, ◌*◌, ◌/◌, ◌<◌, ◌≡◌, refl, Bool, true, false, ◌&&◌, ◌>>=◌, Option, none, some,
  ltb, leb, ◌==◌, if◌then◌else◌, update, arith,
}
use Prim.Native.Nat.{bit_and}
use gloworm.Utils.Queue.{Ptr, null}
use gloworm.Mm.Pages.{
  PageBlock, page_size, init_page_block, page_block_alloc, page_block_free, page_block_make_ref,
}

abbrev pub page_f_type : ℕ
page_f_type = 0x000f

abbrev pub max_page_blocks : ℕ
max_page_blocks = 4

pub record GlobalPages : Type 0 where
  pub num_global_blocks : ℕ
  pub global_blocks : ℕ → PageBlock

-- 0, EINVAL and -1.
pub data Appended : Type 0 where
  success : Appended
  invalid : Appended
  too_small : Appended

-- The memory is that of the bitmap and the descriptors. None if the array of blocks is full, which
-- the source does not test before it writes behind it.
unfoldable pub append_global_page_block :
    GlobalPages → (words : Ptr → ℕ) → (start size flags : ℕ) → Option (Appended × GlobalPages)
append_global_page_block g words start size flags =
    let previous = g.global_blocks g.num_global_blocks in
    let (large, block) = init_page_block words start size flags in
    if ltb 0 g.num_global_blocks && ltb start (previous.base + previous.total_pages * page_size)
    then some (invalid, g)
    else if leb max_page_blocks g.num_global_blocks
    then none
    else some (
      if large then success else too_small,
      record {
        num_global_blocks = g.num_global_blocks + 1;
        global_blocks = update g.global_blocks g.num_global_blocks block;
      },
    )

-- The flag is false for a negative error.
unfoldable pub init_pages :
    GlobalPages → (words : Ptr → ℕ) → (start size flags : ℕ) → Option (Bool × GlobalPages)
unfolding append_global_page_block
init_pages g words start size flags = do
  (error, g') ← append_global_page_block (record g { num_global_blocks = 0 }) words start size flags
  some (elim error [ too_small ↦ false | _ ↦ true ], g')

-- The loop of `page_alloc`, with the rounds left; none if the block's own loop ran out of fuel.
unfoldable pub page_alloc_from : ℕ → GlobalPages → (size flags i : ℕ) → Option (Ptr × GlobalPages)
page_alloc_from zero g size flags i = some (null, g)
page_alloc_from (suc rounds) g size flags i =
    let rest = page_alloc_from rounds g size flags (i + 1) in
    let block = g.global_blocks i in
    if bit_and block.flags (bit_and page_f_type flags) == bit_and page_f_type flags
      && ltb (size / page_size) block.free_pages
    then (do
      (ptr, block') ← page_block_alloc block size
      some (ptr, record g { global_blocks = update g.global_blocks i block' }))
    else rest

unfoldable pub page_alloc : GlobalPages → (size flags : ℕ) → Option (Ptr × GlobalPages)
unfolding page_alloc_from
page_alloc g size flags = page_alloc_from g.num_global_blocks g size flags 0

-- The test for the block that holds an address, whose end counts as part of it.
unfoldable pub holds : PageBlock → Ptr → Bool
holds block ptr = leb block.base ptr && leb ptr (block.base + block.total_pages * page_size)

unfoldable pub page_free_from : ℕ → GlobalPages → Ptr → (size i : ℕ) → GlobalPages
unfolding holds
page_free_from zero g ptr size i = g
page_free_from (suc rounds) g ptr size i =
    let rest = page_free_from rounds g ptr size (i + 1) in
    if holds (g.global_blocks i) ptr
    then record g {
      global_blocks = update g.global_blocks i (page_block_free (g.global_blocks i) ptr size);
    }
    else rest

unfoldable pub page_free : GlobalPages → Ptr → (size : ℕ) → GlobalPages
unfolding page_free_from
page_free g ptr size = page_free_from g.num_global_blocks g ptr size 0

-- The loop of `page_make_ref`, which goes on behind a block that holds the address.
unfoldable pub make_refs : ℕ → GlobalPages → Ptr → (size i : ℕ) → GlobalPages
unfolding holds
make_refs zero g ptr size i = g
make_refs (suc rounds) g ptr size i =
    let block = g.global_blocks i in
    let g' = record g {
      global_blocks = update g.global_blocks i (page_block_make_ref block ptr size).1;
    } in
    make_refs rounds (if holds block ptr then g' else g) ptr size (i + 1)

unfoldable pub page_make_ref : GlobalPages → Ptr → (size : ℕ) → Ptr × GlobalPages
unfolding make_refs
page_make_ref g ptr size = (null, make_refs g.num_global_blocks g ptr size 0)

-- Blocks that `append_global_page_block` has not reached are zero, as the source's static array is.
record Unused (g : GlobalPages) (i : ℕ) : Type 0 where
  pub base : (g.global_blocks i).base ≡ 0
  pub total : (g.global_blocks i).total_pages ≡ 0

-- If there is room for one more block and it is still zero, `append_global_page_block` adds it at
-- any start address, also one inside the blocks before it: the block whose end it compares with
-- the start is the new one.
append_accepts_overlap :
    (g : GlobalPages) (words : Ptr → ℕ) (start size flags : ℕ)
    → g.num_global_blocks < max_page_blocks
    → Unused g g.num_global_blocks
    → let (large, block) = init_page_block words start size flags in
      append_global_page_block g words start size flags
      ≡ some (
        if large then success else too_small,
        record {
          num_global_blocks = g.num_global_blocks + 1;
          global_blocks = update g.global_blocks g.num_global_blocks block;
        },
      )
unfolding append_global_page_block
append_accepts_overlap g words start size flags room u = rw (refused, full) refl
  where
    refused :
        (ltb 0 g.num_global_blocks
          && ltb start (
              (g.global_blocks g.num_global_blocks).base
              + (g.global_blocks g.num_global_blocks).total_pages * page_size))
        ≡ false
    refused = ground (arith, u.base, u.total)

    full : leb max_page_blocks g.num_global_blocks ≡ false
    full = ground arith
