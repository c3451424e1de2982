-- ===== src/Mm/Pages/Examples.antt =====
-- The theorems on blocks of pages at a block of four pages in cleared memory.
use gloworm.Prelude.{ℕ, ◌≡◌, refl, none, some, ◌<◌, arith}
use gloworm.Mm.Pages.{
  PageBlock, is_taken, init_page_block_with_bitmap, page_block_alloc, page_block_free,
}
use gloworm.Mm.Pages.Alloc.{IsValid, Allocated, page_block_alloc_lem}
use gloworm.Mm.Pages.Free.{page_block_free-alloc}
use gloworm.Mm.Pages.Init.{init-IsValid_zeroed}

abbrev four_pages : PageBlock
four_pages = (init_page_block_with_bitmap 0x4000 0x10000 (λ _. 0) 16 (λ _. 0) 0).1

four_pages-IsValid : IsValid four_pages
four_pages-IsValid =
    (init-IsValid_zeroed 0x4000 0x10000 (λ _. 0) 16 (λ _. 0) 0 (λ _. refl) (λ _. refl)).0

page_block_alloc_lem_example : Allocated four_pages 2 (page_block_alloc four_pages 0x2000)
page_block_alloc_lem_example =
    page_block_alloc_lem four_pages 0x2000 four_pages-IsValid (omega arith)

abbrev two_claimed : PageBlock
two_claimed = elim (page_block_alloc four_pages 0x2000) [ none ↦ four_pages | some r ↦ r.1 ]

alloc_two : page_block_alloc four_pages 0x2000 ≡ some (0x10000, two_claimed)
unfolding page_block_alloc init_page_block_with_bitmap
alloc_two = refl

page_block_free-alloc_example :
    let b'' = page_block_free two_claimed 0x10000 0x2000 in
    IsValid b''
    × ((j : ℕ) → is_taken b'' j ≡ is_taken four_pages j)
    × ((j : ℕ) → j < four_pages.total_pages → b''.refcounts j ≡ four_pages.refcounts j)
    × (b''.free_pages ≡ four_pages.free_pages)
page_block_free-alloc_example =
    page_block_free-alloc four_pages 0x2000 0x10000 two_claimed four_pages-IsValid (omega arith)
      alloc_two (λ e. omega (arith, e))
