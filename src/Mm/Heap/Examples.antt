-- ===== src/Mm/Heap/Examples.antt =====
-- The theorems on the heap at two free blocks with one in use between them.
use gloworm.Prelude.{
  ℕ, ◌+◌, ◌≤◌, ◌≡◌, refl, List, [], ◌∷◌, inl, inr, leb, ltb, ◌==◌, ◌&&◌, ◌||◌, if◌then◌else◌, arith,
}
use gloworm.Utils.Queue.{null}
use gloworm.Mm.Pages.{align_up}
use gloworm.Mm.Heap.{Heap, done, add32, sub32, kmfree, kmalloc}
use gloworm.Mm.Heap.List.{Apart, covers}
use gloworm.Mm.Heap.Free.{IsFree, kmfree-IsFree}
use gloworm.Mm.Heap.Take.{HoldHeaders}
use gloworm.Mm.Heap.Alloc.{kmalloc-IsFree}

abbrev two_free : Heap
two_free = record {
  free_blocks = 0x1000;
  total_pages = 0x1000;
  bytes_free = 72;
  bytes_allocated = 56;
  blocks = λ p.
      if p == 0x1000
      then record { size = 24; next = 0x1040 }
      else if p == 0x1040
      then record { size = 48; next = 0 }
      else record { size = 40; next = 0 };
  pages = record {
    num_global_blocks = 0;
    global_blocks = λ _. record {
      flags = 0;
      total_pages = 0;
      free_pages = 0;
      base = 0;
      bitmap_size = 0;
      bitmap = λ _. 0;
      refcounts = λ _. 0;
    };
  };
}

abbrev both : List (ℕ × ℕ)
both = (0x1000, 24) ∷ (0x1040, 48) ∷ []

two_free-IsFree : IsFree two_free both
two_free-IsFree = record {
  chain = (refl, refl, (refl, refl, refl));
  sparse = (omega arith, omega arith, omega arith, (omega arith, omega arith, omega arith, tt));
  counted = refl;
}

kmfree-IsFree_example :
    (h' : Heap) × (fs' : List (ℕ × ℕ)) × (kmfree 3 two_free 0x1020 ≡ done null h')
    × IsFree h' fs'
    × ((x : ℕ) → covers fs' x ≡ ((leb 0x1018 x && ltb x (0x1018 + 40)) || covers both x))
    × (h'.bytes_allocated ≡ sub32 56 40)
kmfree-IsFree_example =
    kmfree-IsFree 3 two_free 0x1018 40 both two_free-IsFree (omega arith) (omega arith)
      (omega arith) refl (inl (omega arith), (inr (omega arith), tt)) (omega arith)

kmalloc-IsFree_example :
    (a m : ℕ) × (h' : Heap) × (fs' : List (ℕ × ℕ)) × (kmalloc 3 two_free 18 ≡ done (a + 8) h')
    × IsFree h' fs'
    × HoldHeaders fs'
    × (h'.blocks a ≡ record { size = m; next = null })
    × (align_up 18 4 + 8 ≤ m)
    × ((x : ℕ) → covers both x ≡ ((leb a x && ltb x (a + m)) || covers fs' x))
    × Apart a m fs'
    × (h'.bytes_allocated ≡ add32 56 m)
kmalloc-IsFree_example =
    kmalloc-IsFree 3 two_free 18 both two_free-IsFree (omega arith, (omega arith, tt))
      (inr (inl (omega arith))) (omega arith)
