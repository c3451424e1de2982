-- ===== src/Mm/Heap/Take.antt =====
-- The cases in which the loop of `kmalloc` ends at a free block.
use gloworm.Prelude.{
  ℕ, ◌+◌, ◌-◌, ◌^◌, ◌<◌, ◌≤◌, ◌≡◌, ◌≢◌, inr, refl, sym, ap, ◌∙◌, subst, true, false, ◌&&◌, ◌||◌,
  List, [], ◌∷◌, ltb, leb, ◌==◌, if◌then◌else◌, arith,
}
use gloworm.Utils.Queue.{Ptr, null}
use gloworm.Mm.Heap.{Block, Heap, add32, sub32, take_block}
use gloworm.Mm.Heap.List.{Chain, Sparse, Apart, covers, free_bytes}
use gloworm.Mm.Heap.Link.{Chain-kept}
use gloworm.Mm.Heap.Splice.{lower-Sparse}
use gloworm.Mm.Heap.Cut.{take_whole-Cut, take_part-Cut}

-- Where the loop stands: the blocks `fs` are left, behind `low`.
pub record Place (h : Heap) (prev cur low : ℕ) (fs : List (ℕ × ℕ)) : Type 0 where
  pub chain : Chain h.blocks cur fs
  pub sparse : Sparse low fs
  pub past : prev ≤ low
  pub first : prev ≡ null → h.free_blocks ≡ cur
  pub behind : prev ≢ null → (h.blocks prev).next ≡ cur

-- Each block has the eight bytes of its header in itself, so that no header lies on another block.
abbrev pub HoldHeaders : List (ℕ × ℕ) → Type 0
HoldHeaders [] = Unit
HoldHeaders (f ∷ fs) = (8 ≤ f.1) × HoldHeaders fs

-- The free blocks `fs` without the `m` bytes from `a` on.
pub record Without (bs a m low : ℕ) (fs fs' : List (ℕ × ℕ)) : Type 0 where
  pub sparse : Sparse low fs'
  pub covers_both : (x : ℕ) → covers fs x ≡ ((leb a x && ltb x (a + m)) || covers fs' x)
  pub apart : Apart a m fs'
  pub enough : bs ≤ m
  pub inside : (low < a) × (a + m < 2 ^ 32)
  pub bytes : free_bytes fs ≡ m + free_bytes fs'
  pub headers : HoldHeaders fs → HoldHeaders fs'

-- What the rest of the loop does to the heap: the block `a` is taken, and `fs'` is left.
pub record Taken (h h' : Heap) (prev low a m : ℕ) (fs' : List (ℕ × ℕ)) : Type 0 where
  pub entry : Ptr
  pub chain : Chain h'.blocks entry fs'
  pub block : h'.blocks a ≡ record { size = m; next = null }
  pub first : h'.free_blocks ≡ (if prev == null then entry else h.free_blocks)
  pub behind : prev ≢ null → h'.blocks prev ≡ record { size = (h.blocks prev).size; next = entry }
  pub kept : (x : Ptr) → x ≤ low → x ≢ prev → h'.blocks x ≡ h.blocks x
  pub free : h'.bytes_free ≡ sub32 h.bytes_free m
  pub allocated : h'.bytes_allocated ≡ add32 h.bytes_allocated m

Sparse-Apart : (a m low : ℕ) (fs : List (ℕ × ℕ)) → a + m ≤ low → Sparse low fs → Apart a m fs
Sparse-Apart a m low [] l s = tt
Sparse-Apart a m low (f ∷ fs) l (k, q, fits, s) =
    (inr (omega (arith, l, k)), Sparse-Apart a m (f.0 + f.1) fs (omega (arith, l, k)) s)

pub take_whole :
    (h : Heap) (bs prev cur low : ℕ) (f : ℕ × ℕ) (fs : List (ℕ × ℕ))
    → Place h prev cur low (f ∷ fs)
    → bs ≤ f.1
    → leb (bs + 16) f.1 ≡ false
    → Taken h (take_block h bs prev cur) prev low f.0 f.1 fs × Without bs f.0 f.1 low (f ∷ fs) fs
take_whole h bs prev cur low f fs p enough whole =
    let (l, q, fits, s) = p.sparse in
    let (at, size, c) = p.chain in
    let h' = take_block h bs prev cur in
    let k =
      take_whole-Cut h bs prev cur (omega (arith, p.past, at, l))
        (ap (λ s. leb (bs + 16) s) size ∙ whole) in
    (
      record {
        entry = (h.blocks cur).next;
        chain =
            Chain-kept h.blocks h'.blocks (f.0 + f.1) (h.blocks cur).next fs
              (λ x m.
                k.others x (λ e. omega (arith, e, m, at)) (λ e. omega (arith, e, m, p.past, l))
                  (λ e. omega (arith, e, m, at)))
              s c;
        block = ap h'.blocks (sym at) ∙ k.block ∙ ap (λ n. record { size = n; next = null }) size;
        first = k.first;
        behind = k.behind;
        kept = λ x m ne.
            k.others x (λ e. omega (arith, e, m, at, l)) ne (λ e. omega (arith, e, m, at, l));
        free = k.free ∙ ap (λ n. sub32 h.bytes_free n) size;
        allocated = k.allocated ∙ ap (λ n. add32 h.bytes_allocated n) size;
      },
      record {
        sparse = lower-Sparse (f.0 + f.1) low fs (omega (arith, l)) s;
        covers_both = λ x. refl;
        apart = Sparse-Apart f.0 f.1 (f.0 + f.1) fs (omega arith) s;
        enough = enough;
        inside = (l, fits);
        bytes = refl;
        headers = λ hs. hs.1;
      },
    )

pub take_part :
    (h : Heap) (bs prev cur low : ℕ) (f : ℕ × ℕ) (fs : List (ℕ × ℕ))
    → Place h prev cur low (f ∷ fs)
    → 0 < bs
    → leb (bs + 16) f.1 ≡ true
    → let fs' = (f.0 + bs, f.1 - bs) ∷ fs in
      Taken h (take_block h bs prev cur) prev low f.0 bs fs' × Without bs f.0 bs low (f ∷ fs) fs'
take_part h bs prev cur low f fs p some_bytes part =
    let (l, q, fits, s) = p.sparse in
    let (at, size, c) = p.chain in
    let h' = take_block h bs prev cur in
    let (k, rest) =
      take_part-Cut h bs prev cur (omega (arith, p.past, at, l)) some_bytes
        (ap (λ s. leb (bs + 16) s) size ∙ part) in
    let room : bs + 16 ≤ f.1 = ground (arith, part) in
    let end : f.0 + bs + (f.1 - bs) ≡ f.0 + f.1 = omega (arith, room) in
    let s' : Sparse (f.0 + bs + (f.1 - bs)) fs = subst (λ e. Sparse e fs) (sym end) s in
    let chain : Chain h'.blocks (h.blocks cur).next fs =
      Chain-kept h.blocks h'.blocks (f.0 + f.1) (h.blocks cur).next fs
        (λ x m.
          k.others x (λ e. omega (arith, e, m, at)) (λ e. omega (arith, e, m, p.past, l))
            (λ e. omega (arith, e, m, at, room)))
        s c in
    (
      record {
        entry = cur + bs;
        chain = (
          omega (arith, at),
          ap (λ b. b.size) rest ∙ omega (arith, size),
          subst (λ (b : Block). Chain h'.blocks b.next fs) (sym rest) chain,
        );
        block = ap h'.blocks (sym at) ∙ k.block;
        first = k.first;
        behind = k.behind;
        kept = λ x m ne.
            k.others x (λ e. omega (arith, e, m, at, l)) ne (λ e. omega (arith, e, m, at, l));
        free = k.free;
        allocated = k.allocated;
      },
      record {
        sparse = (omega (arith, l), omega (arith, room), omega (arith, end, fits), s');
        covers_both = λ x. ground (arith, end, room);
        apart = (inr (omega arith), Sparse-Apart f.0 bs (f.0 + f.1) fs (omega (arith, room)) s);
        enough = omega arith;
        inside = (l, omega (arith, room, fits));
        bytes = omega (arith, room);
        headers = λ hs. (omega (arith, room), hs.1);
      },
    )
