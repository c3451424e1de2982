-- ===== src/Mm/Heap/Splice.antt =====
-- The cases in which the loop of `kmfree` ends.
use gloworm.Prelude.{
  ℕ, ◌+◌, ◌^◌, ◌<◌, ◌≤◌, ◌≡◌, ◌≢◌, refl, sym, ap, ◌∙◌, subst, List, [], ◌∷◌, ◌==◌, if◌then◌else◌,
  arith,
}
use gloworm.Utils.Queue.{Ptr, null}
use gloworm.Mm.Heap.{Heap, add32, write_size, absorb_next}
use gloworm.Mm.Heap.Link.{Chain-kept, update_here, update_there, absorb_next-Chain, Linked}
use gloworm.Mm.Heap.List.{Chain, Sparse, Apart, join}

-- Where the loop stands: the blocks `fs` are left, behind `low`.
pub record Place (h : Heap) (b n prev cur low : ℕ) (fs : List (ℕ × ℕ)) : Type 0 where
  pub chain : Chain h.blocks cur fs
  pub sparse : Sparse low fs
  pub apart : Apart b n fs
  pub ahead : low < b
  pub past : prev ≤ low
  pub some_bytes : 0 < n
  pub fits : b + n < 2 ^ 32
  pub size : (h.blocks b).size ≡ n
  pub first : prev ≡ null → h.free_blocks ≡ cur
  pub behind : prev ≢ null → (h.blocks prev).next ≡ cur

-- What the rest of the loop does to the heap: the blocks `out` are linked instead.
pub record Spliced (h h' : Heap) (b prev low : ℕ) (out : List (ℕ × ℕ)) : Type 0 where
  pub entry : Ptr
  pub chain : Chain h'.blocks entry out
  pub first : h'.free_blocks ≡ (if prev == null then entry else h.free_blocks)
  pub behind : prev ≢ null → h'.blocks prev ≡ record { size = (h.blocks prev).size; next = entry }
  pub kept : (x : Ptr) → x ≤ low → x < b → x ≢ prev → h'.blocks x ≡ h.blocks x
  pub free : h'.bytes_free ≡ h.bytes_free
  pub allocated : h'.bytes_allocated ≡ h.bytes_allocated

pub last-Spliced :
    (h h' : Heap) (b n prev cur low : ℕ)
    → Place h b n prev cur low []
    → Linked h h' b prev null
    → Spliced h h' b prev low ((b, n) ∷ [])
last-Spliced h h' b n prev cur low p k = record {
  entry = b;
  chain = (refl, ap (λ b. b.size) k.block ∙ p.size, ap (λ b. b.next) k.block);
  first = k.first;
  behind = k.behind;
  kept = λ x l l' ne. k.others x (λ e. omega (arith, e, l')) ne;
  free = k.free;
  allocated = k.allocated;
}

pub before-Spliced :
    (h h1 : Heap) (b n prev cur low : ℕ) (f : ℕ × ℕ) (fs : List (ℕ × ℕ))
    → Place h b n prev cur low (f ∷ fs)
    → Linked h h1 b prev cur
    → b ≤ f.0
    → Spliced h (absorb_next h1 b) b prev low (join b n (f ∷ fs))
before-Spliced h h1 b n prev cur low f fs p k l =
    let (_, q, fits, s) = p.sparse in
    let sparse : Sparse b (f ∷ fs) = (ground (arith, p.apart.0, p.some_bytes, l, q), q, fits, s) in
    let rest : Chain h1.blocks cur (f ∷ fs) =
      Chain-kept h.blocks h1.blocks b cur (f ∷ fs)
        (λ x m. k.others x (λ e. omega (arith, e, m)) (λ e. omega (arith, e, m, p.past, p.ahead)))
        sparse p.chain in
    let (chain, kept) =
      absorb_next-Chain h1 b n (f ∷ fs) (omega (arith, p.ahead)) p.some_bytes p.fits sparse (
        refl,
        ap (λ b. b.size) k.block ∙ p.size,
        subst (λ c. Chain h1.blocks c.next (f ∷ fs)) (sym k.block) rest,
      ) in
    record {
      entry = b;
      chain = chain;
      first = kept.first ∙ k.first;
      behind = λ ne. kept.blocks prev (λ e. omega (arith, e, p.past, p.ahead)) ∙ k.behind ne;
      kept = λ x m m' ne.
          kept.blocks x (λ e. omega (arith, e, m')) ∙ k.others x (λ e. omega (arith, e, m')) ne;
      free = kept.free ∙ k.free;
      allocated = kept.allocated ∙ k.allocated;
    }

-- The block before the loop's is where it was.
pub previous :
    (h h' : Heap) (b n prev cur low entry : ℕ) (fs : List (ℕ × ℕ))
    → Place h b n prev cur low fs
    → cur ≡ entry
    → h'.blocks prev ≡ h.blocks prev
    → prev ≢ null
    → h'.blocks prev ≡ record { size = (h.blocks prev).size; next = entry }
previous h h' b n prev cur low entry fs p at same ne =
    same ∙ ap (λ q. record { size = (h.blocks prev).size; next = q }) (p.behind ne ∙ at)

pub still_first :
    (h h' : Heap) (b n prev cur low entry : ℕ) (fs : List (ℕ × ℕ))
    → Place h b n prev cur low fs
    → cur ≡ entry
    → h'.free_blocks ≡ h.free_blocks
    → h'.free_blocks ≡ (if prev == null then entry else h.free_blocks)
still_first h h' b n prev cur low entry fs p at same = ground (arith, at, same, p.first)

pub lower-Sparse : (low low' : ℕ) (fs : List (ℕ × ℕ)) → low' ≤ low → Sparse low fs → Sparse low' fs
lower-Sparse low low' [] l s = tt
lower-Sparse low low' (f ∷ fs) l (m, q, fits, s) = (omega (arith, l, m), q, fits, s)

pub touching-Spliced :
    (h : Heap) (b n prev cur low : ℕ) (f : ℕ × ℕ) (fs : List (ℕ × ℕ))
    → Place h b n prev cur low (f ∷ fs)
    → f.0 + f.1 ≡ b
    → Spliced h
        (absorb_next (write_size h cur (add32 (h.blocks cur).size (h.blocks b).size)) cur)
        b
        prev
        low
        (join f.0 (f.1 + n) fs)
touching-Spliced h b n prev cur low f fs p t =
    let (l, q, fits, s) = p.sparse in
    let (at, size, c) = p.chain in
    let total = add32 (h.blocks cur).size (h.blocks b).size in
    let h1 = write_size h cur total in
    let m : ℕ = f.1 + n in
    let here : h1.blocks cur ≡ record { size = total; next = (h.blocks cur).next } =
      update_here h.blocks cur _ in
    let other : (x : Ptr) → x ≢ cur → h1.blocks x ≡ h.blocks x =
      λ x e. update_there h.blocks cur x _ e in
    let rest : Chain h1.blocks (h.blocks cur).next fs =
      Chain-kept h.blocks h1.blocks (f.0 + f.1) (h.blocks cur).next fs
        (λ x k. other x (λ e. omega (arith, e, k, at))) s c in
    let (chain, kept) =
      absorb_next-Chain h1 cur m fs (omega (arith, at, l)) (omega (arith, q))
        (omega (arith, at, t, p.fits)) (lower-Sparse (f.0 + f.1) cur fs (omega (arith, at)) s)
        (
          refl,
          ap (λ b. b.size) here ∙ omega (arith, size, p.size, fits, t, p.fits),
          subst (λ b. Chain h1.blocks b.next fs) (sym here) rest,
        ) in
    let same : (x : Ptr) → x ≢ cur → (absorb_next h1 cur).blocks x ≡ h.blocks x =
      λ x e. kept.blocks x e ∙ other x e in
    record {
      entry = cur;
      chain = subst (λ a. Chain (absorb_next h1 cur).blocks cur (join a m fs)) at chain;
      first = still_first h (absorb_next h1 cur) b n prev cur low cur (f ∷ fs) p refl kept.first;
      behind = λ ne.
          previous h (absorb_next h1 cur) b n prev cur low cur (f ∷ fs) p refl
            (same prev (λ e. omega (arith, e, p.past, l, at))) ne;
      kept = λ x k k' ne. same x (λ e. omega (arith, e, k, l, at));
      free = kept.free;
      allocated = kept.allocated;
    }
