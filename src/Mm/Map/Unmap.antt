-- ===== src/Mm/Map/Unmap.antt =====
-- What a process sees of its memory after `memory_map_unmap`.
use gloworm.Prelude.{
  ℕ, ◌+◌, ◌-◌, ◌<◌, ◌≤◌, ◌≡◌, refl, Bool, true, ◌&&◌, Option, none, some, List, [], ◌∷◌, ◌++◌, inl,
  inr, ltb, leb, ◌==◌, if◌then◌else◌, Bool-cases, leb→le, arith, ◌⊎◌,
}
use gloworm.Utils.Queue.{Ptr}
use gloworm.Mm.Map.{
  Segment, MemoryMap, MemoryOps, Host, add_word, sub_word, within_memory_segment_start,
  within_memory_segment_end, memory_map_find,
}
use gloworm.Mm.Map.Cuts.{cut_segment, unmap_pages, unmap_segments, memory_map_unmap}

-- What stands behind an address: the flags of its segment, what loads its pages, and its place in
-- the file.
pub record Backing : Type 0 where
  pub flags : ℕ
  pub ops : MemoryOps
  pub file : Ptr
  pub position : ℕ

-- An address of a segment whose offset belongs to the address `from`.
abbrev pub backing : Segment → (from a : ℕ) → Backing
backing s from a = record {
  flags = s.flags;
  ops = s.ops;
  file = s.file;
  position = add_word s.offset (a - from);
}

abbrev pub behind : (Segment → ℕ) → Option Segment → (a : ℕ) → Option Backing
behind from none a = none
behind from (some s) a = some (backing s (from s) a)

-- The address that the offset of a segment belongs to: where it starts, and the end of the range
-- for a segment that starts in the range.
abbrev pub offset_at : (start end : ℕ) → Segment → ℕ
offset_at start end s = if leb start s.start && ltb s.start end then end else s.start

-- A segment below the end of the address space.
pub record IsBelow (s : Segment) : Type 0 where
  pub ordered : s.start ≤ s.end
  pub ends : 0 < s.end
  pub bounded : s.end < 4294967296

abbrev pub AllBelow : List Segment → Type 0
AllBelow [] = Unit
AllBelow (s ∷ segments) = IsBelow s × AllBelow segments

abbrev contains : Segment → ℕ → Bool
contains s a = within_memory_segment_start s a && within_memory_segment_end s a

pub find-∷ :
    (from : Segment → ℕ) (s : Segment) (segments : List Segment) (a : ℕ)
    → behind from (memory_map_find (s ∷ segments) a) a ≡ (
        if contains s a
        then some (backing s (from s) a)
        else behind from (memory_map_find segments a) a)
unfolding memory_map_find
find-∷ from s segments a = elim (Bool-cases (contains s a)) [
  | inl e ↦ rw e refl
  | inr e ↦ rw e refl
]

-- The cases of a step, for what stands behind an address, `r` where no piece holds it.
head_cut :
    (start end : ℕ) (cur : Segment) (a : ℕ) (r : Option Backing)
    → IsBelow cur
    → start ≤ cur.start
    → cur.start ≤ end
    → end < cur.end
    → (if contains (record cur { start = end }) a then some (backing cur end a) else r) ≡ (
        if leb start a && ltb a end
        then r
        else if contains cur a
        then some (backing cur (offset_at start end cur) a)
        else r)
head_cut start end cur a r v h1 h2 h3 = ground (arith, v.ordered, v.ends)

tail_cut :
    (start end : ℕ) (cur : Segment) (a : ℕ) (r : Option Backing)
    → IsBelow cur
    → cur.start < start
    → start ≤ cur.end
    → cur.end ≤ end
    → (if contains (record cur { end = start }) a then some (backing cur cur.start a) else r) ≡ (
        if leb start a && ltb a end
        then r
        else if contains cur a
        then some (backing cur (offset_at start end cur) a)
        else r)
tail_cut start end cur a r v h1 h2 h3 = ground (arith, v.ordered, v.ends)

whole_cut :
    (start end : ℕ) (cur : Segment) (a : ℕ) (r : Option Backing)
    → IsBelow cur
    → start ≤ cur.start
    → cur.end ≤ end
    → r ≡ (
        if leb start a && ltb a end
        then r
        else if contains cur a
        then some (backing cur (offset_at start end cur) a)
        else r)
whole_cut start end cur a r v h1 h2 = ground (arith, v.ordered, v.ends)

apart :
    (start end : ℕ) (cur : Segment) (a : ℕ) (r : Option Backing)
    → IsBelow cur
    → start ≤ end
    → cur.end < start ⊎ end < cur.start
    → (if contains cur a then some (backing cur cur.start a) else r) ≡ (
        if leb start a && ltb a end
        then r
        else if contains cur a
        then some (backing cur (offset_at start end cur) a)
        else r)
apart start end cur a r v h1 h2 = ground (arith, v.ordered, v.ends)

-- The second piece of a segment that is split carries its offset on.
split_offset :
    (start end a offset : ℕ)
    → start < end
    → end ≤ a
    → end < 4294967296
    → add_word (add_word offset (sub_word end start)) (a - end) ≡ add_word offset (a - start)
split_offset start end a offset h1 h2 h3 = omega arith

split_in_two :
    (start end : ℕ) (cur : Segment) (a : ℕ) (r : Option Backing)
    → IsBelow cur
    → start ≤ end
    → end < 4294967296
    → cur.start < start
    → end < cur.end
    → (if contains (record cur { end = start }) a
        then some (backing cur cur.start a)
        else if contains (record cur { start = end }) a
        then some (
            backing
              (record cur { start = end; offset = add_word cur.offset (sub_word end cur.start) })
              end
              a)
        else r)
      ≡ (if leb start a && ltb a end
          then r
          else if contains cur a
          then some (backing cur (offset_at start end cur) a)
          else r)
split_in_two start end cur a r v h1 h2 h3 h4 = elim (Bool-cases (leb end a)) [
  | inl e ↦
      rw (split_offset cur.start end a cur.offset (omega arith) (leb→le end a e) h2)
        (ground (arith, v.ordered, v.ends))
  | inr e ↦ ground (arith, v.ordered, v.ends, e)
]

module _ (host : Host) where
  open host use {State, kmalloc, mmu_table_map}

  abbrev now : List Segment → (a : ℕ) → Option Backing
  now segments a = behind (λ s. s.start) (memory_map_find segments a) a

  -- There is memory for every segment, and the page table takes every change.
  pub record Obliging : Type 0 where
    pub allocates : (st : State) → (kmalloc st).1 ≡ true
    pub maps :
        (st : State) (root : Ptr) (start length flags : ℕ)
        → (mmu_table_map st root start length flags).1 ≡ none

  cut_segment-now :
      (given : Obliging) (st : State) (start end : ℕ) (cur : Segment) (rest : List Segment) (a : ℕ)
      → IsBelow cur
      → start ≤ end
      → end < 4294967296
      → now ((cut_segment host st start end cur).pieces ++ rest) a ≡ (
          if leb start a && ltb a end
          then now rest a
          else if contains cur a
          then some (backing cur (offset_at start end cur) a)
          else now rest a)
  unfolding cut_segment
  cut_segment-now given st start end cur rest a v l bound =
      elim (Bool-cases (leb start cur.start && leb cur.start end)) [
        | inl e1 ↦ elim (Bool-cases (leb start cur.end && leb cur.end end)) [
          | inl e2 ↦
              rw (e1, e2)
                (whole_cut start end cur a (now rest a) v (ground (arith, e1)) (ground (arith, e2)))
          | inr e2 ↦
              rw (e1, e2, find-∷ (λ s. s.start) (record cur { start = end }) rest a)
                (head_cut start end cur a (now rest a) v (ground (arith, e1)) (ground (arith, e1))
                  (ground (arith, e1, e2, v.ordered)))
        ]
        | inr e1 ↦ elim (Bool-cases (leb start cur.end && leb cur.end end)) [
          | inl e2 ↦
              rw (e1, e2, find-∷ (λ s. s.start) (record cur { end = start }) rest a)
                (tail_cut start end cur a (now rest a) v (ground (arith, e1, e2, v.ordered))
                  (ground (arith, e2)) (ground (arith, e2)))
          | inr e2 ↦ elim (Bool-cases (leb cur.start start && leb start cur.end)) [
            | inr e3 ↦
                rw (e1, e2, e3, find-∷ (λ s. s.start) cur rest a)
                  (apart start end cur a (now rest a) v l (ground (arith, e1, e2, e3, v.ordered)))
            | inl e3 ↦
                rw
                  (
                    e1,
                    e2,
                    e3,
                    given.allocates st,
                    find-∷ (λ s. s.start) (record cur { end = start })
                        (record cur {
                          start = end;
                          offset = add_word cur.offset (sub_word end cur.start);
                        }
                          ∷ rest)
                        a,
                    find-∷ (λ s. s.start)
                        (record cur {
                          start = end;
                          offset = add_word cur.offset (sub_word end cur.start);
                        })
                        rest a,
                  )
                  (split_in_two start end cur a (now rest a) v l bound (ground (arith, e1, e3, l))
                    (ground (arith, e1, e2, e3, v.ordered)))
          ]
        ]
      ]

  cut_segment-fits :
      (given : Obliging) (st : State) (start end : ℕ) (cur : Segment)
      → (cut_segment host st start end cur).error ≡ none
  unfolding cut_segment
  cut_segment-fits given st start end cur = ground (arith, given.allocates st)

  unmap_pages-fits :
      (given : Obliging) (st : State) (root : Ptr) (sub_start sub_end flags : ℕ)
      → (unmap_pages host st root sub_start sub_end flags).1 ≡ none
  unfolding unmap_pages
  unmap_pages-fits given st root sub_start sub_end flags = elim (Bool-cases (sub_start == 0)) [
    | inl e ↦ rw e refl
    | inr e ↦ rw e (given.maps st root sub_start (sub_word sub_end sub_start) _)
  ]

  -- What stands behind an address when the range has been taken out.
  abbrev pub cut_out : (start end : ℕ) → List Segment → (a : ℕ) → Option Backing
  cut_out start end segments a =
      if leb start a && ltb a end
      then none
      else behind (offset_at start end) (memory_map_find segments a) a

  -- The state that the step at a segment leaves.
  abbrev past : State → (root : Ptr) → (start end : ℕ) → Segment → State
  past st root start end cur =
      let cut = cut_segment host st start end cur in
      (unmap_pages host cut.state root cut.sub_start cut.sub_end (cur.flags)).0

  unmap_segments-∷ :
      (given : Obliging) (st : State) (root : Ptr) (start end : ℕ) (cur : Segment)
      (next : List Segment)
      → let cut = cut_segment host st start end cur in
        let rest = unmap_segments host (past st root start end cur) root start end next in
        unmap_segments host st root start end (cur ∷ next)
        ≡ record { error = rest.error; segments = cut.pieces ++ rest.segments; state = rest.state }
  unfolding unmap_segments
  unmap_segments-∷ given st root start end cur next =
      let cut = cut_segment host st start end cur in
      rw
        (
          unmap_segments,
          cut_segment-fits given st start end cur,
          unmap_pages-fits given cut.state root cut.sub_start cut.sub_end (cur.flags),
        )
        refl

  unmap_segments-cut_out :
      (given : Obliging) (st : State) (root : Ptr) (start end : ℕ) (segments : List Segment) (a : ℕ)
      → AllBelow segments
      → start ≤ end
      → end < 4294967296
      → ((unmap_segments host st root start end segments).error ≡ none)
        × (now (unmap_segments host st root start end segments).segments a
            ≡ cut_out start end segments a)
  unfolding unmap_segments memory_map_find
  unmap_segments-cut_out given st root start end [] a v l bound = (refl, ground arith)
  unmap_segments-cut_out given st root start end (cur ∷ next) a (v, vs) l bound =
      let rest = unmap_segments host (past st root start end cur) root start end next in
      let (fine, kept) =
        unmap_segments-cut_out given (past st root start end cur) root start end next a vs l
          bound in
      rw
        (
          unmap_segments-∷ given st root start end cur next,
          cut_segment-now given st start end cur rest.segments a v l bound,
          kept,
          find-∷ (offset_at start end) cur next a,
        )
        (fine, ground arith)

  -- `memory_map_unmap` of a range below the end of the address space, of segments below it, with a
  -- host that never fails: it succeeds, nothing stands behind an address of the range, and each
  -- other address has the flags, the way to load its page and the file of its segment as before, and
  -- its place in the file, but where its segment starts in the range: the offset of that segment
  -- now belongs to the end of the range.
  pub memory_map_unmap-cut_out :
      (given : Obliging) (m : MemoryMap) (st : State) (start length a : ℕ)
      → AllBelow m.segments
      → start + length < 4294967296
      → let r = memory_map_unmap host m st start length in
        (r.error ≡ none)
        × (behind (λ s. s.start) (memory_map_find r.memory_map.segments a) a
            ≡ cut_out start (start + length) m.segments a)
  unfolding memory_map_unmap
  memory_map_unmap-cut_out given m st start length a v bound =
      let e : add_word start length ≡ start + length = omega arith in
      let (fine, kept) =
        unmap_segments-cut_out given st m.root_table start (start + length) m.segments a v
          (omega arith) bound in
      rw (memory_map_unmap, e, fine, e) (refl, kept)
