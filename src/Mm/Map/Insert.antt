-- ===== src/Mm/Map/Insert.antt =====
-- The order of the segments, and what `memory_map_mmap` adds to them.
use gloworm.Prelude.{
  ℕ, ◌+◌, ◌-◌, ◌<◌, ◌≤◌, ◌≡◌, ◌⊎◌, refl, ◌∙◌, Bool, true, false, not, ◌&&◌, ◌||◌, Option, none,
  some, List, [], ◌∷◌, inl, inr, ltb, leb, ◌==◌, if◌then◌else◌, Bool-cases, arith,
}
use gloworm.Utils.Queue.{Ptr}
use gloworm.Mm.Map.{
  Segment, MemoryMap, Host, add_word, within_memory_segment_start, within_memory_segment_end,
  memory_map_find,
}
use gloworm.Mm.Map.Segments.{
  fits_before, insert_after_fit, insert_segment, memory_map_adjust_markers, segment_ops,
  memory_map_mmap, mmu_flags,
}
use gloworm.Mm.Map.Unmap.{IsBelow, Obliging}
use Prim.Native.Nat.{bit_and}
use gloworm.Mm.Pages.{page_size}

-- The segments stand from the lowest to the highest, none below `low`, and none overlaps the next.
abbrev pub Ordered : (low : ℕ) → List Segment → Type 0
Ordered low [] = Unit
Ordered low (s ∷ segments) = (low ≤ s.start) × IsBelow s × Ordered s.end segments

-- A segment overlaps none of the list.
abbrev pub Disjoint : Segment → List Segment → Type 0
Disjoint new [] = Unit
Disjoint new (s ∷ segments) = (s.end ≤ new.start ⊎ new.end ≤ s.start) × Disjoint new segments

abbrev contains : Segment → ℕ → Bool
contains s a = within_memory_segment_start s a && within_memory_segment_end s a

follows :
    (new : Segment) (low : ℕ) (next : List Segment)
    → Ordered low next
    → fits_before new next ≡ true
    → Ordered new.end next
follows new low [] o e = tt
follows new low (n ∷ next) (l, b, o) e = (ground (arith, e), b, o)

blocked :
    (new : Segment) (low : ℕ) (cur : Segment) (next : List Segment)
    → IsBelow cur
    → (cur.end ≤ new.start ⊎ new.end ≤ cur.start)
    → Ordered new.end next
    → (not (within_memory_segment_end cur new.start) && fits_before new next) ≡ false
    → new.end ≤ cur.start
blocked new low cur [] b d o e = ground (arith, b.ends)
blocked new low cur (n ∷ next) b d (l, bn, o) e = ground (arith, b.ends)

-- The list with the segment in it, or none when it belongs before all of them.
abbrev Placed : (low : ℕ) → Segment → List Segment → Option (List Segment) → Type 0
Placed low new segments none = Ordered new.end segments
Placed low new segments (some l) =
    Ordered low l
    × ((a : ℕ)
        → memory_map_find l a ≡ (if contains new a then some new else memory_map_find segments a))

found_after :
    (new cur : Segment) (next : List Segment) (a : ℕ)
    → IsBelow new
    → IsBelow cur
    → (cur.end ≤ new.start ⊎ new.end ≤ cur.start)
    → memory_map_find (cur ∷ new ∷ next) a
      ≡ (if contains new a then some new else memory_map_find (cur ∷ next) a)
unfolding memory_map_find
found_after new cur next a bn b d = ground (arith, bn.ends, b.ends)

found_later :
    (new cur : Segment) (next l : List Segment) (a : ℕ)
    → IsBelow new
    → IsBelow cur
    → (cur.end ≤ new.start ⊎ new.end ≤ cur.start)
    → memory_map_find l a ≡ (if contains new a then some new else memory_map_find next a)
    → memory_map_find (cur ∷ l) a
      ≡ (if contains new a then some new else memory_map_find (cur ∷ next) a)
unfolding memory_map_find
found_later new cur next l a bn b d e = rw e (ground (arith, bn.ends, b.ends))

step-Placed :
    (low : ℕ) (new cur : Segment) (next : List Segment)
    → IsBelow new
    → Ordered low (cur ∷ next)
    → (cur.end ≤ new.start ⊎ new.end ≤ cur.start)
    → (not (within_memory_segment_end cur new.start) && fits_before new next) ≡ false
    → (r : Option (List Segment)) → Placed cur.end new next r
    → Placed low new (cur ∷ next) (elim r [ none ↦ none | some l ↦ some (cur ∷ l) ])
step-Placed low new cur next b (l, bc, o) d e none p = (blocked new low cur next bc d p e, bc, o)
step-Placed low new cur next b (l, bc, o) d e (some r) (p, f) =
    ((l, bc, p), λ a. found_later new cur next r a b bc d (f a))

insert_after_fit-Placed :
    (low : ℕ) (new : Segment) (segments : List Segment)
    → IsBelow new
    → Ordered low segments
    → Disjoint new segments
    → Placed low new segments (insert_after_fit new segments)
unfolding insert_after_fit
insert_after_fit-Placed low new [] b o d = tt
insert_after_fit-Placed low new (cur ∷ next) b (l, bc, o) (d, ds) =
    elim (Bool-cases (not (within_memory_segment_end cur new.start) && fits_before new next)) [
      | inl e ↦ rw e (
        (l, bc, (ground (arith, e, bc.ends), b, follows new cur.end next o (ground (arith, e)))),
        λ a. found_after new cur next a b bc d,
      )
      | inr e ↦ rw e (
          step-Placed low new cur next b (l, bc, o) d e _
            (insert_after_fit-Placed cur.end new next b o ds))
    ]

below :
    {A : Type 0} (x y : A) (start end a : ℕ)
    → 0 < end
    → (if leb start a && (end == 0 || ltb a end) then x else y)
      ≡ (if leb start a && ltb a end then x else y)
below x y start end a h = ground arith

at_head :
    (new : Segment) (segments : List Segment) (a : ℕ)
    → memory_map_find (new ∷ segments) a
      ≡ (if contains new a then some new else memory_map_find segments a)
unfolding memory_map_find
at_head new segments a = refl

-- A segment that overlaps none is put where the order has it, and is found at its addresses.
insert_segment-Placed :
    (new : Segment) (segments : List Segment)
    → IsBelow new
    → Ordered 0 segments
    → Disjoint new segments
    → Placed 0 new segments (some (insert_segment new segments))
unfolding insert_segment
insert_segment-Placed new segments b o d =
    placed (insert_after_fit new segments) (insert_after_fit-Placed 0 new segments b o d)
  where
    placed :
        (r : Option (List Segment))
        → Placed 0 new segments r
        → Placed 0 new segments (some (elim r [ some l ↦ l | none ↦ new ∷ segments ]))
    placed (some l) p = p
    placed none p = ((omega arith, b, p), λ a. at_head new segments a)

adjust_markers-segments :
    (m : MemoryMap) (segment : Segment)
    → (memory_map_adjust_markers m segment).segments ≡ m.segments
unfolding memory_map_adjust_markers
adjust_markers-segments m segment = ground arith

module _ (host : Host) where
  open host use {State, kmalloc}

  -- `memory_map_mmap` of a range of whole pages that starts at a page, ends below the end of the
  -- address space and overlaps no segment, with a host that never fails, on segments in their order:
  -- it succeeds, the segments are in their order again, an address of the range is found in the new
  -- segment, and each other address where it was.
  pub memory_map_mmap-Mapped :
      (given : Obliging host) (m : MemoryMap) (st : State) (start length flags : ℕ) (object : Ptr)
      (offset : ℕ)
      → Ordered 0 m.segments
      → bit_and start (page_size - 1) ≡ 0
      → bit_and length (page_size - 1) ≡ 0
      → 0 < start + length
      → start + length < 4294967296
      → let new : Segment = record {
        flags = flags;
        start = start;
        end = start + length;
        ops = segment_ops flags object;
        file = object;
        offset = offset;
      } in
        Disjoint new m.segments
        → let r = memory_map_mmap host m st start length flags object offset in
          (r.error ≡ none)
          × Ordered 0 r.memory_map.segments
          × ((a : ℕ)
              → memory_map_find r.memory_map.segments a ≡ (
                  if leb start a && ltb a (start + length)
                  then some new
                  else memory_map_find m.segments a))
  unfolding memory_map_mmap
  memory_map_mmap-Mapped given m st start length flags object offset o a1 a2 pos bound d =
      let new : Segment = record {
        flags = flags;
        start = start;
        end = start + length;
        ops = segment_ops flags object;
        file = object;
        offset = offset;
      } in
      let e : add_word start length ≡ start + length = omega arith in
      let no_wrap : (ltb 0 (start + length) && ltb (start + length) start) ≡ false = ground arith in
      let (o', found) =
        insert_segment-Placed new m.segments
          (record { ordered = omega arith; ends = pos; bounded = bound }) o d in
      rw
        (
          memory_map_mmap,
          e,
          a2,
          a1,
          no_wrap,
          given.allocates st,
          given.maps (kmalloc st).0 m.root_table start length (mmu_flags flags),
          adjust_markers-segments,
          e,
        )
        (refl, o', λ a. found a ∙ below _ _ start (start + length) a pos)
