-- ===== src/Mm/Map/Cuts.antt =====
-- src/kernel/mm/map.c: the range of addresses that is taken out of an address space.
use gloworm.Prelude.{ℕ, ◌&&◌, Option, none, some, List, [], ◌∷◌, ◌++◌, leb, ◌==◌, if◌then◌else◌}
use Prim.Native.Nat.{bit_or}
use gloworm.Utils.Queue.{Ptr}
use gloworm.Mm.Map.{
  add_word, sub_word, has, seg_fixed, Error, Segment, MemoryMap, Host, mmu_op_unmap, mmu_type_fixed,
  Result, enomem, mmu_error, memory_segment_free, make_ref,
}

-- What one step of the loop of `memory_map_unmap` makes of a segment: the pieces that stay, and the
-- addresses that the page table is to unmap.
pub record Cut (S : Type 0) : Type 0 where
  pub error : Option Error
  pub pieces : List Segment
  pub sub_start : ℕ
  pub sub_end : ℕ
  pub state : S

-- The loop of `memory_map_unmap` at its end.
pub record Unmapping (S : Type 0) : Type 0 where
  pub error : Option Error
  pub segments : List Segment
  pub state : S

module _ (host : Host) where
  open host use {
    State, kmalloc, kmfree, vfs_clone_fileptr, vfs_close, mmu_table_map, mmu_table_copy,
  }

  -- A segment that has been freed is still read, which gives what it held.
  unfoldable pub cut_segment : State → (start end : ℕ) → (cur : Segment) → Cut State
  unfolding memory_segment_free
  cut_segment st start end cur =
      let (st1, allocated) = kmalloc st in
      if leb start cur.start && leb cur.start end
      then (if leb start cur.end && leb cur.end end
          then record {
            error = none;
            pieces = [];
            sub_start = cur.start;
            sub_end = cur.end;
            state = memory_segment_free host st cur;
          }
          else record {
            error = none;
            pieces = record cur { start = end } ∷ [];
            sub_start = cur.start;
            sub_end = end;
            state = st;
          })
      else if leb start cur.end && leb cur.end end
      then record {
        error = none;
        pieces = record cur { end = start } ∷ [];
        sub_start = start;
        sub_end = cur.end;
        state = st;
      }
      else if leb cur.start start && leb start cur.end
      then (if allocated
          then record {
            error = none;
            pieces =
                record cur { end = start }
                ∷ record cur { start = end; offset = add_word cur.offset (sub_word end cur.start) }
                ∷ [];
            sub_start = start;
            sub_end = end;
            state = make_ref host st1 cur.file;
          }
          else record {
            error = some enomem;
            pieces = cur ∷ [];
            sub_start = 0;
            sub_end = 0;
            state = st1;
          })
      else record { error = none; pieces = cur ∷ []; sub_start = 0; sub_end = 0; state = st }

  -- The call that takes the addresses out of the page table.
  unfoldable pub unmap_pages :
      State → (root : Ptr) → (sub_start sub_end flags : ℕ) → State × Option ℕ
  unmap_pages st root sub_start sub_end flags =
      if sub_start == 0
      then (st, none)
      else mmu_table_map st root sub_start (sub_word sub_end sub_start)
          (bit_or mmu_op_unmap (if has flags seg_fixed then mmu_type_fixed else 0))

  unfoldable pub unmap_segments :
      State → (root : Ptr) → (start end : ℕ) → List Segment → Unmapping State
  unfolding cut_segment unmap_pages
  unmap_segments st root start end [] = record { error = none; segments = []; state = st }
  unmap_segments st root start end (cur ∷ next) =
      let cut = cut_segment st start end cur in
      let (st', failed) = unmap_pages cut.state root cut.sub_start cut.sub_end (cur.flags) in
      let rest = unmap_segments st' root start end next in
      elim cut.error [
        | some e ↦ record { error = some e; segments = cut.pieces ++ next; state = cut.state }
        | none ↦ elim failed [
          | some e ↦ record {
            error = some (mmu_error e);
            segments = cut.pieces ++ next;
            state = st';
          }
          | none ↦ record {
            error = rest.error;
            segments = cut.pieces ++ rest.segments;
            state = rest.state;
          }
        ]
      ]

  abbrev pub move_marker : (start end : ℕ) → (marker : ℕ) → ℕ
  move_marker start end marker = if leb start marker && leb marker end then start else marker

  unfoldable pub memory_map_unmap : MemoryMap → State → (start length : ℕ) → Result State
  unfolding unmap_segments
  memory_map_unmap m st start length =
      let end = add_word start length in
      let done = unmap_segments st m.root_table start end m.segments in
      let unmapped = record m { segments = done.segments } in
      elim done.error [
        | some e ↦ record { error = some e; memory_map = unmapped; state = done.state }
        | none ↦ record {
          error = none;
          memory_map = record unmapped {
            code_start = move_marker start end m.code_start;
            data_start = move_marker start end m.data_start;
            heap_start = move_marker start end m.heap_start;
          };
          state = done.state;
        }
      ]
