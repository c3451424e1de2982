-- ===== src/Utils/Iovec.antt =====
-- include/kernel/utils/iovec.h and src/kernel/utils/iovec.c: a position in a sequence of buffers, and copies from and to
-- it. Memory is a function from addresses to bytes. A `size_t` and an `offset_t` are 32-bit words,
-- whose wrap-around is written where the position of a seek is computed.
pub mod Content
pub mod Copy
pub mod Seek
mod Examples
use gloworm.Prelude.{
  ℕ, zero, suc, ◌+◌, ◌-◌, ◌*◌, ◌%◌, ◌^◌, Bool, true, false, not, ◌&&◌, Option, none, some, List, [],
  ◌∷◌, ◌++◌, ltb, leb, ◌==◌, if◌then◌else◌, update, length, take, drop,
}
use gloworm.Utils.Queue.{Ptr}

abbrev pub Memory : Type 0
Memory = Ptr → ℕ

-- `struct kvec`
pub record Kvec : Type 0 where
  pub buf : Ptr
  pub bytes : ℕ

-- `iovec_iter_type_t`
pub data IterType : Type 0 where
  iter_user_buf iter_kvec : IterType

-- `struct iovec_iter`; the union's members are the two last fields.
pub record IovecIter : Type 0 where
  pub kind : IterType
  pub length : ℕ
  pub seg_start : ℕ
  pub seg_offset : ℕ
  pub cur_seg : ℕ
  pub num_segs : ℕ
  pub user_buf : Ptr
  pub segs : ℕ → Kvec

-- `memcpy` from and to the memory.
abbrev pub read_bytes : Memory → Ptr → ℕ → List ℕ
read_bytes mem a zero = []
read_bytes mem a (suc n) = mem a ∷ read_bytes mem (a + 1) n

abbrev pub write_bytes : Memory → Ptr → List ℕ → Memory
write_bytes mem a [] = mem
write_bytes mem a (b ∷ bs) = write_bytes (update mem a b) (a + 1) bs

-- The size of the next chunk, for the bytes left to copy and those left in the segment.
abbrev pub chunk_size : (left room : ℕ) → ℕ
chunk_size left room = if ltb left room then left else room

-- A round of `memcpy_out_of_kvec` at an offset into the segment `cur`, with `left` bytes wanted; the
-- last argument is what the later rounds copy.
unfoldable pub out_round :
    Memory → (ℕ → Kvec) → (cur off left : ℕ) → Option (List ℕ) → Option (List ℕ)
out_round mem segs cur off left rest =
    let chunk = chunk_size left ((segs cur).bytes - off) in
    let copied = read_bytes mem ((segs cur).buf + off) chunk in
    if leb left chunk
    then some copied
    else elim rest [ none ↦ none | some bytes ↦ some (copied ++ bytes) ]

-- The loop of `memcpy_out_of_kvec` on fuel; none if it ran out.
unfoldable pub copy_out :
    ℕ → Memory → (ℕ → Kvec) → (num_segs cur seg_offset left : ℕ) → Option (List ℕ)
copy_out zero mem segs num cur off left = none
copy_out (suc fuel) mem segs num cur off left =
    let past = leb (segs cur).bytes off in
    let cur' = if past then cur + 1 else cur in
    let off' : ℕ = if past then 0 else off in
    let chunk = chunk_size left ((segs cur').bytes - off') in
    let rest = copy_out fuel mem segs num cur' (off' + chunk) (left - chunk) in
    if past && leb num (cur + 1) then some [] else out_round mem segs cur' off' left rest

-- `memcpy_out_of_kvec`: what stands at `dest` behind it, as many bytes as it returns.
unfoldable pub memcpy_out_of_kvec :
    Memory → (ℕ → Kvec) → (num_segs seg_offset nbytes : ℕ) → Option (List ℕ)
unfolding copy_out
memcpy_out_of_kvec mem segs num off nbytes = copy_out (num + 1) mem segs num 0 off nbytes

-- The loop of `memcpy_into_kvec` on fuel, for the bytes of `src` that are left: the number copied,
-- and the memory.
unfoldable pub copy_in :
    ℕ → Memory → (ℕ → Kvec) → (num_segs cur seg_offset : ℕ) → List ℕ → Option (ℕ × Memory)
copy_in zero mem segs num cur off src = none
copy_in (suc fuel) mem segs num cur off src =
    let past = leb (segs cur).bytes off in
    let cur' = if past then cur + 1 else cur in
    let off' : ℕ = if past then 0 else off in
    let chunk = chunk_size (length src) ((segs cur').bytes - off') in
    let mem' = write_bytes mem ((segs cur').buf + off') (take chunk src) in
    let rest = copy_in fuel mem' segs num cur' (off' + chunk) (drop chunk src) in
    if past && leb num (cur + 1)
    then some (0, mem)
    else if leb (length src) chunk
    then some (chunk, mem')
    else elim rest [ none ↦ none | some (count, mem'') ↦ some (chunk + count, mem'') ]

unfoldable pub memcpy_into_kvec :
    Memory → (ℕ → Kvec) → (num_segs seg_offset : ℕ) → (src : List ℕ) → Option (ℕ × Memory)
unfolding copy_in
memcpy_into_kvec mem segs num off src = copy_in (num + 1) mem segs num 0 off src

-- The loop of `iovec_iter_init_kvec`: the bytes in the first `n` segments.
abbrev pub total_bytes : (ℕ → Kvec) → ℕ → ℕ
total_bytes segs zero = 0
total_bytes segs (suc n) = total_bytes segs n + (segs n).bytes

unfoldable pub iovec_iter_init_kvec : (ℕ → Kvec) → (num_segs : ℕ) → IovecIter
iovec_iter_init_kvec segs num_segs = record {
  kind = iter_kvec;
  length = total_bytes segs num_segs % 2 ^ 32;
  seg_start = 0;
  seg_offset = 0;
  cur_seg = 0;
  num_segs = num_segs;
  user_buf = 0;
  segs = segs;
}

unfoldable pub iovec_iter_init_user_buf : Ptr → (nbytes : ℕ) → IovecIter
iovec_iter_init_user_buf buf nbytes = record {
  kind = iter_user_buf;
  length = nbytes;
  seg_start = 0;
  seg_offset = 0;
  cur_seg = 0;
  num_segs = 1;
  user_buf = buf;
  segs = λ _. record { buf = 0; bytes = 0 };
}

-- `iovec_iter_init_simple_kvec`
unfoldable pub iovec_iter_init_simple_kvec : Ptr → (nbytes : ℕ) → IovecIter
iovec_iter_init_simple_kvec buf nbytes = record {
  kind = iter_kvec;
  length = nbytes;
  seg_start = 0;
  seg_offset = 0;
  cur_seg = 0;
  num_segs = 1;
  user_buf = 0;
  segs = λ _. record { buf = buf; bytes = nbytes };
}

abbrev pub iovec_iter_remaining : IovecIter → ℕ
iovec_iter_remaining iter = iter.length - iter.seg_start - iter.seg_offset

-- The two loops of `iovec_iter_seek`, each with as many rounds as there are segments.
unfoldable pub advance : ℕ → IovecIter → (offset : ℕ) → IovecIter
advance zero iter offset = iter
advance (suc n) iter offset =
    let behind = iter.seg_start + (iter.segs iter.cur_seg).bytes in
    let rest = advance n (record iter { seg_start = behind; cur_seg = iter.cur_seg + 1 }) offset in
    if ltb (iter.cur_seg + 1) iter.num_segs && leb behind offset then rest else iter

unfoldable pub rewind : ℕ → IovecIter → (offset : ℕ) → IovecIter
rewind zero iter offset = iter
rewind (suc n) iter offset =
    let rest =
      rewind n
        (record iter {
          seg_start = iter.seg_start - (iter.segs (iter.cur_seg - 1)).bytes;
          cur_seg = iter.cur_seg - 1;
        })
        offset in
    if ltb 0 iter.cur_seg && ltb offset iter.seg_start then rest else iter

pub data Whence : Type 0 where
  seek_set seek_cur seek_end : Whence

-- The offset from the start that a seek asks for.
abbrev pub target : IovecIter → (offset : ℕ) → Whence → ℕ
target iter offset seek_set = offset
target iter offset seek_cur = (iter.seg_start + iter.seg_offset + offset) % 2 ^ 32
target iter offset seek_end = (iter.length + offset) % 2 ^ 32

-- `iovec_iter_seek` behind the computation of the offset.
unfoldable pub seek_to : IterType → IovecIter → ℕ → IovecIter
unfolding advance rewind
seek_to iter_kvec iter offset =
    let moved =
      if leb (iter.seg_start + iter.seg_offset) offset
      then advance iter.num_segs iter offset
      else rewind iter.num_segs iter offset in
    record moved { seg_offset = offset - moved.seg_start }
seek_to iter_user_buf iter offset = record iter { seg_offset = offset }

-- `iovec_iter_seek` for one of the three values of `whence`; it returns the position.
unfoldable pub iovec_iter_seek : IovecIter → (offset : ℕ) → Whence → ℕ × IovecIter
unfolding seek_to
iovec_iter_seek iter offset whence =
    let wanted = target iter offset whence in
    let offset' = if ltb iter.length wanted then iter.length else wanted in
    let iter' = seek_to iter.kind iter offset' in (iter'.seg_start + iter'.seg_offset, iter')
