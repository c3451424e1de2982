-- ===== src/Utils/Iovec/Examples.antt =====
-- The theorems on segments at two segments of four and six bytes.
use gloworm.Prelude.{ℕ, ◌+◌, ◌≡◌, refl, some, [], ◌∷◌, arith, if◌then◌else◌, ◌==◌}
use gloworm.Utils.Iovec.{
  Memory, Kvec, iovec_iter_init_kvec, memcpy_out_of_kvec, seek_cur, iovec_iter_seek,
}
use gloworm.Utils.Iovec.Copy.{memcpy_out_of_kvec_lem}
use gloworm.Utils.Iovec.Seek.{IsValid, iovec_iter_seek_lem}

abbrev memory : Memory
memory a = a

abbrev two_segs : ℕ → Kvec
two_segs i = if i == 0 then record { buf = 100; bytes = 4 } else record { buf = 200; bytes = 6 }

memcpy_out_of_kvec_lem_example :
    memcpy_out_of_kvec memory two_segs 2 1 5 ≡ some (101 ∷ 102 ∷ 103 ∷ 200 ∷ 201 ∷ [])
memcpy_out_of_kvec_lem_example = memcpy_out_of_kvec_lem memory two_segs 1 1 5 (omega arith)

at_start : IsValid (iovec_iter_init_kvec two_segs 2)
unfolding iovec_iter_init_kvec
at_start = record {
  over_segs = refl;
  whole = refl;
  start = refl;
  inside = omega arith;
  offset = omega arith;
}

iovec_iter_seek_lem_example :
    let (position, iter) = iovec_iter_seek (iovec_iter_init_kvec two_segs 2) 7 seek_cur in
    IsValid iter
    × (position ≡ 7)
    × (iter.seg_start + iter.seg_offset ≡ position)
    × (iter.segs ≡ two_segs)
    × (iter.length ≡ 10)
unfolding iovec_iter_init_kvec
iovec_iter_seek_lem_example =
    iovec_iter_seek_lem (iovec_iter_init_kvec two_segs 2) 7 seek_cur at_start
