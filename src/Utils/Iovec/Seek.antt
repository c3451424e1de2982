-- ===== src/Utils/Iovec/Seek.antt =====
-- Where `iovec_iter_seek` lands.
use gloworm.Prelude.{
  ℕ, zero, suc, ◌+◌, ◌-◌, ◌<◌, ◌≤◌, ◌≡◌, inl, inr, refl, sym, ap, subst, ◌∙◌, ◌&&◌, arith, ltb, leb,
  if◌then◌else◌, Bool-cases, min,
}
use gloworm.Utils.Iovec.{
  Kvec, iter_kvec, IovecIter, total_bytes, advance, rewind, Whence, target, seek_to,
  iovec_iter_seek,
}

-- An iterator over segments that stands in one of them, or at its end.
pub record IsValid (iter : IovecIter) : Type 0 where
  pub over_segs : iter.kind ≡ iter_kvec
  pub whole : iter.length ≡ total_bytes iter.segs iter.num_segs
  pub start : iter.seg_start ≡ total_bytes iter.segs iter.cur_seg
  pub inside : iter.cur_seg < iter.num_segs
  pub offset : iter.seg_offset ≤ (iter.segs iter.cur_seg).bytes

-- The iterator `it` stands in the segment of `iter` that holds the offset.
record Landed (iter it : IovecIter) (offset : ℕ) : Type 0 where
  segs : it.segs ≡ iter.segs
  num : it.num_segs ≡ iter.num_segs
  len : it.length ≡ iter.length
  kind : it.kind ≡ iter.kind
  start : it.seg_start ≡ total_bytes iter.segs it.cur_seg
  inside : it.cur_seg < iter.num_segs
  low : it.seg_start ≤ offset
  high : offset ≤ it.seg_start + (iter.segs it.cur_seg).bytes

total_at : (segs : ℕ → Kvec) (a b : ℕ) → a ≡ b → total_bytes segs a ≡ total_bytes segs b
total_at segs a b e = ap (λ n. total_bytes segs n) e

total_pred :
    (segs : ℕ → Kvec) (c : ℕ)
    → 0 < c
    → total_bytes segs c ≡ total_bytes segs (c - 1) + (segs (c - 1)).bytes
total_pred segs zero h = ground (arith, h)
total_pred segs (suc c) h = ap (λ d. total_bytes segs d + (segs d).bytes) (omega arith)

-- The iterator one segment further, and one back.
abbrev passed : IovecIter → IovecIter
passed iter = record iter {
  seg_start = iter.seg_start + (iter.segs iter.cur_seg).bytes;
  cur_seg = iter.cur_seg + 1;
}

abbrev back : IovecIter → IovecIter
back iter = record iter {
  seg_start = iter.seg_start - (iter.segs (iter.cur_seg - 1)).bytes;
  cur_seg = iter.cur_seg - 1;
}

-- Where an iterator lands does not depend on where it starts.
Landed-move :
    {iter it : IovecIter} {offset start cur : ℕ}
    → Landed (record iter { seg_start = start; cur_seg = cur }) it offset
    → Landed iter it offset
Landed-move l = record {
  segs = l.segs;
  num = l.num;
  len = l.len;
  kind = l.kind;
  start = l.start;
  inside = l.inside;
  low = l.low;
  high = l.high;
}

advance-Landed :
    (n : ℕ) (iter : IovecIter) (offset : ℕ)
    → iter.seg_start ≡ total_bytes iter.segs iter.cur_seg
    → iter.cur_seg < iter.num_segs
    → iter.num_segs ≤ iter.cur_seg + n
    → iter.seg_start ≤ offset
    → offset ≤ total_bytes iter.segs iter.num_segs
    → Landed iter (advance n iter offset) offset
unfolding advance
advance-Landed zero iter offset start inside fuel low total = ground (arith, inside, fuel)
advance-Landed (suc n) iter offset start inside fuel low total =
    let behind = iter.seg_start + (iter.segs iter.cur_seg).bytes in
    elim (Bool-cases (ltb (iter.cur_seg + 1) iter.num_segs && leb behind offset)) [
      | inl a ↦ rw a (
          Landed-move {iter = iter} (
            advance-Landed n (passed iter) offset
              (ap (λ t. t + (iter.segs iter.cur_seg).bytes) start
                ∙ total_at iter.segs (suc iter.cur_seg) (iter.cur_seg + 1) (omega arith))
              (ground (arith, a)) (ground (arith, fuel)) (ground (arith, a)) total))
      | inr a ↦ rw a (record {
        segs = refl;
        num = refl;
        len = refl;
        kind = refl;
        start = start;
        inside = inside;
        low = low;
        high = elim (Bool-cases (leb behind offset)) [
          | inr b ↦ ground (arith, b)
          | inl b ↦ omega (
            arith,
            total_at iter.segs iter.num_segs (suc iter.cur_seg) (ground (arith, a, b, inside)),
            start,
            total,
          )
        ];
      })
    ]

rewind-Landed :
    (n : ℕ) (iter : IovecIter) (offset : ℕ)
    → iter.seg_start ≡ total_bytes iter.segs iter.cur_seg
    → iter.cur_seg < iter.num_segs
    → iter.cur_seg ≤ n
    → offset ≤ iter.seg_start + (iter.segs iter.cur_seg).bytes
    → Landed iter (rewind n iter offset) offset
unfolding rewind
rewind-Landed zero iter offset start inside fuel high =
    let e : iter.seg_start ≡ 0 = start ∙ total_at iter.segs iter.cur_seg 0 (omega (arith, fuel)) in
    record {
      segs = refl;
      num = refl;
      len = refl;
      kind = refl;
      start = start;
      inside = inside;
      low = omega (arith, e);
      high = high;
    }
rewind-Landed (suc n) iter offset start inside fuel high =
    elim (Bool-cases (ltb 0 iter.cur_seg && ltb offset iter.seg_start)) [
      | inl a ↦
          let pred = total_pred iter.segs iter.cur_seg (ground (arith, a)) in
          rw a (
            Landed-move {iter = iter} (
              rewind-Landed n (back iter) offset (ground (arith, start, pred))
                (ground (arith, inside)) (ground (arith, fuel)) (ground (arith, a, start, pred))))
      | inr a ↦ rw a (record {
        segs = refl;
        num = refl;
        len = refl;
        kind = refl;
        start = start;
        inside = inside;
        low = elim (Bool-cases (ltb offset iter.seg_start)) [
          | inr b ↦ ground (arith, b)
          | inl b ↦ omega (arith, start, total_at iter.segs iter.cur_seg 0 (ground (arith, a, b)))
        ];
        high = high;
      })
    ]

placed :
    {iter it : IovecIter} {offset : ℕ}
    → IsValid iter
    → Landed iter it offset
    → let it' = record it { seg_offset = offset - it.seg_start } in
      IsValid it'
      × (it'.seg_start + it'.seg_offset ≡ offset)
      × (it'.segs ≡ iter.segs)
      × (it'.length ≡ iter.length)
placed v l = (
  record {
    over_segs = l.kind ∙ v.over_segs;
    whole = rw (l.len, l.segs, l.num) v.whole;
    start = rw l.segs l.start;
    inside = rw l.num l.inside;
    offset = rw l.segs (ground (arith, l.high));
  },
  ground (arith, l.low),
  l.segs,
  l.len,
)

seek_to_lem :
    (iter : IovecIter) (offset : ℕ)
    → IsValid iter
    → offset ≤ iter.length
    → let it = seek_to iter_kvec iter offset in
      IsValid it
      × (it.seg_start + it.seg_offset ≡ offset)
      × (it.segs ≡ iter.segs)
      × (it.length ≡ iter.length)
unfolding seek_to
seek_to_lem iter offset v bound =
    let total = subst (λ t. offset ≤ t) v.whole bound in
    elim (Bool-cases (leb (iter.seg_start + iter.seg_offset) offset)) [
      | inl a ↦ rw a (
          placed v (
            advance-Landed iter.num_segs iter offset v.start v.inside (omega arith)
              (ground (arith, a)) total))
      | inr a ↦ rw a (
          placed v (
            rewind-Landed iter.num_segs iter offset v.start v.inside (ground (arith, v.inside))
              (ground (arith, a, v.offset))))
    ]

least : (a b : ℕ) → (if ltb b a then b else a) ≡ min a b
least a b = ground arith

-- A seek of a valid iterator over segments lands at the offset that it asks for, taken as a 32-bit
-- word, or at the end if that is less. It returns this position, the iterator stands in its
-- segment, and the segments and the length are the same.
pub iovec_iter_seek_lem :
    (iter : IovecIter) (offset : ℕ) (whence : Whence)
    → IsValid iter
    → let (position, iter') = iovec_iter_seek iter offset whence in
      IsValid iter'
      × (position ≡ min (target iter offset whence) iter.length)
      × (iter'.seg_start + iter'.seg_offset ≡ position)
      × (iter'.segs ≡ iter.segs)
      × (iter'.length ≡ iter.length)
unfolding iovec_iter_seek
iovec_iter_seek_lem iter offset whence v =
    let wanted = target iter offset whence in
    let offset' = if ltb iter.length wanted then iter.length else wanted in
    let (valid, at, segs, len) = seek_to_lem iter offset' v (ground arith) in
    subst
      (λ kind.
        let it = seek_to kind iter offset' in
        IsValid it
        × (it.seg_start + it.seg_offset ≡ min wanted iter.length)
        × (it.seg_start + it.seg_offset ≡ it.seg_start + it.seg_offset)
        × (it.segs ≡ iter.segs)
        × (it.length ≡ iter.length))
      (sym v.over_segs) (valid, at ∙ least wanted iter.length, refl, segs, len)
