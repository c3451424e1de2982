-- ===== src/Utils/Iovec/Copy.antt =====
-- What the copies from and to segments move.
use gloworm.Prelude.{
  ℕ, zero, suc, ◌+◌, ◌-◌, ◌<◌, ◌≤◌, ◌≡◌, inl, inr, refl, sym, ap, ap₂, ◌∙◌, true, false, Option,
  some, List, [], ◌++◌, arith, length, take, drop, min, leb, if◌then◌else◌, Bool-cases,
}
use mathlib.Core.List.{append-nil}
use gloworm.Utils.Iovec.{
  Memory, Kvec, read_bytes, chunk_size, out_round, copy_out, memcpy_out_of_kvec,
}
use gloworm.Utils.Iovec.Content.{
  content, take-append, drop-append, length-read_bytes, take-read_bytes, drop-read_bytes,
}

-- What is left of the segments from an offset into the first of them.
abbrev left_from : Memory → (ℕ → Kvec) → (cur k off : ℕ) → List ℕ
left_from mem segs cur k off = drop off (content mem segs cur k)

-- The first segment's share of a copy, and the rest.
split_first :
    (mem : Memory) (segs : ℕ → Kvec) (cur k off n : ℕ)
    → off ≤ (segs cur).bytes
    → let room = (segs cur).bytes - off in
      take n (left_from mem segs cur (suc k) off)
      ≡ read_bytes mem ((segs cur).buf + off) (min n room)
        ++ take (n - room) (content mem segs (cur + 1) k)
split_first mem segs cur k off n h =
    let b = (segs cur).buf in
    let m = (segs cur).bytes in
    let more = content mem segs (cur + 1) k in
    let first = read_bytes mem b m in
    let none_off : off - length first ≡ 0 = omega (arith, length-read_bytes mem b m) in
    let dropped : drop off (first ++ more) ≡ read_bytes mem (b + off) (m - off) ++ more =
      drop-append off first more
      ∙ ap₂ (λ xs j. xs ++ drop j more) (drop-read_bytes off mem b m) none_off in
    let room = length-read_bytes mem (b + off) (m - off) in
    ap (λ l. take n l) dropped
    ∙ take-append n (read_bytes mem (b + off) (m - off)) more
    ∙ ap₂ (λ xs j. xs ++ take (n - j) more) (take-read_bytes n mem (b + off) (m - off)) room

-- One round of the loop within a segment, where `rest` is what the later rounds give.
chunk_step :
    (mem : Memory) (segs : ℕ → Kvec) (cur k off left : ℕ) (rest : Option (List ℕ))
    → off ≤ (segs cur).bytes
    → (leb left (chunk_size left ((segs cur).bytes - off)) ≡ false
        → rest ≡ some (take (left - ((segs cur).bytes - off)) (content mem segs (cur + 1) k)))
    → out_round mem segs cur off left rest ≡ some (take left (left_from mem segs cur (suc k) off))
unfolding out_round
chunk_step mem segs cur k off left rest h later =
    let room = (segs cur).bytes - off in
    let chunk = chunk_size left room in
    let more = content mem segs (cur + 1) k in
    let read = λ (n : ℕ). read_bytes mem ((segs cur).buf + off) n in
    let whole = split_first mem segs cur k off left h in
    let least : chunk ≡ min left room = ground arith in
    elim (Bool-cases (leb left chunk)) [
      | inl a ↦
          let e : left - room ≡ 0 = ground (arith, a) in
          rw (a, whole, e) (ap some (ap read least ∙ sym (append-nil (read (min left room)))))
      | inr a ↦ rw (a, later a, whole) (ap some (ap (λ n. read n ++ take (left - room) more) least))
    ]

drop_first :
    (mem : Memory) (segs : ℕ → Kvec) (cur k n : ℕ)
    → n ≡ (segs cur).bytes
    → drop n (content mem segs cur (suc k)) ≡ content mem segs (cur + 1) k
drop_first mem segs cur k n e =
    let b = (segs cur).buf in
    let m = (segs cur).bytes in
    let more = content mem segs (cur + 1) k in
    let none_left : m - n ≡ 0 = omega arith in
    let none_off : n - length (read_bytes mem b m) ≡ 0 = omega (arith, length-read_bytes mem b m) in
    drop-append n (read_bytes mem b m) more
    ∙ ap₂ (λ xs j. xs ++ drop j more)
        (drop-read_bytes n mem b m ∙ ap (λ i. read_bytes mem (b + n) i) none_left) none_off

take_nil : (n : ℕ) → take {A = ℕ} n [] ≡ []
take_nil zero = refl
take_nil (suc n) = refl

-- With this fuel, the loop copies what is left of the segments, up to the number of bytes asked for.
abbrev Copies : ℕ → Memory → (ℕ → Kvec) → (num : ℕ) → Type 0
Copies fuel mem segs num =
    (cur k off left : ℕ)
    → k + (if leb (segs cur).bytes off then 0 else 1) < fuel
    → off ≤ (segs cur).bytes
    → num ≡ cur + suc k
    → copy_out fuel mem segs num cur off left
      ≡ some (take left (left_from mem segs cur (suc k) off))

-- Behind a round that filled its segment, the loop goes on with the next.
later :
    (fuel : ℕ) (mem : Memory) (segs : ℕ → Kvec) (num : ℕ)
    → Copies fuel mem segs num
    → (cur k off left : ℕ) → k < fuel
    → off ≤ (segs cur).bytes
    → let room = (segs cur).bytes - off in
      let chunk = chunk_size left room in
      leb left chunk ≡ false
      → num ≡ cur + suc k
      → copy_out fuel mem segs num cur (off + chunk) (left - chunk)
        ≡ some (take (left - room) (content mem segs (cur + 1) k))
later fuel mem segs num ih cur k off left l h b e =
    let room = (segs cur).bytes - off in
    let chunk = chunk_size left room in
    let full : chunk ≡ room = ground (arith, b) in
    let at_end : off + chunk ≡ (segs cur).bytes = omega arith in
    ih cur k (off + chunk) (left - chunk) (ground (arith, at_end, l)) (omega arith) e
    ∙ ap some (ap₂ take (ap (λ c. left - c) full) (drop_first mem segs cur k (off + chunk) at_end))

next_segment :
    (fuel : ℕ) (mem : Memory) (segs : ℕ → Kvec) (num cur off left : ℕ)
    → Copies fuel mem segs num
    → (k : ℕ) → k < suc fuel
    → num ≡ cur + suc k
    → off ≤ (segs cur).bytes
    → leb (segs cur).bytes off ≡ true
    → copy_out (suc fuel) mem segs num cur off left
      ≡ some (take left (left_from mem segs cur (suc k) off))
unfolding copy_out
next_segment fuel mem segs num cur off left ih zero l e h a =
    let last : leb num (cur + 1) ≡ true = ground (arith, e) in
    let gone = drop_first mem segs cur zero off (ground (arith, a)) in
    rw (a, last) (ap some (sym (ap (λ xs. take left xs) gone ∙ take_nil left)))
next_segment fuel mem segs num cur off left ih (suc k) l e h a =
    let more : leb num (cur + 1) ≡ false = ground (arith, e) in
    let gone = drop_first mem segs cur (suc k) off (ground (arith, a)) in
    rw (a, more)
      (chunk_step mem segs (cur + 1) k 0 left _ (omega arith) (λ b.
          later fuel mem segs num ih (cur + 1) k 0 left (omega arith) (omega arith) b (omega arith))
        ∙ ap some (ap (λ xs. take left xs) (sym gone)))

copy_out_lem : (fuel : ℕ) (mem : Memory) (segs : ℕ → Kvec) (num : ℕ) → Copies fuel mem segs num
unfolding copy_out
copy_out_lem zero mem segs num cur k off left l h e = ground (arith, l)
copy_out_lem (suc fuel) mem segs num cur k off left l h e =
    let ih = copy_out_lem fuel mem segs num in
    elim (Bool-cases (leb (segs cur).bytes off)) [
      | inr a ↦ rw a (
          chunk_step mem segs cur k off left _ h
            (λ b. later fuel mem segs num ih cur k off left (ground (arith, a, l)) h b e))
      | inl a ↦ next_segment fuel mem segs num cur off left ih k (ground (arith, a, l)) e h a
    ]

-- With one segment or more, and an offset not past the end of the first, `memcpy_out_of_kvec` ends
-- and copies the bytes of the segments, one segment after the other, from the offset on, at most
-- as many as it is asked for.
pub memcpy_out_of_kvec_lem :
    (mem : Memory) (segs : ℕ → Kvec) (n seg_offset nbytes : ℕ)
    → seg_offset ≤ (segs 0).bytes
    → memcpy_out_of_kvec mem segs (suc n) seg_offset nbytes
      ≡ some (take nbytes (drop seg_offset (content mem segs 0 (suc n))))
unfolding memcpy_out_of_kvec
memcpy_out_of_kvec_lem mem segs n seg_offset nbytes h =
    copy_out_lem (suc n + 1) mem segs (suc n) 0 n seg_offset nbytes (ground arith) h (omega arith)
