-- ===== src/Utils/RingBuffer/Refine.antt =====
-- A valid ring is a bounded queue of bytes, `contents`, oldest byte first.
use gloworm.Prelude.{
  ℕ, zero, suc, ◌+◌, ◌-◌, ◌<◌, ◌≤◌, ◌≡◌, refl, ap, ◌∙◌, true, false, none, some, List, [], ◌∷◌,
  ◌++◌, arith, ltb, leb, ◌==◌, if◌then◌else◌, length, take, drop, min, ◌⊎◌, inl, inr, Bool-cases,
}
use mathlib.Core.List.{append-nil, append_assoc}
use gloworm.Utils.RingBuffer.{
  Ring, next, next_in, used_space, free_space, get_char, put_char, advance_out, store, get,
  put_from, put, drop_bytes,
}
use gloworm.Utils.RingBuffer.Inv.{IsValid}
use gloworm.Utils.RingBuffer.Window.{
  window, contents, length-window, window_of_pos, window-drop, window-update, window-snoc,
}

pub length-contents : (cb : Ring) → length (contents cb) ≡ used_space cb
length-contents cb = length-window cb.buffer cb.max cb.out (used_space cb)

take-nil {ℓ} : {A : Type ℓ} (n : ℕ) → take {A = A} n [] ≡ []
take-nil zero = refl
take-nil (suc n) = refl

-- On a valid ring, `_buf_put_char` returns -1 and changes nothing if the ring is full; else it
-- returns the byte and the ring holds it behind the others.
put_char_refines :
    {cb : Ring} (ch : ℕ)
    → IsValid cb
    → let (r, cb') = put_char cb ch in
      (r ≡ (if free_space cb == 0 then none else some ch))
      × (contents cb' ≡ (if free_space cb == 0 then contents cb else contents cb ++ ch ∷ []))
unfolding put_char used_space free_space
put_char_refines {cb} ch v =
    ground (arith, window-snoc cb.buffer cb.max cb.out (used_space cb) cb.in_at ch)

-- On a valid ring, `_buf_get_char` returns -1 and changes nothing if the ring is empty; else it
-- returns the oldest byte and the ring holds the others.
get_char_refines :
    {cb : Ring}
    → IsValid cb
    → let (r, cb') = get_char cb in
      (used_space cb ≡ 0) × (r ≡ none) × (cb' ≡ cb)
      ⊎ (c : ℕ) × (r ≡ some c) × (contents cb ≡ c ∷ contents cb')
unfolding get_char used_space
get_char_refines {cb} v = elim (Bool-cases (cb.out == cb.in_at)) [
  | inl e ↦ inl (ground arith)
  | inr e ↦ rw e (
      inr (
        cb.buffer cb.out,
        refl,
        ground (arith, window_of_pos cb.buffer cb.max cb.out (used_space cb)),
      ))
]

empty-used : (cb : Ring) → (cb.out == cb.in_at) ≡ true → used_space cb ≡ 0
unfolding used_space
empty-used cb e = ground arith

contents-nil : (cb : Ring) → used_space cb ≡ 0 → contents cb ≡ []
unfolding window
contents-nil cb e = ap (window cb.buffer cb.max cb.out) e

-- On a valid ring, `_buf_get` returns the oldest bytes, at most `n`, and leaves the others.
get_refines :
    (n : ℕ) {cb : Ring}
    → IsValid cb
    → let (bytes, cb') = get n cb in
      (bytes ≡ take n (contents cb)) × (contents cb' ≡ drop n (contents cb)) × IsValid cb'
unfolding get used_space
get_refines zero v = (refl, refl, v)
get_refines (suc n) {cb} v = elim (Bool-cases (cb.out == cb.in_at)) [
  | inl e ↦ ground (arith, contents-nil cb (empty-used cb e))
  | inr e ↦ rw e (
      ground (
        arith,
        get_refines n {cb = advance_out cb},
        window_of_pos cb.buffer cb.max cb.out (used_space cb),
      ))
]

-- A byte stored without moving `in` is not yet in the ring.
contents-store : {cb : Ring} (ch : ℕ) → IsValid cb → contents (store cb ch) ≡ contents cb
unfolding used_space
contents-store {cb} ch v =
    window-update cb.buffer cb.max cb.out (used_space cb) cb.in_at ch v.out_range (ground arith)
      (λ k h. ground arith)

-- The ring after a byte for which there is room.
abbrev after : Ring → ℕ → Ring
after cb ch = record (store cb ch) { in_at = next cb.max cb.in_at }

after_lem :
    {cb : Ring} (ch : ℕ)
    → IsValid cb
    → (next_in cb == cb.out) ≡ false
    → IsValid (after cb ch)
      × (contents (after cb ch) ≡ contents cb ++ ch ∷ [])
      × (free_space cb ≡ suc (free_space (after cb ch)))
unfolding used_space free_space
after_lem {cb} ch v room = (
  ground arith,
  ground (arith, window-snoc cb.buffer cb.max cb.out (used_space cb) cb.in_at ch),
  ground arith,
)

full_lem : {cb : Ring} → IsValid cb → (next_in cb == cb.out) ≡ true → free_space cb ≡ 0
unfolding free_space
full_lem v full = ground arith

put_from_refines :
    (bytes : List ℕ) {cb : Ring} (i : ℕ)
    → IsValid cb
    → let (n, cb') = put_from cb bytes i in
      (n ≡ i + min (length bytes) (free_space cb))
      × (contents cb' ≡ contents cb ++ take (free_space cb) bytes)
      × IsValid cb'
unfolding put_from
put_from_refines [] {cb} i v = (omega arith, rw (take-nil, append-nil), v)
put_from_refines (ch ∷ bytes) {cb} i v = elim (Bool-cases (next_in cb == cb.out)) [
  | inl full ↦
      ground (arith, full_lem v full, contents-store ch v, append-nil (contents cb), v.small)
  | inr room ↦
      let (ok, same, less) = after_lem ch v room in
      let (count, bytes', ok') = put_from_refines bytes {cb = after cb ch} (i + 1) ok in
      rw room (omega arith, bytes' ∙ rw (same, less, append_assoc), ok')
]

-- On a valid ring, `_buf_put` puts as many bytes as there is room for behind the others, in order,
-- and returns their number; the ring stays valid.
pub put_refines :
    (bytes : List ℕ) {cb : Ring}
    → IsValid cb
    → let (n, cb') = put cb bytes in
      (n ≡ min (length bytes) (free_space cb))
      × (contents cb' ≡ contents cb ++ take (free_space cb) bytes)
      × IsValid cb'
unfolding put
put_refines bytes v = ground (arith, put_from_refines bytes 0 v)

drop-contents :
    (k : ℕ) {cb : Ring}
    → IsValid cb
    → k ≤ used_space cb
    → let out' = cb.out + k in
      let cb' : Ring = record cb { out = if leb cb.max out' then out' - cb.max else out' } in
      (contents cb' ≡ drop k (contents cb)) × IsValid cb'
unfolding used_space
drop-contents k {cb} v h =
    (ground (arith, window-drop cb.buffer cb.max cb.out (used_space cb) k), ground arith)

-- On a valid ring, `_buf_drop` removes the oldest bytes, at most `n`, returns how many, and leaves
-- the others.
drop_bytes_refines :
    (n : ℕ) {cb : Ring}
    → IsValid cb
    → let (k, cb') = drop_bytes cb n in
      (k ≡ min n (used_space cb)) × (contents cb' ≡ drop k (contents cb)) × IsValid cb'
unfolding drop_bytes
drop_bytes_refines n {cb} v =
    let k = if ltb (used_space cb) n then used_space cb else n in
    let (same, ok) = drop-contents k v (ground arith) in (ground arith, same, ok)

put_from-fills :
    (bytes : List ℕ) {cb : Ring} (i : ℕ)
    → IsValid cb
    → let (n, cb') = put_from cb bytes i in n < i + length bytes → free_space cb' ≡ 0
unfolding put_from
put_from-fills [] {cb} i v = λ few. absurd (omega (arith, few))
put_from-fills (ch ∷ bytes) {cb} i v = elim (Bool-cases (next_in cb == cb.out)) [
  | inl full ↦ rw full (λ few. full_lem {cb = store cb ch} (ground arith) full)
  | inr room ↦
      let (ok, same, less) = after_lem ch v room in
      let rest = put_from-fills bytes {cb = after cb ch} (i + 1) ok in
      rw room (λ few. rest (omega (arith, few)))
]

-- A ring that does not take all bytes is full.
pub put-fills :
    (bytes : List ℕ) {cb : Ring}
    → IsValid cb
    → (put cb bytes).0 < length bytes
    → free_space (put cb bytes).1 ≡ 0
unfolding put
put-fills bytes v few = put_from-fills bytes 0 v (omega (arith, few))
