-- ===== src/Fs/Pipe/Flow.antt =====
-- A pipe as a queue of bytes, up to the first read that empties it.
use gloworm.Prelude.{
  ℕ, ◌+◌, ◌-◌, ◌<◌, ◌≤◌, ◌≡◌, refl, sym, ap, ap₂, ◌∙◌, List, ◌++◌, length, take, drop, arith,
  if◌then◌else◌, leb, ltb, ◌==◌, Bool-cases, inl, inr, true, false, min,
}
use gloworm.Utils.Iovec.{read_bytes, write_bytes}
use gloworm.Utils.Iovec.Content.{length-read_bytes, take-read_bytes, drop-read_bytes}
use gloworm.Fs.Pipe.{
  Pipe, suspended, done, taken, pipe_buffer_max, vfs_poll_read, vfs_poll_write, create_pipe,
  pipe_read, pipe_write,
}
use gloworm.Fs.Pipe.Memory.{read_bytes-grown}

-- Both ends agree on what has been written.
pub record IsValid (p : Pipe) : Type 0 where
  pub written : p.write_at ≡ p.size
  pub read : p.read_at ≤ p.size
  pub room : p.size ≤ pipe_buffer_max

-- The bytes that a reader has not seen.
abbrev pub contents : Pipe → List ℕ
contents p = read_bytes p.buffer p.read_at (p.size - p.read_at)

-- While the ends agree, a write for which there is room is done: it puts its bytes behind the
-- others, wakes the readers, and keeps the ends in agreement. Without the room it is suspended and
-- changes nothing.
pub pipe_write_refines :
    (p : Pipe) (bytes : List ℕ)
    → IsValid p
    → let (outcome, p') = pipe_write p bytes in
      IsValid p'
      × (if leb (p.size + length bytes) pipe_buffer_max
          then (outcome ≡ done bytes vfs_poll_read) × (contents p' ≡ contents p ++ bytes)
          else (outcome ≡ suspended vfs_poll_write) × (p' ≡ p))
unfolding pipe_write
pipe_write_refines p bytes v =
    let end = p.write_at + length bytes in
    let size' = if ltb p.size end then end else p.size in
    let grown : size' - p.read_at ≡ (p.size - p.read_at) + length bytes =
      ground (arith, v.written, v.read) in
    elim (Bool-cases (leb (p.size + length bytes) pipe_buffer_max)) [
      | inl a ↦
          let free : ltb (pipe_buffer_max - p.write_at) (length bytes) ≡ false =
            ground (arith, a, v.written) in
          rw (a, free)
            (
              record {
                written = ground (arith, v.written);
                read = ground (arith, v.written, v.read);
                room = ground (arith, a, v.written, v.room);
              },
              (
                refl,
                ap (λ n. read_bytes (write_bytes p.buffer p.write_at bytes) p.read_at n) grown
                    ∙ read_bytes-grown p.buffer p.write_at bytes p.read_at (p.size - p.read_at)
                        (ground (arith, v.written, v.read)),
              ),
            )
      | inr a ↦
          let full : ltb (pipe_buffer_max - p.write_at) (length bytes) ≡ true =
            ground (arith, a, v.written, v.room) in
          rw (a, full) (v, (refl, refl))
    ]

remaining :
    (p : Pipe) (wanted n : ℕ)
    → IsValid p
    → n ≡ min wanted (p.size - p.read_at)
    → (p.read_at == p.size) ≡ false
    → contents (taken p n) ≡ drop wanted (contents p)
remaining p wanted n v least a =
    let held = p.size - p.read_at in
    let dropped = drop-read_bytes wanted p.buffer p.read_at held in
    elim (Bool-cases (p.read_at + n == p.size)) [
      | inl b ↦
          let none_left : 0 ≡ held - wanted = ground (arith, b, v.read) in
          let none_held : 0 - 0 ≡ 0 = omega arith in
          rw (b, dropped, ← none_left) (ap (λ k. read_bytes p.buffer 0 k) none_held)
      | inr b ↦
          let at : p.read_at + n ≡ p.read_at + wanted = ground (arith, b, v.read) in
          let left : p.size - (p.read_at + n) ≡ held - wanted = ground (arith, b, v.read) in
          rw (b, dropped) (ap₂ (λ c k. read_bytes p.buffer c k) at left)
    ]

-- While the ends agree, a read of a pipe that is not empty is done: it returns the oldest bytes,
-- at most as many as it asks for, wakes the writers, and leaves the others; the ends stay in
-- agreement if some are left. A read of an empty pipe is suspended and changes nothing.
pub pipe_read_refines :
    (p : Pipe) (wanted : ℕ)
    → IsValid p
    → let (outcome, p') = pipe_read p wanted in
      if p.read_at == p.size
      then (outcome ≡ suspended vfs_poll_read) × (p' ≡ p)
      else (outcome ≡ done (take wanted (contents p)) vfs_poll_write)
        × (contents p' ≡ drop wanted (contents p))
        × (wanted < length (contents p) → IsValid p')
unfolding pipe_read
pipe_read_refines p wanted v =
    let held = p.size - p.read_at in
    let n = if ltb held wanted then held else wanted in
    let least : n ≡ min wanted held = ground arith in
    let len = length-read_bytes p.buffer p.read_at held in
    elim (Bool-cases (p.read_at == p.size)) [
      | inl a ↦ rw a (refl, refl)
      | inr a ↦ rw a (
        ap (λ zs. done zs vfs_poll_write)
            (ap (λ k. read_bytes p.buffer p.read_at k) least
              ∙ sym (take-read_bytes wanted p.buffer p.read_at held)),
        remaining p wanted n v least a,
        λ some_left. record {
          written = ground (arith, v.written, v.read, some_left, len);
          read = ground (arith, v.written, v.read, some_left, len);
          room = ground (arith, v.room, some_left, len);
        },
      )
    ]

-- A pipe whose reader and size are at the start, as a new one and one that was read empty.
abbrev rewound : (ℕ → ℕ) → ℕ → Pipe
rewound memory w = record { buffer = memory; size = 0; read_at = 0; write_at = w }

abbrev filled : (ℕ → ℕ) → (size w : ℕ) → Pipe
filled memory size w = record { buffer = memory; size = size; read_at = 0; write_at = w }

write_rewound :
    (memory : ℕ → ℕ) (w : ℕ) (xs : List ℕ)
    → w + length xs ≤ pipe_buffer_max
    → pipe_write (rewound memory w) xs
      ≡ (done xs vfs_poll_read, filled (write_bytes memory w xs) (w + length xs) (w + length xs))
unfolding pipe_write
write_rewound memory w xs fits =
    let end = w + length xs in
    let free : ltb (pipe_buffer_max - w) (length xs) ≡ false = ground arith in
    let size' : (if ltb 0 end then end else 0) ≡ end = ground arith in
    rw free (ap (λ s. (done xs vfs_poll_read, filled (write_bytes memory w xs) s end)) size')

read_all :
    (memory : ℕ → ℕ) (size w wanted : ℕ)
    → 0 < size
    → size ≤ wanted
    → pipe_read (filled memory size w) wanted
      ≡ (done (read_bytes memory 0 size) vfs_poll_write, rewound memory w)
unfolding pipe_read
read_all memory size w wanted some_bytes enough =
    let ne : (0 == size) ≡ false = ground arith in
    let n : (if ltb (size - 0) wanted then size - 0 else wanted) ≡ size = ground arith in
    let at_end : (0 + size == size) ≡ true = ground arith in rw (ne, n, at_end) refl

-- A new pipe takes a write of one byte or more, a read of all of it, and a second write, for both
-- of which there is room. The next read returns the bytes that were read before once more, in
-- front of the new ones: the writer went on at its old position.
pub pipe_replays :
    (memory : ℕ → ℕ) (xs ys : List ℕ)
    → 0 < length xs
    → length xs + length ys ≤ pipe_buffer_max
    → let p1 = (pipe_write (create_pipe memory) xs).1 in
      let (first, p2) = pipe_read p1 (length xs) in
      let p3 = (pipe_write p2 ys).1 in
      let (second, _) = pipe_read p3 pipe_buffer_max in
      (first ≡ done xs vfs_poll_write) × (second ≡ done (xs ++ ys) vfs_poll_write)
pipe_replays memory xs ys some_bytes fits =
    let w = 0 + length xs in
    let m = write_bytes memory 0 xs in
    let m' = write_bytes m w ys in
    let e1 = write_rewound memory 0 xs (omega arith) in
    let e2 = read_all m w w (length xs) (omega arith) (omega arith) in
    let e3 = write_rewound m w ys (omega arith) in
    let e4 =
      read_all m' (w + length ys) (w + length ys) pipe_buffer_max (omega arith) (omega arith) in
    let old : read_bytes m 0 w ≡ xs = read_bytes-grown memory 0 xs 0 0 refl in
    let all : read_bytes m' 0 (w + length ys) ≡ xs ++ ys =
      read_bytes-grown m w ys 0 w (omega arith) ∙ ap (λ zs. zs ++ ys) old in
    rw (e1, e2, e3, e4)
      (ap (λ zs. done zs vfs_poll_write) old, ap (λ zs. done zs vfs_poll_write) all)
