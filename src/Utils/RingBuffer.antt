-- ===== src/Utils/RingBuffer.antt =====
-- include/kernel/utils/ringbuffer.h: a byte queue over a circular buffer of which one byte stays
-- unused. The fields are C shorts; they hold no negative value under `Inv.IsValid`.
-- The buffer is the memory from `buffer[0]` on, so a read at an index past the ring
-- gives what lies there, as in C.
pub mod Inv
pub mod Window
pub mod Refine
pub mod Peek
mod Examples
use gloworm.Prelude.{
  ℕ, zero, suc, ◌+◌, ◌-◌, ◌%◌, ◌^◌, Bool, Option, none, some, List, [], ◌∷◌, ltb, leb, ◌==◌,
  if◌then◌else◌, update,
}

pub record Ring : Type 0 where
  pub max : ℕ
  pub in_at : ℕ
  pub out : ℕ
  pub buffer : ℕ → ℕ

abbrev pub ring_buffer_size : ℕ
ring_buffer_size = 512

-- `_buf_init`: the size is converted to a short.
pub init : (ℕ → ℕ) → ℕ → Ring
init memory total_size = record {
  max = if total_size == 0 then ring_buffer_size else (total_size + 2 ^ 16 - 6) % 2 ^ 16;
  in_at = 0;
  out = 0;
  buffer = memory;
}

-- The index behind `i`, round the end of a ring of `n` bytes.
abbrev pub next : ℕ → ℕ → ℕ
next n i = if ltb (i + 1) n then i + 1 else 0

abbrev pub next_in : Ring → ℕ
next_in cb = next cb.max cb.in_at

pub is_full : Ring → Bool
is_full cb = next_in cb == cb.out

pub is_empty : Ring → Bool
is_empty cb = cb.in_at == cb.out

pub used_space : Ring → ℕ
used_space cb = if leb cb.out cb.in_at then cb.in_at - cb.out else cb.max - cb.out + cb.in_at

pub free_space : Ring → ℕ
free_space cb =
    if ltb cb.in_at cb.out then cb.out - cb.in_at - 1 else cb.max - cb.in_at + cb.out - 1

-- `cb->out++`, back to 0 at the end.
abbrev pub advance_out : Ring → Ring
advance_out cb = record cb { out = if leb cb.max (cb.out + 1) then 0 else cb.out + 1 }

-- `none` is -1.
pub get_char : Ring → Option ℕ × Ring
get_char cb = if cb.out == cb.in_at then (none, cb) else (some (cb.buffer cb.out), advance_out cb)

-- The byte is stored, and `in` moved to the next index.
abbrev pub store : Ring → ℕ → Ring
store cb ch = record cb { buffer = update cb.buffer cb.in_at ch }

pub put_char : Ring → ℕ → Option ℕ × Ring
put_char cb ch =
    if next_in cb == cb.out
    then (none, cb)
    else (some ch, record cb { buffer = update cb.buffer cb.in_at ch; in_at = next_in cb })

-- The bytes of `data[0..i)` for the returned count `i`; the first argument is the rounds left.
pub get : ℕ → Ring → List ℕ × Ring
get zero cb = ([], cb)
get (suc n) cb =
    let (rest, cb') = get n (advance_out cb) in
    if cb.out == cb.in_at then ([], cb) else (cb.buffer cb.out ∷ rest, cb')

-- The loop of `_buf_peek` at the index `j`.
pub peek_from : ℕ → Ring → ℕ → List ℕ
peek_from zero cb j = []
peek_from (suc n) cb j =
    let rest = peek_from n cb (if leb cb.max (j + 1) then 0 else j + 1) in
    if j == cb.in_at then [] else cb.buffer j ∷ rest

-- The index at which `_buf_peek` starts.
pub peek_start : Ring → ℕ → ℕ
unfolding used_space
peek_start cb offset =
    let offset' = if ltb (used_space cb) offset then used_space cb else offset in
    let j = cb.out + offset' in if ltb cb.max j then j - cb.max else j

pub peek : Ring → ℕ → ℕ → List ℕ
unfolding peek_from peek_start
peek cb offset size = peek_from size cb (peek_start cb offset)

-- The bytes of `data` that are left to put; the number counts those put before.
-- Each byte is stored before the ring is tested for space.
pub put_from : Ring → List ℕ → ℕ → ℕ × Ring
put_from cb [] i = (i, cb)
put_from cb (ch ∷ chars) i =
    let cb' = store cb ch in
    let rest = put_from (record cb' { in_at = next_in cb' }) chars (i + 1) in
    if next_in cb' == cb'.out then (i, cb') else rest

pub put : Ring → List ℕ → ℕ × Ring
unfolding put_from
put cb bytes = put_from cb bytes 0

pub drop_bytes : Ring → ℕ → ℕ × Ring
unfolding used_space
drop_bytes cb size =
    let size' = if ltb (used_space cb) size then used_space cb else size in
    let out' = cb.out + size' in
    (size', record cb { out = if leb cb.max out' then out' - cb.max else out' })
