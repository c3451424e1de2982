-- ===== src/Fs/Pipe.antt =====
-- src/kernel/fs/pipe.c: a pipe over a buffer in its vnode, with a file for each end. Each file has a
-- position of its own. The bytes that the iterator of a call holds are a list.
pub mod Memory
pub mod Flow
mod Examples
use gloworm.Prelude.{
  ℕ, ◌+◌, ◌-◌, ◌<◌, Bool, true, false, not, ◌&&◌, List, [], ◌∷◌, ltb, leb, ◌==◌, if◌then◌else◌,
  length,
}
use Prim.Native.Nat.{bit_or}
use gloworm.Utils.Iovec.{read_bytes, write_bytes}
use gloworm.Proc.Scheduler.{has_bit}

abbrev pub pipe_buffer_max : ℕ
pipe_buffer_max = 512

abbrev pub vfs_poll_read : ℕ
vfs_poll_read = 0x01

abbrev pub vfs_poll_write : ℕ
vfs_poll_write = 0x02

-- The vnode of a pipe, with the positions of the file to read and of the file to write.
pub record Pipe : Type 0 where
  pub buffer : ℕ → ℕ
  pub size : ℕ
  pub read_at : ℕ
  pub write_at : ℕ

-- A call suspends the process until one of the events, or it is done and wakes those that wait for
-- the events.
pub data Outcome : Type 0 where
  suspended : (events : ℕ) → Outcome
  done : (bytes : List ℕ) → (wakes : ℕ) → Outcome

abbrev pub create_pipe : (ℕ → ℕ) → Pipe
create_pipe memory = record { buffer = memory; size = 0; read_at = 0; write_at = 0 }

-- The positions behind a read of `n` bytes.
abbrev pub taken : Pipe → ℕ → Pipe
taken p n =
    if p.read_at + n == p.size
    then record p { read_at = 0; size = 0 }
    else record p { read_at = p.read_at + n }

unfoldable pub pipe_read : Pipe → (wanted : ℕ) → Outcome × Pipe
pipe_read p wanted =
    let n = if ltb (p.size - p.read_at) wanted then p.size - p.read_at else wanted in
    if p.read_at == p.size
    then (suspended vfs_poll_read, p)
    else (done (read_bytes p.buffer p.read_at n) vfs_poll_write, taken p n)

unfoldable pub pipe_write : Pipe → List ℕ → Outcome × Pipe
pipe_write p bytes =
    let write_at' = p.write_at + length bytes in
    if ltb (pipe_buffer_max - p.write_at) (length bytes) then (suspended vfs_poll_write, p) else (
      done bytes vfs_poll_read,
      record p {
        buffer = write_bytes p.buffer p.write_at bytes;
        write_at = write_at';
        size = if ltb p.size write_at' then write_at' else p.size;
      },
    )

-- `pipe_poll` for a file at a position.
unfoldable pub pipe_poll : Pipe → (position events : ℕ) → ℕ
pipe_poll p position events =
    bit_or (if has_bit events vfs_poll_read && not (p.size == position) then vfs_poll_read else 0)
      (if has_bit events vfs_poll_write && leb pipe_buffer_max p.size then vfs_poll_write else 0)
