-- ===== src/Fs/Pipe/Examples.antt =====
-- The theorems on pipes at a pipe that holds two bytes, and at a new one.
use gloworm.Prelude.{◌≡◌, ◌<◌, refl, [], ◌∷◌, arith}
use gloworm.Fs.Pipe.{
  Pipe, done, pipe_buffer_max, vfs_poll_read, vfs_poll_write, create_pipe, pipe_read, pipe_write,
}
use gloworm.Fs.Pipe.Flow.{IsValid, contents, pipe_write_refines, pipe_read_refines, pipe_replays}

abbrev two_bytes : Pipe
two_bytes = record { buffer = λ a. a; size = 5; read_at = 3; write_at = 5 }

two_bytes-IsValid : IsValid two_bytes
two_bytes-IsValid = record { written = refl; read = omega arith; room = omega arith }

pipe_write_refines_example :
    let (outcome, p') = pipe_write two_bytes (9 ∷ []) in
    IsValid p' × ((outcome ≡ done (9 ∷ []) vfs_poll_read) × (contents p' ≡ 3 ∷ 4 ∷ 9 ∷ []))
pipe_write_refines_example = pipe_write_refines two_bytes (9 ∷ []) two_bytes-IsValid

pipe_read_refines_example :
    let (outcome, p') = pipe_read two_bytes 1 in
    (outcome ≡ done (3 ∷ []) vfs_poll_write) × (contents p' ≡ 4 ∷ []) × (1 < 2 → IsValid p')
pipe_read_refines_example = pipe_read_refines two_bytes 1 two_bytes-IsValid

pipe_replays_example :
    let p1 = (pipe_write (create_pipe (λ _. 0)) (1 ∷ 2 ∷ [])).1 in
    let (first, p2) = pipe_read p1 2 in
    let p3 = (pipe_write p2 (7 ∷ [])).1 in
    let (second, _) = pipe_read p3 pipe_buffer_max in
    (first ≡ done (1 ∷ 2 ∷ []) vfs_poll_write) × (second ≡ done (1 ∷ 2 ∷ 7 ∷ []) vfs_poll_write)
pipe_replays_example = pipe_replays (λ _. 0) (1 ∷ 2 ∷ []) (7 ∷ []) (omega arith) (omega arith)
