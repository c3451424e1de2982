-- ===== src/Utils/RingBuffer/Inv.antt =====
-- The representation invariant of `struct ringbuffer`.
use gloworm.Prelude.{ℕ, ◌+◌, ◌^◌, ◌<◌, ◌≡◌, ◌↔◌, true, arith}
use gloworm.Utils.RingBuffer.{
  Ring, init, is_full, is_empty, used_space, free_space, get_char, put_char, drop_bytes,
}

pub record IsValid (cb : Ring) : Type 0 where
  pub small : cb.max < 2 ^ 15
  pub in_range : cb.in_at < cb.max
  pub out_range : cb.out < cb.max

-- A ring over a block of more than six and less than 2^15 bytes starts valid and empty.
init-IsValid :
    (memory : ℕ → ℕ) (total_size : ℕ)
    → 6 < total_size
    → total_size < 2 ^ 15
    → IsValid (init memory total_size) × (used_space (init memory total_size) ≡ 0)
unfolding init used_space
init-IsValid memory total_size lo hi = ground arith

-- In a valid ring, used and free bytes make up all but one of the ring's bytes.
used-add-free : {cb : Ring} → IsValid cb → used_space cb + free_space cb + 1 ≡ cb.max
unfolding used_space free_space
used-add-free v = ground arith

pub is_empty_iff : {cb : Ring} → IsValid cb → (is_empty cb ≡ true) ↔ (used_space cb ≡ 0)
unfolding is_empty used_space
is_empty_iff v = ground arith

pub is_full_iff : {cb : Ring} → IsValid cb → (is_full cb ≡ true) ↔ (free_space cb ≡ 0)
unfolding is_full free_space
is_full_iff v = ground arith

pub get_char-IsValid : {cb : Ring} → IsValid cb → IsValid (get_char cb).1
unfolding get_char
get_char-IsValid v = ground arith

pub put_char-IsValid : {cb : Ring} (ch : ℕ) → IsValid cb → IsValid (put_char cb ch).1
unfolding put_char
put_char-IsValid ch v = ground arith

pub drop_bytes-IsValid : {cb : Ring} (n : ℕ) → IsValid cb → IsValid (drop_bytes cb n).1
unfolding drop_bytes
drop_bytes-IsValid n v = ground arith
