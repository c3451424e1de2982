-- ===== src/Utils/RingBuffer/Peek.antt =====
-- `_buf_peek`: what it copies, and where it reads past the ring.
use gloworm.Prelude.{ℕ, zero, suc, ◌+◌, ◌-◌, ◌≤◌, ◌<◌, ◌≡◌, ◌≢◌, refl, ◌∷◌, arith, take, drop}
use gloworm.Utils.RingBuffer.{Ring, next, used_space, peek, peek_from}
use gloworm.Utils.RingBuffer.Inv.{IsValid}
use gloworm.Utils.RingBuffer.Window.{window, walk, contents, window-drop}

peek_from_lem :
    (n : ℕ) (cb : Ring) (j d : ℕ)
    → IsValid cb
    → j < cb.max
    → d < cb.max
    → cb.in_at ≡ walk cb.max j d
    → peek_from n cb j ≡ take n (window cb.buffer cb.max j d)
unfolding peek_from window
peek_from_lem zero cb j d v hj hd e = refl
peek_from_lem (suc n) cb j zero v hj hd e = ground arith
peek_from_lem (suc n) cb j (suc d) v hj hd e = ground (arith, peek_from_lem n cb (next cb.max j) d)

-- On a valid ring that holds `offset` bytes or more, unless `out + offset` is the end of the ring,
-- `_buf_peek` copies the bytes behind the first `offset` ones, at most `n`.
peek_refines :
    (n offset : ℕ) {cb : Ring}
    → IsValid cb
    → offset ≤ used_space cb
    → cb.out + offset ≢ cb.max
    → peek cb offset n ≡ take n (drop offset (contents cb))
unfolding peek used_space
peek_refines n offset {cb} v h ne = ground (
  arith,
  peek_from_lem n cb (walk cb.max cb.out offset) (used_space cb - offset) v,
  window-drop cb.buffer cb.max cb.out (used_space cb) offset,
)

-- On a valid ring that holds `offset` bytes or more, if `out + offset` is the end of the ring,
-- `_buf_peek` first copies the byte of memory behind the ring, and then those behind the first
-- `offset` ones.
peek_past_end :
    (n offset : ℕ) {cb : Ring}
    → IsValid cb
    → offset ≤ used_space cb
    → cb.out + offset ≡ cb.max
    → peek cb offset (suc n) ≡ cb.buffer cb.max ∷ take n (drop offset (contents cb))
unfolding peek used_space
peek_past_end n offset {cb} v h e = ground (
  arith,
  peek_from_lem n cb 0 (used_space cb - offset) v,
  window-drop cb.buffer cb.max cb.out (used_space cb) offset,
)
