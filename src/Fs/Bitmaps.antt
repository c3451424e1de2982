-- ===== src/Fs/Bitmaps.antt =====
-- src/kernel/fs/ext2/bitmaps.h: which inodes and blocks of an ext2 file system are in use, a bit for
-- each. A bitmap is the bytes of its block, which the buffer cache hands out; without it the
-- operations return early.
pub mod Search
mod Examples
use gloworm.Prelude.{
  ℕ, zero, suc, ◌+◌, ◌-◌, ◌*◌, ◌/◌, ◌%◌, ◌^◌, Bool, not, ◌&&◌, Option, none, some, ltb, leb, ◌==◌,
  if◌then◌else◌, update,
}
use Prim.Native.Nat.{bit_and, bit_or}

unfoldable pub bit_mask : (bits : ℕ) → ℕ
bit_mask zero = 0
bit_mask (suc bits) = (bit_mask bits * 2 + 1) % 256

-- The loop of `bitmap_init` over the reserved entries.
unfoldable pub reserve_bits : ℕ → (block : ℕ → ℕ) → (reserve i : ℕ) → ℕ → ℕ
unfolding bit_mask
reserve_bits zero block reserve i = block
reserve_bits (suc fuel) block reserve i =
    let rest = reserve_bits fuel (update block i 0xff) (reserve - 8) (i + 1) in
    if ltb 8 reserve then rest else update block i (bit_mask reserve)

-- The block that is released, none if there is none; the loop has a round for each reserved entry.
unfoldable pub bitmap_init :
    (buf : Option (ℕ → ℕ)) → (block_size num_entries reserve : ℕ) → Option (ℕ → ℕ)
unfolding reserve_bits
bitmap_init none block_size num_entries reserve = none
bitmap_init (some block) block_size num_entries reserve =
    let last_byte = num_entries / 8 in
    let cleared = λ (i : ℕ).
      if ltb i last_byte
      then 0
      else if i == last_byte && ltb last_byte block_size
      then bit_mask (num_entries % 8)
      else if ltb last_byte i && ltb i block_size
      then 0xff
      else block i in
    some (reserve_bits (reserve + 1) cleared reserve 0)

-- The loop over the bits of a byte, with the rounds left.
unfoldable pub first_clear : ℕ → (byte bit : ℕ) → ℕ
first_clear zero byte bit = bit
first_clear (suc rounds) byte bit =
    let rest = first_clear rounds byte (bit + 1) in
    if not (bit_and byte (2 ^ bit) == 0) then rest else bit

-- The loop over the bytes, with the rounds left: the bit and the block.
unfoldable pub alloc_in : ℕ → (bytes : ℕ → ℕ) → (i : ℕ) → Option (ℕ × (ℕ → ℕ))
unfolding first_clear
alloc_in zero bytes i = none
alloc_in (suc rounds) bytes i =
    let rest = alloc_in rounds bytes (i + 1) in
    let bit = first_clear 8 (bytes i) 0 in
    if not (bytes i == 0xff)
    then some (bit + i * 8, update bytes i (bit_or (bytes i) (2 ^ bit)))
    else rest

-- The number that is returned, 0 for none, and the block.
unfoldable pub bit_alloc : (buf : Option (ℕ → ℕ)) → (block_size : ℕ) → ℕ × Option (ℕ → ℕ)
unfolding alloc_in
bit_alloc none block_size = (0, none)
bit_alloc (some bytes) block_size = elim (alloc_in block_size bytes 0) [
  | none ↦ (0, some bytes)
  | some r ↦ (r.0, some r.1)
]

unfoldable pub bit_free : (buf : Option (ℕ → ℕ)) → (bitnum : ℕ) → Option (ℕ → ℕ)
bit_free none bitnum = none
bit_free (some bytes) bitnum =
    some (update bytes (bitnum / 8) (bit_and (bytes (bitnum / 8)) (0xff - 2 ^ (bitnum % 8))))
