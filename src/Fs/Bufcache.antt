-- ===== src/Fs/Bufcache.antt =====
-- src/kernel/fs/bufcache.c and include/kernel/fs/bufcache.h: the cache of the blocks of a device,
-- the block used last first. The queue of the entries is the list of them, and an entry goes by its
-- address. The device is a parameter, and so is the address that a new entry is allocated at.
pub mod View
pub mod Flush
pub mod Load
pub mod Sync
mod Examples
use gloworm.Prelude.{
  ℕ, zero, suc, ◌+◌, ◌-◌, ◌*◌, ◌%◌, ◌<◌, ◌≤◌, ◌⊎◌, ◌≡◌, ◌≢◌, Bool, true, false, not, ◌&&◌, ◌||◌,
  Option, none, some, List, [], ◌∷◌, ltb, ◌==◌, if◌then◌else◌,
}
use gloworm.Utils.Queue.{Ptr}

-- The bytes of a block.
abbrev pub Bytes : Type 0
Bytes = ℕ → ℕ

-- What the cache relies on of a driver: `dev_read` of `size` bytes at a byte position into a buffer,
-- and `dev_write`, with whether they moved all of them; and what such a range of the device holds. A
-- write changes no range of that size that lies apart from its own.
pub record Device : Type 1 where
  pub State : Type 0
  pub dev_read : State → (position size : ℕ) → Bytes → Bytes × Bool
  pub dev_write : State → (position size : ℕ) → Bytes → State × Bool
  pub contents : State → (position size : ℕ) → Bytes
  pub read_all :
      (st : State) (position size : ℕ) (b : Bytes)
      → (dev_read st position size b).1 ≡ true
      → (dev_read st position size b).0 ≡ contents st position size
  pub write_all :
      (st : State) (position size : ℕ) (b : Bytes)
      → (dev_write st position size b).1 ≡ true
      → contents (dev_write st position size b).0 position size ≡ b
  pub write_only :
      (st : State) (position size : ℕ) (b : Bytes) (at : ℕ)
      → 0 < size
      → (at + size ≤ position) ⊎ (position + size ≤ at)
      → contents (dev_write st position size b).0 at size ≡ contents st at size

-- `struct buf`; the flag is BF_DIRTY.
pub record Buf : Type 0 where
  pub node : Ptr
  pub refcount : ℕ
  pub dirty : Bool
  pub num : ℕ
  pub block : Bytes

-- `struct bufcache`; the flags are whether a device is set and BC_GF_DBG_NOWRITE.
pub record Bufcache : Type 0 where
  pub has_dev : Bool
  pub nowrite : Bool
  pub block_size : ℕ
  pub num_entries : ℕ
  pub blocks : List Buf

abbrev pub bufcache_max : ℕ
bufcache_max = 100

unfoldable pub init_bufcache : (has_dev : Bool) → (block_size : ℕ) → Bufcache
init_bufcache has_dev block_size = record {
  has_dev = has_dev;
  nowrite = false;
  block_size = block_size;
  num_entries = 0;
  blocks = [];
}

-- The byte position of a block, an unsigned product of 32 bits.
abbrev pub block_position : (size num : ℕ) → ℕ
block_position size num = num * size % 4294967296

-- The entry for a block, the first one from the head, and the others.
unfoldable pub find_block : (num : ℕ) → List Buf → Option (Buf × List Buf)
find_block num [] = none
find_block num (cur ∷ blocks) =
    let rest = find_block num blocks in
    if cur.num == num
    then some (cur, blocks)
    else elim rest [ none ↦ none | some r ↦ some (r.0, cur ∷ r.1) ]

-- The entry that no one refers to, the first one from the tail, and the others.
unfoldable pub find_last_free : List Buf → Option (Buf × List Buf)
find_last_free [] = none
find_last_free (cur ∷ blocks) = elim (find_last_free blocks) [
  | some r ↦ some (r.0, cur ∷ r.1)
  | none ↦ if cur.refcount == 0 then some (cur, blocks) else none
]

-- The entry at an address is written.
abbrev pub modify_buf : (Buf → Buf) → Ptr → List Buf → List Buf
modify_buf f p [] = []
modify_buf f p (cur ∷ blocks) = (if cur.node == p then f cur else cur) ∷ modify_buf f p blocks

unfoldable pub mark_block_dirty : Bufcache → Ptr → Bufcache
mark_block_dirty cache buf = record cache {
  blocks = modify_buf (λ b. record b { dirty = true }) buf cache.blocks;
}

-- A count that falls below zero is set to zero again.
unfoldable pub release_block : Bufcache → Ptr → (dirty : Bool) → Bufcache
unfolding mark_block_dirty
release_block cache buf dirty =
    let cache' = if dirty then mark_block_dirty cache buf else cache in
    record cache' {
      blocks = modify_buf (λ b. record b { refcount = b.refcount - 1 }) buf cache'.blocks;
    }

-- The end of `get_block`: the entry or null; a panic halts the system.
pub data Got (S : Type 0) : Type 0 where
  got : Option Ptr → Bufcache → S → Got S
  panicked : Got S

module _ (dev : Device) where
  open dev use {State, dev_read, dev_write}

  unfoldable pub write_entry : Bufcache → State → Buf → Buf × State
  write_entry cache st entry =
      let (st', ok) =
        dev_write st (block_position cache.block_size entry.num) cache.block_size entry.block in
      if not entry.dirty
      then (entry, st)
      else if cache.nowrite
      then (entry, st)
      else (if ok then record entry { dirty = false } else entry, st')

  -- What `_load_block` does to the entry that `_find_free_entry` has put at the head.
  unfoldable pub load_entry :
      Bufcache → State → (entry : Buf) → (others : List Buf) → (num : ℕ) → Got State
  load_entry cache st entry others num =
      let (block, ok) =
        dev_read st (block_position cache.block_size num) cache.block_size entry.block in
      let loaded = record entry {
        refcount = if ok then 1 else 0;
        num = num;
        dirty = false;
        block = block;
      } in
      got (if ok then some entry.node else none) (record cache { blocks = loaded ∷ others }) st

  -- `_load_block` with `_find_free_entry` and `_create_entry`; `fresh` is none if there is no memory.
  unfoldable pub load_block : Bufcache → State → (fresh : Option Ptr) → (num : ℕ) → Got State
  unfolding find_last_free write_entry load_entry
  load_block cache st fresh num =
      if not cache.has_dev
      then got none cache st
      else if ltb cache.num_entries bufcache_max
      then elim fresh [
        | none ↦ got none cache st
        | some p ↦
            load_entry (record cache { num_entries = cache.num_entries + 1 }) st
              (record { node = p; refcount = 0; dirty = false; num = 0; block = λ _. 0 })
              cache.blocks num
      ]
      else elim (find_last_free cache.blocks) [
        | none ↦ panicked
        | some r ↦
            let (last, st') = if r.0.num == 0 then (r.0, st) else write_entry cache st r.0 in
            load_entry cache st' last r.1 num
      ]

  unfoldable pub get_block : Bufcache → State → (fresh : Option Ptr) → (num : ℕ) → Got State
  unfolding find_block load_block
  get_block cache st fresh num = elim (find_block num cache.blocks) [
    | some r ↦
        got (some r.0.node)
          (record cache { blocks = record (r.0) { refcount = r.0.refcount + 1 } ∷ r.1 }) st
    | none ↦ load_block cache st fresh num
  ]

  -- The loop of `sync_bufcache`.
  unfoldable pub sync_blocks : Bufcache → State → List Buf → List Buf × State
  unfolding write_entry
  sync_blocks cache st [] = ([], st)
  sync_blocks cache st (cur ∷ blocks) =
      let (cur', st') = write_entry cache st cur in
      let (rest, st'') = sync_blocks cache st' blocks in (cur' ∷ rest, st'')

  unfoldable pub sync_bufcache : Bufcache → State → Bufcache × State
  unfolding sync_blocks
  sync_bufcache cache st =
      let (blocks, st') = sync_blocks cache st cache.blocks in
      (record cache { blocks = blocks }, st')
