-- ===== src/Fs/Bufcache/Load.antt =====
-- What `get_block` does to the blocks as their users see them.
use gloworm.Prelude.{ℕ, ◌<◌, ◌≤◌, ◌≡◌, ◌≢◌, false, Option, none, some, List, ◌∷◌, ◌⊎◌}
use gloworm.Utils.Queue.{Ptr}
use gloworm.Fs.Bufcache.{
  Bytes, Device, Buf, Bufcache, Got, got, panicked, bufcache_max, block_position,
}
use gloworm.Fs.Bufcache.View.{view, All, InRange}
use gloworm.Fs.Bufcache.Flush.{disk_of, IsValid}

module _ (dev : Device) where
  open dev use {State, dev_read, read_all}

  -- The block `num` at the head, as it was for its users, with someone who refers to it.
  pub record AtHead (p : Ptr) (num : ℕ) (b : Bytes) (blocks : List Buf) : Type 0 where
    pub head : Buf
    pub others : List Buf
    pub is_list : blocks ≡ head ∷ others
    pub node : head.node ≡ p
    pub block : (head.num ≡ num) × (head.block ≡ b)
    pub held : 0 < head.refcount

  -- Why a block cannot be loaded: no device, no memory for an entry, or a read of it that fails.
  abbrev pub CannotLoad : Bufcache → (fresh : Option Ptr) → (num : ℕ) → State → Type 0
  CannotLoad cache fresh num st =
      (cache.has_dev ≡ false)
      ⊎ (cache.num_entries < bufcache_max) × (fresh ≡ none)
      ⊎ (b : Bytes) × ((dev_read st (block_position cache.block_size num) cache.block_size b).1
          ≡ false)

  -- The block `n` looks as before.
  abbrev pub Same : Bufcache → State → Bufcache → State → (n : ℕ) → Type 0
  Same cache st cache' st' n =
      view (disk_of dev cache.block_size st') cache'.blocks n
      ≡ view (disk_of dev cache.block_size st) cache.blocks n

  -- What a call of `get_block` did.
  abbrev pub Served : Bufcache → State → (fresh : Option Ptr) → (num : ℕ) → Got State → Type 0
  Served cache st fresh num (got (some p) cache' st') =
      IsValid dev cache' st'
      × ((n : ℕ) → InRange cache.block_size n → Same cache st cache' st' n)
      × AtHead p num (view (disk_of dev cache.block_size st) cache.blocks num) cache'.blocks
  Served cache st fresh num (got none cache' st') =
      All (λ c. c.num ≢ num) cache.blocks
      × CannotLoad cache fresh num st'
      × ((n : ℕ) → InRange cache.block_size n → n ≢ num → Same cache st cache' st' n)
  Served cache st fresh num panicked =
      All (λ c. c.num ≢ num) cache.blocks
      × (bufcache_max ≤ cache.num_entries)
      × All (λ b. b.refcount ≢ 0) cache.blocks
