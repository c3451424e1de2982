-- ===== src/Fs/Bufcache/Sync.antt =====
-- What `sync_bufcache` leaves on the device, and what a read that fails leaves in the cache.
use gloworm.Prelude.{
  ℕ, ◌+◌, ◌<◌, ◌≡◌, ◌≢◌, refl, sym, ap, ◌∙◌, true, false, Option, none, some, List, [], ◌∷◌, inl,
  inr, ◌==◌, Bool-cases, ==_iff, ==_refl, ne→==, lt→ltb, arith,
}
use gloworm.Utils.Queue.{Ptr}
use gloworm.Fs.Bufcache.{
  Device, Buf, Bufcache, got, bufcache_max, block_position, find_block, write_entry, load_entry,
  load_block, get_block, sync_blocks, sync_bufcache,
}
use gloworm.Fs.Bufcache.View.{view, All, Unique, InRange, InStep, view-absent, view-disk}
use gloworm.Fs.Bufcache.Flush.{
  disk_of, IsValid, TakesWrites, Flushed, write_entry-Flushed, kept_steps,
}

find_block-absent :
    (num : ℕ) (blocks : List Buf) → All (λ c. c.num ≢ num) blocks → find_block num blocks ≡ none
unfolding find_block
find_block-absent num [] a = refl
find_block-absent num (b ∷ blocks) (ne, a) =
    rw (ne→== b.num num ne, find_block-absent num blocks a) refl

module _ (dev : Device) where
  open dev use {State, dev_read}

  -- The entries have been written: the device holds each block as its users saw it, and the cache
  -- shows the same.
  pub record Synced (size : ℕ) (st st' : State) (blocks blocks' : List Buf) : Type 0 where
    pub written :
        (n : ℕ) → InRange size n → disk_of dev size st' n ≡ view (disk_of dev size st) blocks n
    pub shown :
        (n : ℕ)
        → InRange size n
        → view (disk_of dev size st') blocks' n ≡ view (disk_of dev size st) blocks n
    pub clean : All (λ b. b.dirty ≡ false) blocks'

  written_first :
      (size : ℕ) (st st1 : State) (b b' : Buf) (blocks : List Buf) (n : ℕ)
      → InRange size n
      → Flushed dev size st st1 b b'
      → All (λ c. c.num ≢ b.num) blocks
      → view (disk_of dev size st1) blocks n ≡ view (disk_of dev size st) (b ∷ blocks) n
  written_first size st st1 b b' blocks n r f apart = elim (Bool-cases (b.num == n)) [
    | inl e ↦
        let at = (==_iff _ _).0 e in
        rw e (
          ap (λ k. view (disk_of dev size st1) blocks k) (sym at)
          ∙ view-absent (disk_of dev size st1) blocks b.num apart
          ∙ f.written)
    | inr e ↦ rw e (
        view-disk (disk_of dev size st) (disk_of dev size st1) blocks n
          (f.others n r (λ x. ground (arith, x, e))))
  ]

  sync_blocks-Synced :
      (cache : Bufcache) (st : State) (blocks : List Buf)
      → TakesWrites dev
      → cache.nowrite ≡ false
      → 0 < cache.block_size
      → Unique blocks
      → All (InStep cache.block_size (disk_of dev cache.block_size st)) blocks
      → let (blocks', st') = sync_blocks dev cache st blocks in
        Synced cache.block_size st st' blocks blocks'
  unfolding sync_blocks
  sync_blocks-Synced cache st [] takes saves sized u s = record {
    written = λ n r. refl;
    shown = λ n r. refl;
    clean = tt;
  }
  sync_blocks-Synced cache st (b ∷ blocks) takes saves sized (apart, u) (step, steps) =
      let size = cache.block_size in
      let f = write_entry-Flushed dev cache st b takes saves sized step in
      let (b', st1) = write_entry dev cache st b in
      let ih =
        sync_blocks-Synced cache st1 blocks takes saves sized u
          (kept_steps dev size st st1 b b' blocks f apart steps) in
      record {
        written = λ n r. ih.written n r ∙ written_first size st st1 b b' blocks n r f apart;
        shown = λ n r. elim (Bool-cases (b.num == n)) [
          | inl e ↦ rw (f.num, e) f.block
          | inr e ↦
              rw (f.num, e)
                (ih.shown n r
                  ∙ view-disk (disk_of dev size st) (disk_of dev size st1) blocks n
                      (f.others n r (λ x. ground (arith, x, e))))
        ];
        clean = (f.clean, ih.clean);
      }

  -- If each block stands in the cache once, none is block 0 or ends past byte position 2 ^ 32,
  -- entries that are not dirty hold what the device does and dirty ones are written, the size of a
  -- block is not 0, and the device takes all writes, then behind `sync_bufcache` the device holds, at
  -- its byte position, every block that ends at 2 ^ 32 at most as its users saw it, they see the same
  -- as before, and no entry is dirty.
  pub sync_bufcache-Synced :
      (cache : Bufcache) (st : State)
      → TakesWrites dev
      → IsValid dev cache st
      → let (cache', st') = sync_bufcache dev cache st in
        Synced cache.block_size st st' cache.blocks cache'.blocks
  unfolding sync_bufcache
  sync_bufcache-Synced cache st takes v =
      sync_blocks-Synced cache st cache.blocks takes v.saves v.sized v.unique v.in_step

  -- A block that is not in the cache and cannot be read: with a device, room for one more entry and
  -- the memory for it, `get_block` returns null, and called again returns the entry, which holds
  -- what the read left in its buffer and not what the device does.
  pub get_block-failed :
      (cache : Bufcache) (st : State) (p : Ptr) (fresh : Option Ptr) (num : ℕ)
      → cache.has_dev ≡ true
      → cache.num_entries < bufcache_max
      → All (λ c. c.num ≢ num) cache.blocks
      → (dev_read st (block_position cache.block_size num) cache.block_size (λ _. 0)).1 ≡ false
      → (cache1 cache2 : Bufcache) × (get_block dev cache st (some p) num ≡ got none cache1 st)
        × (get_block dev cache1 st fresh num ≡ got (some p) cache2 st)
        × (cache2.blocks
            ≡ record {
              node = p;
              refcount = 1;
              dirty = false;
              num = num;
              block =
                  (dev_read st (block_position cache.block_size num) cache.block_size (λ _. 0)).0;
            }
              ∷ cache.blocks)
  unfolding get_block load_block load_entry find_block
  get_block-failed cache st p fresh num set room absent fails =
      let has_room = lt→ltb cache.num_entries bufcache_max room in
      let left : ℕ → Buf = λ count. record {
        node = p;
        refcount = count;
        dirty = false;
        num = num;
        block = (dev_read st (block_position cache.block_size num) cache.block_size (λ _. 0)).0;
      } in
      let after : ℕ → Bufcache = λ count. record cache {
        num_entries = cache.num_entries + 1;
        blocks = left count ∷ cache.blocks;
      } in
      (
        after 0,
        after 1,
        rw
            (
              get_block,
              find_block-absent num cache.blocks absent,
              load_block,
              set,
              has_room,
              load_entry,
              fails,
            )
            refl,
        rw (get_block, find_block, ==_refl num) refl,
        refl,
      )
