-- ===== src/Fs/Bufcache/Examples.antt =====
-- The theorems on the cache of blocks of 1024 bytes over a device in memory that keeps what was
-- written at each byte position, and cannot read block 9.
use gloworm.Prelude.{
  ℕ, ◌+◌, ◌<◌, ◌≤◌, ◌⊎◌, inl, inr, ◌≡◌, refl, true, false, not, none, some, [], ◌∷◌, ◌==◌,
  if◌then◌else◌, update, ==_refl, ne→==, arith,
}
use gloworm.Fs.Bufcache.{Bytes, Device, Bufcache, got, get_block, sync_bufcache}
use gloworm.Fs.Bufcache.Flush.{IsValid, TakesWrites}
use gloworm.Fs.Bufcache.Sync.{Synced, sync_bufcache-Synced, get_block-failed}

written_there : (disk : ℕ → Bytes) (num : ℕ) (b : Bytes) → update disk num b num ≡ b
written_there disk num b = rw (==_refl num) refl

written_elsewhere :
    (disk : ℕ → Bytes) (position size : ℕ) (b : Bytes) (at : ℕ)
    → 0 < size
    → (at + size ≤ position) ⊎ (position + size ≤ at)
    → update disk position b at ≡ disk at
written_elsewhere disk position size b at pos (inl h) =
    rw (ne→== at position (λ e. omega (arith, e, h, pos))) refl
written_elsewhere disk position size b at pos (inr h) =
    rw (ne→== at position (λ e. omega (arith, e, h, pos))) refl

read_there :
    (disk : ℕ → Bytes) (num : ℕ) (b : Bytes)
    → not (num == 9216) ≡ true
    → (if num == 9216 then b else disk num) ≡ disk num
read_there disk num b e = ground (arith, e)

abbrev memory : Device
memory = record {
  State = ℕ → Bytes;
  dev_read = λ disk position size b.
      (if position == 9216 then b else disk position, not (position == 9216));
  dev_write = λ disk position size b. (update disk position b, true);
  contents = λ disk position size. disk position;
  read_all = λ disk position size b e. read_there disk position b e;
  write_all = λ disk position size b e. written_there disk position b;
  write_only = written_elsewhere;
}

abbrev disk : ℕ → Bytes
disk num i = num + i

-- Block 3 has been changed, block 5 has not.
abbrev two_blocks : Bufcache
two_blocks = record {
  has_dev = true;
  nowrite = false;
  block_size = 1024;
  num_entries = 2;
  blocks =
      record { node = 0x100; refcount = 1; dirty = true; num = 3; block = λ i. 7 }
      ∷ record { node = 0x200; refcount = 0; dirty = false; num = 5; block = disk 5120 }
      ∷ [];
}

two_blocks-IsValid : IsValid memory two_blocks disk
two_blocks-IsValid = record {
  unique = (((λ e. omega (arith, e)), tt), (tt, tt));
  sized = omega arith;
  in_step = (
    (((λ e. omega (arith, e)), omega arith), (λ e. absurd (cc))),
    ((((λ e. omega (arith, e)), omega arith), (λ e. refl)), tt),
  );
  saves = refl;
}

takes : TakesWrites memory
takes st position size b = refl

sync_bufcache-Synced_example :
    let (cache', st') = sync_bufcache memory two_blocks disk in
    Synced memory 1024 disk st' two_blocks.blocks cache'.blocks
sync_bufcache-Synced_example = sync_bufcache-Synced memory two_blocks disk takes two_blocks-IsValid

get_block-failed_example :
    (cache1 cache2 : Bufcache) × (get_block memory two_blocks disk (some 0x300) 9
      ≡ got none cache1 disk)
    × (get_block memory cache1 disk none 9 ≡ got (some 0x300) cache2 disk)
    × (cache2.blocks
        ≡ record { node = 0x300; refcount = 1; dirty = false; num = 9; block = λ _. 0 }
          ∷ two_blocks.blocks)
get_block-failed_example =
    get_block-failed memory two_blocks disk 0x300 none 9 refl (omega arith)
      ((λ e. omega (arith, e)), ((λ e. omega (arith, e)), tt)) refl
