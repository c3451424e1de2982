-- ===== src/Fs/Bufcache/Flush.antt =====
-- What the write of an entry does to the device, and to the blocks that the cache shows.
use gloworm.Prelude.{
  ℕ, ◌<◌, ◌≡◌, ◌≢◌, refl, sym, ◌∙◌, true, false, List, [], ◌∷◌, inl, inr, ◌==◌, Bool-cases, ==_iff,
  arith,
}
use gloworm.Fs.Bufcache.{Bytes, Device, Buf, Bufcache, block_position, write_entry}
use gloworm.Fs.Bufcache.View.{
  view, All, Unique, InRange, InStep, positions_apart, Picked, view-absent, view-disk,
}

module _ (dev : Device) where
  open dev use {State, dev_read, dev_write, contents, read_all, write_all, write_only}

  -- What each block of the device holds.
  abbrev pub disk_of : (size : ℕ) → State → ℕ → Bytes
  disk_of size st num = contents st (block_position size num) size

  -- Each block stands in the cache once, none is block 0 or ends past byte position 2 ^ 32, an entry
  -- that is not dirty holds what the device does, and dirty ones are written.
  pub record IsValid (cache : Bufcache) (st : State) : Type 0 where
    pub unique : Unique cache.blocks
    pub sized : 0 < cache.block_size
    pub in_step : All (InStep cache.block_size (disk_of cache.block_size st)) cache.blocks
    pub saves : cache.nowrite ≡ false

  -- The device takes all writes.
  abbrev pub TakesWrites : Type 0
  TakesWrites =
      (st : State) (position size : ℕ) (b : Bytes) → (dev_write st position size b).1 ≡ true

  -- An entry that has been written: the device holds its block, and the others as before.
  pub record Flushed (size : ℕ) (st st' : State) (b b' : Buf) : Type 0 where
    pub num : b'.num ≡ b.num
    pub block : b'.block ≡ b.block
    pub clean : b'.dirty ≡ false
    pub written : disk_of size st' b.num ≡ b.block
    pub others : (n : ℕ) → InRange size n → n ≢ b.num → disk_of size st' n ≡ disk_of size st n

  pub write_entry-Flushed :
      (cache : Bufcache) (st : State) (b : Buf)
      → TakesWrites
      → cache.nowrite ≡ false
      → 0 < cache.block_size
      → InStep cache.block_size (disk_of cache.block_size st) b
      → Flushed cache.block_size st (write_entry dev cache st b).1 b (write_entry dev cache st b).0
  unfolding write_entry
  write_entry-Flushed cache st b takes saves sized ((ne, range), clean) =
      elim (Bool-cases b.dirty) [
        | inr e ↦ rw e (record {
          num = refl;
          block = refl;
          clean = refl;
          written = sym (clean e);
          others = λ n r x. refl;
        })
        | inl e ↦
            let size = cache.block_size in
            let position = block_position size b.num in
            let ok = takes st position size b.block in
            rw (e, saves, ok)
              (record {
                num = refl;
                block = refl;
                clean = refl;
                written = write_all st position size b.block ok;
                others = λ n r x.
                    write_only st position size b.block (block_position size n) sized
                      (positions_apart size n b.num sized r range x);
              })
      ]

  -- The entry that is used again has been written, so that no block is lost with it.
  pub evicted :
      (size : ℕ) (st st' : State) (b b' : Buf) (blocks rest : List Buf)
      → Unique blocks
      → Picked blocks b rest
      → Flushed size st st' b b'
      → (n : ℕ) → InRange size n
      → view (disk_of size st') rest n ≡ view (disk_of size st) blocks n
  evicted size st st' b b' blocks rest u p f n r = elim (Bool-cases (n == b.num)) [
    | inl e ↦
        let at = (==_iff n b.num).0 e in
        rw at (
          view-absent (disk_of size st') rest b.num (p.unique u).1
          ∙ f.written
          ∙ sym (p.shows u (disk_of size st)))
    | inr e ↦
        let apart : n ≢ b.num = λ x. ground (arith, x, e) in
        view-disk (disk_of size st) (disk_of size st') rest n (f.others n r apart)
        ∙ p.others (disk_of size st) n apart
  ]

  pub kept_steps :
      (size : ℕ) (st st' : State) (b b' : Buf) (rest : List Buf)
      → Flushed size st st' b b'
      → All (λ c. c.num ≢ b.num) rest
      → All (InStep size (disk_of size st)) rest
      → All (InStep size (disk_of size st')) rest
  kept_steps size st st' b b' [] f apart steps = tt
  kept_steps size st st' b b' (c ∷ rest) f (x, apart) (((ne, range), clean), steps) = (
    ((ne, range), λ e. clean e ∙ sym (f.others c.num range x)),
    kept_steps size st st' b b' rest f apart steps,
  )
