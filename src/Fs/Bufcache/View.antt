-- ===== src/Fs/Bufcache/View.antt =====
-- What a cache stands for: the blocks of the device, with those that it holds in their place.
use gloworm.Prelude.{
  ℕ, ◌+◌, ◌*◌, ◌%◌, ◌<◌, ◌≤◌, ◌⊎◌, ltb, ltb→lt, ◌≡◌, ◌≢◌, refl, sym, ap, subst, Bool, true, false,
  Option, none, some, List, [], ◌∷◌, ◌++◌, inl, inr, ◌==◌, if◌then◌else◌, Bool-cases, ==_iff,
  ==_refl, ne→==, arith,
}
use native.Mathlib.Nat.{mul-le-mul_left, mod-eq_of_lt}
use gloworm.Fs.Bufcache.{Bytes, Buf, block_position, find_block, find_last_free}

-- The block `num` as its users see it, over what the device holds.
abbrev pub view : (disk : ℕ → Bytes) → List Buf → ℕ → Bytes
view disk [] num = disk num
view disk (b ∷ blocks) num = if b.num == num then b.block else view disk blocks num

abbrev pub All : (Buf → Type 0) → List Buf → Type 0
All P [] = Unit
All P (b ∷ blocks) = P b × All P blocks

-- Each block stands in the cache once.
abbrev pub Unique : List Buf → Type 0
Unique [] = Unit
Unique (b ∷ blocks) = All (λ c. c.num ≢ b.num) blocks × Unique blocks

-- The block ends at byte position 2 ^ 32 at most, so that the product of its position does not wrap.
abbrev pub InRange : (size num : ℕ) → Type 0
InRange size num = num * size + size ≤ 4294967296

-- An entry that need not be written holds what the device does.
abbrev pub InStep : (size : ℕ) (disk : ℕ → Bytes) → Buf → Type 0
InStep size disk b = ((b.num ≢ 0) × InRange size b.num) × (b.dirty ≡ false → b.block ≡ disk b.num)

later_block :
    (size m n : ℕ)
    → 0 < size
    → m < n
    → InRange size n
    → block_position size m + size ≤ block_position size n
later_block size m n pos lt range =
    let product : m * size + size ≤ n * size = omega (arith, mul-le-mul_left size lt) in
    let low : m * size % 4294967296 ≡ m * size =
      mod-eq_of_lt (omega (arith, product, range, pos)) in
    let high : n * size % 4294967296 ≡ n * size = mod-eq_of_lt (omega (arith, range, pos)) in
    rw (low, high) product

-- Two blocks lie apart on the device.
pub positions_apart :
    (size m n : ℕ)
    → 0 < size
    → InRange size m
    → InRange size n
    → m ≢ n
    → (block_position size m + size ≤ block_position size n)
      ⊎ (block_position size n + size ≤ block_position size m)
positions_apart size m n pos rm rn ne = elim (Bool-cases (ltb m n)) [
  | inl e ↦ inl (later_block size m n pos (ltb→lt _ _ e) rn)
  | inr e ↦ inr (later_block size n m pos (ground (arith, e, ne)) rm)
]

pub All-mono :
    (P Q : Buf → Type 0) (blocks : List Buf) → ((b : Buf) → P b → Q b) → All P blocks → All Q blocks
All-mono P Q [] h a = tt
All-mono P Q (b ∷ blocks) h (p, a) = (h b p, All-mono P Q blocks h a)

-- An entry taken out of a list: it was of it, and the others are as they were.
pub record Picked (blocks : List Buf) (b : Buf) (rest : List Buf) : Type 0 where
  pub before : List Buf
  pub behind : List Buf
  pub whole : blocks ≡ before ++ b ∷ behind
  pub left : rest ≡ before ++ behind
  pub unique : Unique blocks → Unique rest × All (λ c. c.num ≢ b.num) rest
  pub shows : Unique blocks → (disk : ℕ → Bytes) → view disk blocks b.num ≡ b.block
  pub others :
      (disk : ℕ → Bytes) (num : ℕ) → num ≢ b.num → view disk rest num ≡ view disk blocks num

All-middle :
    (P : Buf → Type 0) (before : List Buf) (b : Buf) (behind : List Buf)
    → All P (before ++ b ∷ behind)
    → P b × All P (before ++ behind)
All-middle P [] b behind a = a
All-middle P (c ∷ before) b behind (p, a) =
    let (pb, rest) = All-middle P before b behind a in (pb, (p, rest))

pub Picked-All :
    (P : Buf → Type 0) (blocks : List Buf) (b : Buf) (rest : List Buf)
    → Picked blocks b rest
    → All P blocks
    → P b × All P rest
Picked-All P blocks b rest p a =
    subst (λ r. P b × All P r) (sym p.left)
      (All-middle P p.before b p.behind (subst (λ r. All P r) p.whole a))

pick_later :
    (c b : Buf) (blocks rest : List Buf) → Picked blocks b rest → Picked (c ∷ blocks) b (c ∷ rest)
pick_later c b blocks rest p = record {
  before = c ∷ p.before;
  behind = p.behind;
  whole = ap (λ r. c ∷ r) p.whole;
  left = ap (λ r. c ∷ r) p.left;
  unique = λ u.
      let (ne, away) = Picked-All (λ d. d.num ≢ c.num) blocks b rest p u.0 in
      let (ur, ab) = p.unique u.1 in ((away, ur), ((λ e. ne (sym e)), ab));
  shows = λ u disk.
      let (ne, _) = Picked-All (λ d. d.num ≢ c.num) blocks b rest p u.0 in
      rw (ne→== c.num b.num (λ e. ne (sym e))) (p.shows u.1 disk);
  others = λ disk num ne. ground (arith, p.others disk num ne);
}

pick_first : (b : Buf) (blocks : List Buf) → Picked (b ∷ blocks) b blocks
pick_first b blocks = record {
  before = [];
  behind = blocks;
  whole = refl;
  left = refl;
  unique = λ u. (u.1, u.0);
  shows = λ u disk. rw (==_refl b.num) refl;
  others = λ disk num ne. ground (arith, ne);
}

-- What the search for a block returns.
abbrev pub Found : (num : ℕ) → List Buf → Option (Buf × List Buf) → Type 0
Found num blocks none = All (λ c. c.num ≢ num) blocks
Found num blocks (some r) =
    (r.0.num ≡ num)
    × Picked blocks r.0 r.1
    × ((disk : ℕ → Bytes) → view disk blocks num ≡ r.0.block)

pub find_block-Found : (num : ℕ) (blocks : List Buf) → Found num blocks (find_block num blocks)
unfolding find_block
find_block-Found num [] = tt
find_block-Found num (b ∷ blocks) = elim (Bool-cases (b.num == num)) [
  | inl e ↦ rw e ((==_iff _ _).0 e, pick_first b blocks, λ disk. rw e refl)
  | inr e ↦ rw e (later (find_block num blocks) (find_block-Found num blocks) e)
]
  where
    later :
        (r : Option (Buf × List Buf))
        → Found num blocks r
        → (b.num == num) ≡ false
        → Found num (b ∷ blocks) (elim r as (λ _. Option (Buf × List Buf)) [
          | none ↦ none
          | some r ↦ some (r.0, b ∷ r.1)
        ])
    later none f e = ((λ x. ground (arith, x, e)), f)
    later (some r) (at, p, shows) e = (at, pick_later b r.0 blocks r.1 p, λ disk. rw e (shows disk))

abbrev pub FreeFound : List Buf → Option (Buf × List Buf) → Type 0
FreeFound blocks none = All (λ c. c.refcount ≢ 0) blocks
FreeFound blocks (some r) = (r.0.refcount ≡ 0) × Picked blocks r.0 r.1

pub find_last_free-FreeFound : (blocks : List Buf) → FreeFound blocks (find_last_free blocks)
unfolding find_last_free
find_last_free-FreeFound [] = tt
find_last_free-FreeFound (b ∷ blocks) =
    later (find_last_free blocks) (find_last_free-FreeFound blocks)
  where
    here :
        (e : Bool)
        → (b.refcount == 0) ≡ e
        → All (λ c. c.refcount ≢ 0) blocks
        → FreeFound (b ∷ blocks) (if e then some (b, blocks) else none)
    here true e a = ((==_iff _ _).0 e, pick_first b blocks)
    here false e a = ((λ x. ground (arith, x, e)), a)

    later :
        (r : Option (Buf × List Buf))
        → FreeFound blocks r
        → FreeFound (b ∷ blocks) (elim r as (λ _. Option (Buf × List Buf)) [
          | some r ↦ some (r.0, b ∷ r.1)
          | none ↦ if b.refcount == 0 then some (b, blocks) else none
        ])
    later none f = here (b.refcount == 0) refl f
    later (some r) (zero_count, p) = (zero_count, pick_later b r.0 blocks r.1 p)

pub view-absent :
    (disk : ℕ → Bytes) (blocks : List Buf) (num : ℕ)
    → All (λ c. c.num ≢ num) blocks
    → view disk blocks num ≡ disk num
view-absent disk [] num a = refl
view-absent disk (b ∷ blocks) num (ne, a) = rw (ne→== b.num num ne) (view-absent disk blocks num a)

pub view-disk :
    (disk disk' : ℕ → Bytes) (blocks : List Buf) (num : ℕ)
    → disk' num ≡ disk num
    → view disk' blocks num ≡ view disk blocks num
view-disk disk disk' [] num e = e
view-disk disk disk' (b ∷ blocks) num e = ground (arith, view-disk disk disk' blocks num e)
