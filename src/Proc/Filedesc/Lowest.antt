-- ===== src/Proc/Filedesc/Lowest.antt =====
-- The descriptor that a new file gets.
use gloworm.Prelude.{
  ℕ, zero, suc, ◌+◌, ◌<◌, ◌≤◌, ◌≡◌, ◌≢◌, refl, sym, ap, ◌∙◌, Option, none, some, inl, inr, ◌==◌,
  Bool-cases, ==_iff, arith,
}
use gloworm.Utils.Queue.{null}
use gloworm.Proc.Filedesc.{FdTable, open_max, unused_from, find_unused_fd}

-- The lowest descriptor from `i` on and below `end` that has no file, or none if there is none.
abbrev pub IsUnused : (i end : ℕ) → FdTable → Option ℕ → Type 0
IsUnused i end table none = (j : ℕ) → i ≤ j → j < end → table.files j ≢ null
IsUnused i end table (some fd) =
    (i ≤ fd)
    × (fd < end)
    × (table.files fd ≡ null)
    × ((j : ℕ) → i ≤ j → j < fd → table.files j ≢ null)

later :
    (i end : ℕ) (table : FdTable)
    → table.files i ≢ null
    → (r : Option ℕ) → IsUnused (i + 1) end table r
    → IsUnused i end table r
later i end table taken none u = λ j h l. elim (Bool-cases (j == i)) [
  | inl e ↦ λ x. taken (ap table.files (sym ((==_iff j i).0 e)) ∙ x)
  | inr e ↦ u j (ground (arith, e)) l
]
later i end table taken (some fd) (h, l, free, u) = (
  omega (arith, h),
  l,
  free,
  λ j h' l'. elim (Bool-cases (j == i)) [
    | inl e ↦ λ x. taken (ap table.files (sym ((==_iff j i).0 e)) ∙ x)
    | inr e ↦ u j (ground (arith, e)) l'
  ],
)

unused_from-IsUnused :
    (n i end : ℕ) (table : FdTable) → end ≡ i + n → IsUnused i end table (unused_from n i table)
unfolding unused_from
unused_from-IsUnused zero i end table e = λ j h l. absurd (omega (arith, e))
unused_from-IsUnused (suc n) i end table e = elim (Bool-cases (table.files i == null)) [
  | inl f ↦ rw f (
    omega arith,
    omega (arith, e),
    (==_iff (table.files i) null).0 f,
    λ j h l. absurd (omega arith),
  )
  | inr f ↦ rw f (
      later i end table (λ x. ground (arith, x, f)) (unused_from n (i + 1) table)
        (unused_from-IsUnused n (i + 1) end table (omega (arith, e))))
]

-- `find_unused_fd` returns the lowest descriptor that has no file, and EMFILE only if each of the
-- twenty has one.
pub find_unused_fd-IsUnused : (table : FdTable) → IsUnused 0 open_max table (find_unused_fd table)
unfolding find_unused_fd
find_unused_fd-IsUnused table = unused_from-IsUnused open_max 0 open_max table refl
