-- ===== src/Proc/Filedesc/Balance.antt =====
-- The references that a copy of a table takes and that its release gives back.
use gloworm.Prelude.{
  ℕ, zero, suc, ◌+◌, ◌<◌, ◌≤◌, ◌≡◌, ◌≢◌, refl, sym, ap, ◌∙◌, List, [], ◌∷◌, inl, inr, ◌==◌,
  if◌then◌else◌, Bool-cases, ==_iff, ==_refl, ne→==, update, arith,
}
use gloworm.Utils.Queue.{Ptr, null}
use gloworm.Proc.Filedesc.{
  FdTable, open_max, init_fd_table, release_from, release_fd_table, dup_from, dup_fd_table,
}

-- The files of `n` descriptors from `i` on.
abbrev opened : (n i : ℕ) → (files : ℕ → Ptr) → List Ptr
opened zero i files = []
opened (suc n) i files =
    let rest = opened n (i + 1) files in if files i == null then rest else files i ∷ rest

opened_cong :
    (n i : ℕ) (f g : ℕ → Ptr)
    → ((j : ℕ) → i ≤ j → j < i + n → f j ≡ g j)
    → opened n i f ≡ opened n i g
opened_cong zero i f g e = refl
opened_cong (suc n) i f g e =
    rw
      (
        e i (omega arith) (omega arith),
        opened_cong n (i + 1) f g (λ j h l. e j (omega arith) (omega arith)),
      )
      refl

update_apart : (files : ℕ → Ptr) (i j : ℕ) (p : Ptr) → j ≢ i → update files i p j ≡ files j
update_apart files i j p ne = rw (ne→== j i ne) refl

release-opened : (n i : ℕ) (table : FdTable) → (release_from n i table).1 ≡ opened n i table.files
unfolding release_from
release-opened zero i table = refl
release-opened (suc n) i table =
    let cleared : FdTable = record { files = update table.files i null } in
    elim (Bool-cases (table.files i == null)) [
      | inl e ↦ rw e (release-opened n (i + 1) table)
      | inr e ↦ rw e (
          ap (λ l. table.files i ∷ l)
            (release-opened n (i + 1) cleared
              ∙ opened_cong n (i + 1) (update table.files i null) table.files
                  (λ j h l. update_apart table.files i j null (λ e. omega (arith, e)))))
    ]

dup-opened :
    (n i : ℕ) (dest source : FdTable) → (dup_from n i dest source).1 ≡ opened n i source.files
unfolding dup_from
dup-opened zero i dest source = refl
dup-opened (suc n) i dest source = elim (Bool-cases (source.files i == null)) [
  | inl e ↦ rw e (dup-opened n (i + 1) dest source)
  | inr e ↦ rw e (ap (λ l. source.files i ∷ l) (dup-opened n (i + 1) _ source))
]

-- A table that is empty from `i` on gets the files of the source.
dup-files :
    (n i : ℕ) (dest source : FdTable)
    → ((j : ℕ) → i ≤ j → dest.files j ≡ null)
    → (j : ℕ)
    → (j < i → (dup_from n i dest source).0.files j ≡ dest.files j)
      × (i ≤ j → j < i + n → (dup_from n i dest source).0.files j ≡ source.files j)
unfolding dup_from
dup-files zero i dest source e j = (λ l. refl, λ h l. absurd (omega arith))
dup-files (suc n) i dest source e j = elim (Bool-cases (source.files i == null)) [
  | inl f ↦
      let (below, above) = dup-files n (i + 1) dest source (λ k h. e k (omega arith)) j in
      rw f (
        λ l. below (omega arith),
        λ h l. elim (Bool-cases (j == i)) [
          | inl x ↦
              below (ground (arith, x))
              ∙ e j h
              ∙ sym (ap source.files ((==_iff j i).0 x) ∙ (==_iff (source.files i) null).0 f)
          | inr x ↦ above (ground (arith, x)) (omega arith)
        ],
      )
  | inr f ↦
      let copied : FdTable = record { files = update dest.files i (source.files i) } in
      let (below, above) =
        dup-files n (i + 1) copied source
          (λ k h.
            update_apart dest.files i k (source.files i) (λ x. omega (arith, x))
            ∙ e k (omega arith))
          j in
      rw f (
        λ l.
            below (omega arith)
            ∙ update_apart dest.files i j (source.files i) (λ x. omega (arith, x)),
        λ h l. elim (Bool-cases (j == i)) [
          | inl x ↦ below (ground (arith, x)) ∙ copied_at j ((==_iff j i).0 x)
          | inr x ↦ above (ground (arith, x)) (omega arith)
        ],
      )
]
  where
    copied_at : (k : ℕ) → k ≡ i → update dest.files i (source.files i) k ≡ source.files k
    copied_at k x = rw (x, ==_refl i) refl

-- `dup_fd_table` of a whole table into a new one, as `fork` calls it, and `release_fd_table` of that:
-- the new table has the file of each descriptor, and the release closes the files that the copy has
-- cloned, each as many times.
pub release-dup_fd_table :
    (source : FdTable)
    → let copy = dup_fd_table init_fd_table source 0 in
      ((j : ℕ) → j < open_max → copy.0.files j ≡ source.files j)
      × ((release_fd_table copy.0).1 ≡ copy.1)
unfolding dup_fd_table release_fd_table init_fd_table
release-dup_fd_table source =
    let copied = dup-files open_max 0 init_fd_table source (λ j h. refl) in
    let dest = (dup_from open_max 0 init_fd_table source).0 in
    (
      λ j l. (copied j).1 (omega arith) (omega arith),
      release-opened open_max 0 dest
          ∙ opened_cong open_max 0 dest.files source.files (λ j h l. (copied j).1 h l)
          ∙ sym (dup-opened open_max 0 init_fd_table source),
    )
