-- ===== src/Proc/Slots.antt =====
-- `next_slotnum`: the search for a free slot of the table of processes.
use gloworm.Prelude.{
  ℕ, zero, suc, ◌+◌, ◌*◌, ◌≤◌, ◌<◌, ◌≡◌, refl, sym, subst, ltb, Bool, true, false, Option, some,
  arith, ◌==◌, Bool-cases, inl, inr,
}
use gloworm.Utils.Queue.{Ptr, null}
use gloworm.Proc.{Kernel, max_processes}
use gloworm.Proc.Table.{slot_from, next_slotnum}

-- The search ends with a slot whose entry is null, and with the index behind it.
abbrev pub Found : (ℕ → Ptr) → Option (Option ℕ × ℕ) → Type 0
Found list r = (s : ℕ) × (r ≡ some (some s, s + 1)) × (list s ≡ null) × (s ≤ max_processes)

module _ (list : ℕ → Ptr) (free : ℕ) (is_free : list free ≡ null)
    (inside : free < max_processes) where
  second_round : (fuel i : ℕ) → i ≤ free → free < i + fuel → Found list (slot_from fuel list i true)
  unfolding slot_from
  second_round zero i h f = absurd (omega arith)
  second_round (suc fuel) i h f = elim (Bool-cases (list i == null)) [
    | inl e ↦ rw e (i, refl, ground arith, omega arith)
    | inr e ↦
        let rest = second_round fuel (i + 1) (ground arith) (omega arith) in
        (rest.0, ground arith, rest.2, rest.3)
  ]

  first_round :
      (fuel i : ℕ)
      → i ≤ max_processes
      → max_processes + 1 + free < i + fuel
      → Found list (slot_from fuel list i false)
  unfolding slot_from
  first_round zero i h f = absurd (omega arith)
  first_round (suc fuel) i h f = elim (Bool-cases (list i == null)) [
    | inl e ↦ rw e (i, refl, ground arith, h)
    | inr e ↦ elim (Bool-cases (ltb max_processes (i + 1))) [
      | inl past ↦
          let rest = second_round fuel 0 (omega arith) (ground arith) in
          rw (e, past) (rest.0, rest.1, rest.2, rest.3)
      | inr more ↦
          let rest = first_round fuel (i + 1) (ground arith) (omega arith) in
          rw (e, more) (rest.0, rest.1, rest.2, rest.3)
    ]
  ]

-- With a free slot in the table, and a search that starts at most one slot behind it,
-- `next_slotnum` ends by the fuel that it is given and finds a slot whose entry is null.
next_slotnum_lem :
    (k : Kernel) (free : ℕ)
    → k.process_list free ≡ null
    → free < max_processes
    → k.next_process_slot ≤ max_processes
    → Found k.process_list (next_slotnum k)
unfolding next_slotnum
next_slotnum_lem k free h inside start =
    first_round k.process_list free h inside (2 * max_processes + 4) k.next_process_slot start
      (omega arith)

slot_here :
    (fuel : ℕ) (list : ℕ → Ptr) (i : ℕ) (once : Bool)
    → list i ≡ null
    → slot_from (suc fuel) list i once ≡ some (some i, i + 1)
unfolding slot_from
slot_here fuel list i once h = rw h

-- `next_slotnum` may return a slot behind the table: a search that starts there takes the word
-- behind the last entry for an entry, and returns `CONFIG_MAX_PROCESSES` if that word is null.
next_slotnum_past_end :
    (k : Kernel)
    → k.next_process_slot ≡ max_processes
    → k.process_list max_processes ≡ null
    → next_slotnum k ≡ some (some max_processes, max_processes + 1)
unfolding next_slotnum
next_slotnum_past_end k e h =
    subst (λ i. slot_from 204 k.process_list i false ≡ some (some max_processes, max_processes + 1))
      (sym e) (slot_here 203 k.process_list max_processes false h)
