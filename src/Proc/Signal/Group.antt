-- ===== src/Proc/Signal/Group.antt =====
-- A signal to a process group: the loop over the table ends.
use gloworm.Prelude.{
  ℕ, zero, suc, ◌+◌, ◌-◌, ◌<◌, ◌≤◌, ◌≡◌, inl, inr, refl, false, Option, none, some, arith, ◌==◌,
  leb, if◌then◌else◌, Bool-cases,
}
use gloworm.Utils.Queue.{Ptr, null}
use gloworm.Proc.{Kernel, max_processes}
use gloworm.Proc.Table.{proc_iter_next}
use gloworm.Proc.Signal.{dispatch_signal, send_group_from, send_signal_process_group}

-- What the iterator returns: the end of the table, or a process and the slot behind it, which lies
-- ahead and in the table.
abbrev Iterated : (slot : ℕ) → Option (Ptr × ℕ) → Type 0
Iterated slot none = ⊥
Iterated slot (some (p, slot')) = (p == null) ≡ false → (slot < slot') × (slot' ≤ max_processes)

proc_iter_next-Iterated :
    (n : ℕ) (k : Kernel) (slot : ℕ)
    → max_processes - slot < n
    → Iterated slot (proc_iter_next n k slot)
unfolding proc_iter_next
proc_iter_next-Iterated zero k slot l = absurd (omega arith)
proc_iter_next-Iterated (suc n) k slot l = elim (Bool-cases (leb max_processes slot)) [
  | inl a ↦ rw a (λ h. absurd (cc))
  | inr a ↦ elim (Bool-cases (k.process_list slot == null)) [
    | inl b ↦
        rw (a, b)
          (later (proc_iter_next n k (slot + 1))
            (proc_iter_next-Iterated n k (slot + 1) (ground (arith, a, l))))
    | inr b ↦ rw (a, b) (λ h. (omega arith, ground (arith, a)))
  ]
]
  where
    later : (r : Option (Ptr × ℕ)) → Iterated (slot + 1) r → Iterated slot r
    later none i = i
    later (some r) i = λ h. let (ahead, bound) = i h in (omega (arith, ahead), bound)

send_group_from-total :
    (fuel : ℕ) (k : Kernel) (slot pgid signum : ℕ)
    → max_processes - slot < fuel
    → (k' : Kernel) × (send_group_from fuel k slot pgid signum ≡ some k')
unfolding send_group_from
send_group_from-total zero k slot pgid signum l = ground (arith, l)
send_group_from-total (suc fuel) k slot pgid signum l =
    goes_on (proc_iter_next (max_processes + 1) k slot)
      (proc_iter_next-Iterated (max_processes + 1) k slot (omega arith))
      (λ k' slot' ahead bound.
        send_group_from-total fuel k' slot' pgid signum (omega (arith, ahead, bound, l)))
  where
    goes_on :
        (r : Option (Ptr × ℕ))
        → Iterated slot r
        → ((k1 : Kernel) (slot' : ℕ)
            → slot < slot'
            → slot' ≤ max_processes
            → (k' : Kernel) × (send_group_from fuel k1 slot' pgid signum ≡ some k'))
        → (k' : Kernel) × ((elim r as (λ _. Option Kernel) [
          | none ↦ none
          | some r ↦
              let k' = if (k.procs r.0).pgid == pgid then (dispatch_signal k r.0 signum).1 else k in
              let rest = send_group_from fuel k' r.1 pgid signum in
              if r.0 == null then some k else rest
        ])
            ≡ some k')
    goes_on none i ends = absurd i
    goes_on (some r) i ends = elim (Bool-cases (r.0 == null)) [
      | inl a ↦ rw a (k, refl)
      | inr a ↦ let (ahead, bound) = i a in rw a (ends _ r.1 ahead bound)
    ]

-- `send_signal_process_group` ends: the fuel of its loop and that of the iterator, which has a result
-- of its own for fuel that ran out, are enough, whatever the signals change in the table on the way.
pub send_group-total :
    (k : Kernel) (pgid signum : ℕ)
    → (k' : Kernel) × (send_signal_process_group k pgid signum ≡ some k')
unfolding send_signal_process_group
send_group-total k pgid signum =
    send_group_from-total (max_processes + 1) k 0 pgid signum (omega arith)
