-- ===== src/Proc/Signal/Pending.antt =====
-- The signals that a process holds back: which of them is taken next.
use gloworm.Prelude.{
  ℕ, zero, suc, ◌+◌, ◌/◌, ◌%◌, ◌<◌, ◌≡◌, ◌≢◌, inl, inr, refl, ◌∙◌, subst, ne→==, ==_refl, true,
  false, ◌||◌, Option, none, some, arith, ◌==◌, leb, Bool-cases,
}
use Prim.Native.Nat.{bit_or}
use gloworm.Prelude.Bits.{bit_at, bit_at-suc}
use gloworm.Utils.Queue.{Ptr}
use gloworm.Proc.{Kernel, modify}
use gloworm.Proc.Scheduler.{has_bit, clear_bits}
use gloworm.Proc.Invariant.{SameStates}
use gloworm.Proc.Signal.{
  next_signum_from, get_next_signum, signal_to_map, dispatch_signal, check_pending_signals,
}

-- What a search over the `n` lowest bits of `mask`, counted from `i`, returns.
abbrev pub Lowest : ℕ → ℕ → ℕ → Option ℕ → Type 0
Lowest n mask i none = (b : ℕ) → b < n → bit_at mask b ≡ 0
Lowest n mask i (some s) =
    (d : ℕ) × (s ≡ i + d) × (d < n) × (bit_at mask d ≡ 1) × ((b : ℕ) → b < d → bit_at mask b ≡ 0)

below :
    (n mask : ℕ)
    → mask % 2 ≢ 1
    → ((b : ℕ) → b < n → bit_at (mask / 2) b ≡ 0)
    → (b : ℕ) → b < suc n
    → bit_at mask b ≡ 0
below n mask e l zero h = ground (arith, e)
below n mask e l (suc b) h = bit_at-suc mask b ∙ l b (omega arith)

next_signum_from_lem : (n mask i : ℕ) → Lowest n mask i (next_signum_from n mask i)
unfolding next_signum_from
next_signum_from_lem zero mask i = λ b l. ground (arith, l)
next_signum_from_lem (suc n) mask i = elim (Bool-cases (mask % 2 == 1)) [
  | inl e ↦ rw e (0, omega arith, omega arith, ground arith, λ b l. ground (arith, l))
  | inr e ↦ rw e (
      further e (next_signum_from n (mask / 2) (i + 1)) (next_signum_from_lem n (mask / 2) (i + 1)))
]
  where
    further :
        (mask % 2 == 1) ≡ false
        → (o : Option ℕ) → Lowest n (mask / 2) (i + 1) o
        → Lowest (suc n) mask i o
    further even none l = λ b h. below n mask (ground (arith, even)) l b h
    further even (some s) (d, e, h, one, l) = (
      suc d,
      omega arith,
      omega arith,
      bit_at-suc mask d ∙ one,
      λ b h'. below d mask (ground (arith, even)) l b h',
    )

-- `get_next_signum` returns the lowest signal from 1 to 30 that is in the mask, and -1 if there is
-- none.
get_next_signum_lem : (mask : ℕ) → Lowest 30 mask 1 (get_next_signum mask)
unfolding get_next_signum
get_next_signum_lem mask = next_signum_from_lem 30 mask 1

dispatch_held :
    (k : Kernel) (p : Ptr) (s : ℕ)
    → (s == 0 || leb 32 s) ≡ false
    → has_bit (signal_to_map s) (k.procs p).ignored ≡ false
    → has_bit (signal_to_map s) (k.procs p).blocked_mask ≡ true
    → (dispatch_signal k p s).1
      ≡ modify k p (λ r. record r { pending = bit_or r.pending (signal_to_map s) })
unfolding dispatch_signal
dispatch_held k p s small i h = rw (small, i, h) refl

next_is_valid : (mask s : ℕ) → get_next_signum mask ≡ some s → (s == 0 || leb 32 s) ≡ false
next_is_valid mask s e =
    let low : Lowest 30 mask 1 (some s) =
      subst (λ o. Lowest 30 mask 1 o) e (get_next_signum_lem mask) in
    ground (arith, low.1, low.2)

changed_twice :
    (k : Kernel) (p : Ptr) (m : ℕ)
    → let k1 = modify k p (λ r. record r { pending = clear_bits r.pending m }) in
      let k' = modify k1 p (λ r. record r { pending = bit_or r.pending m }) in
      SameStates k k'
      × ((k'.procs p).pending ≡ bit_or (clear_bits (k.procs p).pending m) m)
      × ((k'.procs p).signal_pending ≡ (k.procs p).signal_pending)
changed_twice k p m = (
  record { run_queue = refl; blocked_queue = refl; nodes = refl; states = λ a. ground arith },
  rw (==_refl p) refl,
  rw (==_refl p) refl,
)

-- If the lowest pending signal of the current process is one that it holds back and does not
-- ignore, then `check_pending_signals` puts it back, changes no state and starts no handler,
-- although another signal is pending that is not held back.
pending_starves :
    (k : Kernel) (s : ℕ)
    → let p = k.current_proc in
      let r = k.procs p in
      clear_bits r.pending r.blocked_mask ≢ 0
      → get_next_signum r.pending ≡ some s
      → has_bit (signal_to_map s) r.ignored ≡ false
      → has_bit (signal_to_map s) r.blocked_mask ≡ true
      → let k' = check_pending_signals k in
        SameStates k k'
        × ((k'.procs p).pending ≡ bit_or (clear_bits r.pending (signal_to_map s)) (signal_to_map s))
        × ((k'.procs p).signal_pending ≡ r.signal_pending)
unfolding check_pending_signals
pending_starves k s some_free e i h =
    let p = k.current_proc in
    let k1 = modify k p λ r. record r { pending = clear_bits r.pending (signal_to_map s) } in
    let held =
      dispatch_held k1 p s (next_is_valid (k.procs p).pending s e) (ground (arith, i))
        (ground (arith, h)) in
    rw (ne→== _ _ some_free, e, held) (changed_twice k p (signal_to_map s))
