-- ===== src/Proc/Signal.antt =====
-- src/kernel/proc/signal.c: sending a signal to a process, and what it does there. The frame that
-- the machine pushes for a handler is left out.
pub mod Kept
pub mod Deliver
pub mod Pending
pub mod Group
pub mod Idle
mod Examples
use gloworm.Prelude.{
  ℕ, zero, suc, ◌+◌, ◌-◌, ◌*◌, ◌/◌, ◌%◌, ◌^◌, Bool, true, false, not, ◌||◌, Option, none, some, ltb,
  leb, ◌==◌, if◌then◌else◌, update,
}
use Prim.Native.Nat.{bit_and, bit_or}
use gloworm.Utils.Queue.{Ptr, null}
use gloworm.Proc.{Process, Kernel, SigAction, max_processes, eintr, modify}
use gloworm.Proc.Table.{get_proc, proc_iter_next}
use gloworm.Proc.Scheduler.{
  has_bit, clear_bits, pb_syscall, pb_paused, pb_dont_set_return_val, exit_proc, stop_proc,
  suspend_proc, resume_proc, resume_waiting_parent, cancel_syscall, resume_proc_without_restart,
}

abbrev pub sa_restart : ℕ
sa_restart = 0x8

abbrev pub sigcont : ℕ
sigcont = 18

abbrev pub sig_mask_default_terminate : ℕ
sig_mask_default_terminate = 0x47807FFF

abbrev pub sig_mask_default_stop : ℕ
sig_mask_default_stop = 0x003C0000

abbrev pub sig_mask_maskable : ℕ
sig_mask_maskable = 0xFFFBFEFF

-- The negative results, as they are stored in a 32-bit word.
abbrev pub esrch : ℕ
esrch = 2 ^ 32 - 3

abbrev pub einval : ℕ
einval = 2 ^ 32 - 22

-- `init_signal_data`
unfoldable pub init_signal_data : Process → Process
init_signal_data r = record r {
  ignored = 0;
  blocked_mask = 0;
  pending = 0;
  actions = λ i. if ltb i 32 then record (r.actions i) { sa_handler = null } else r.actions i;
}

-- `signal_to_map`, for a number from 1 to 32.
abbrev pub signal_to_map : ℕ → ℕ
signal_to_map signum = 2 ^ (signum - 1)

unfoldable pub get_signal_action : Kernel → Ptr → (signum : ℕ) → SigAction
get_signal_action k proc signum = (k.procs proc).actions (signum - 1)

unfoldable pub set_signal_action : Kernel → Ptr → (signum : ℕ) → SigAction → Kernel
set_signal_action k proc signum act =
    let mask = bit_and (bit_or act.sa_mask (signal_to_map signum)) sig_mask_maskable in
    modify k proc
      λ r. record r { actions = update r.actions (signum - 1) (record act { sa_mask = mask }) }

-- The action of the process for the signal has the flag `SA_RESTART`.
abbrev pub restarts : Kernel → Ptr → ℕ → Bool
restarts k proc signum = has_bit ((k.procs proc).actions (signum - 1)).sa_flags sa_restart

unfoldable pub run_signal_handler : Kernel → Ptr → (signum : ℕ) → Kernel
unfolding cancel_syscall resume_proc_without_restart
run_signal_handler k proc signum =
    let k1 =
      if has_bit (k.procs proc).bits pb_paused || not (restarts k proc signum)
      then cancel_syscall k proc
      else k in
    resume_proc_without_restart (modify k1 proc (λ r. record r { signal_pending = signum })) proc

-- The first part of `run_signal_default_action`; -1 is stored as 32 bits.
unfoldable pub default_action : Kernel → Ptr → (signum sigmask : ℕ) → Kernel
unfolding exit_proc stop_proc resume_proc
default_action k proc signum sigmask =
    if has_bit sigmask sig_mask_default_terminate
    then resume_waiting_parent (exit_proc k proc (2 ^ 32 - 1)) proc
    else if has_bit sigmask sig_mask_default_stop
    then stop_proc k proc
    else if signum == sigcont
    then resume_proc k proc
    else k

unfoldable pub run_signal_default_action : Kernel → Ptr → (signum sigmask : ℕ) → Kernel
unfolding default_action cancel_syscall
run_signal_default_action k proc signum sigmask =
    let k1 = default_action k proc signum sigmask in
    if restarts k1 proc signum then k1 else cancel_syscall k1 proc

-- `dispatch_signal`; a negative number is a 32-bit pattern, so it is refused like those from 32 on.
unfoldable pub dispatch_signal : Kernel → Ptr → (signum : ℕ) → ℕ × Kernel
unfolding run_signal_handler run_signal_default_action
dispatch_signal k proc signum =
    let r = k.procs proc in
    let sigmask = signal_to_map signum in
    if signum == 0 || leb 32 signum
    then (einval, k)
    else if has_bit sigmask r.ignored
    then (0, k)
    else if has_bit sigmask r.blocked_mask
    then (0, modify k proc (λ r. record r { pending = bit_or r.pending sigmask }))
    else if (r.actions (signum - 1)).sa_handler == null
    then (0, run_signal_default_action k proc signum sigmask)
    else (0, run_signal_handler k proc signum)

unfoldable pub send_signal : Kernel → (pid signum : ℕ) → ℕ × Kernel
unfolding dispatch_signal
send_signal k pid signum =
    let proc = get_proc k pid in if proc == null then (esrch, k) else dispatch_signal k proc signum

-- The loop of `send_signal_process_group` from a slot of the table on; none if the fuel ran out.
unfoldable pub send_group_from : ℕ → Kernel → (slotnum pgid signum : ℕ) → Option Kernel
unfolding dispatch_signal
send_group_from zero k slotnum pgid signum = none
send_group_from (suc fuel) k slotnum pgid signum =
    elim (proc_iter_next (max_processes + 1) k slotnum) [
      | none ↦ none
      | some r ↦
          let k' = if (k.procs r.0).pgid == pgid then (dispatch_signal k r.0 signum).1 else k in
          let rest = send_group_from fuel k' r.1 pgid signum in if r.0 == null then some k else rest
    ]

unfoldable pub send_signal_process_group : Kernel → (pgid signum : ℕ) → Option Kernel
unfolding send_group_from
send_signal_process_group k pgid signum = send_group_from (max_processes + 1) k 0 pgid signum

-- `do_signal`, less the frame for the handler.
unfoldable pub do_signal : Kernel → Kernel
do_signal k = modify k k.current_proc (λ r. record r { signal_pending = 0 })

-- The loop of `get_next_signum` with the rounds left; none is -1.
unfoldable pub next_signum_from : ℕ → (mask i : ℕ) → Option ℕ
next_signum_from zero mask i = none
next_signum_from (suc n) mask i =
    let rest = next_signum_from n (mask / 2) (i + 1) in if mask % 2 == 1 then some i else rest

unfoldable pub get_next_signum : (mask : ℕ) → Option ℕ
unfolding next_signum_from
get_next_signum mask = next_signum_from 30 mask 1

unfoldable pub check_pending_signals : Kernel → Kernel
unfolding get_next_signum dispatch_signal
check_pending_signals k =
    let p = k.current_proc in
    let r = k.procs p in
    if clear_bits r.pending r.blocked_mask == 0 then k else elim (get_next_signum r.pending) [
      | none ↦ k
      | some signum ↦
          (dispatch_signal
            (modify k p (λ r. record r { pending = clear_bits r.pending (signal_to_map signum) })) p
            signum).1
    ]

-- `cleanup_signal_handler`, with the number that the handler's frame held.
unfoldable pub cleanup_signal_handler : Kernel → (signum : ℕ) → Kernel
unfolding suspend_proc check_pending_signals
cleanup_signal_handler k signum =
    let p = k.current_proc in
    let k1 = if has_bit (k.procs p).bits pb_syscall then suspend_proc k p 0 else k in
    let k2 =
      if restarts k1 p signum
      then k1
      else modify k1 p
          λ r. record r { return_value = eintr; bits = bit_or r.bits pb_dont_set_return_val } in
    check_pending_signals k2
