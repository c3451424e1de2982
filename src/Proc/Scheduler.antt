-- ===== src/Proc/Scheduler.antt =====
-- src/kernel/proc/scheduler.c: the run queue and the queue of blocked processes. Interrupts are
-- off between LOCK and UNLOCK, so a function is one step.
use gloworm.Prelude.{
  ℕ, zero, suc, ◌+◌, ◌-◌, ◌*◌, ◌^◌, Bool, true, false, not, ◌&&◌, ◌||◌, Option, none, some, ltb,
  ◌==◌, if◌then◌else◌,
}
use Prim.Native.Nat.{bit_and, bit_or}
use gloworm.Utils.Queue
use gloworm.Utils.Queue.{Ptr, null, Queue, Store}
use gloworm.Proc.{
  ProcState, running, resuming, blocked, stopped, exited, is_running, is_blocked, SyscallRecord,
  Process, Kernel, init_pid, eintr, modify,
}
use gloworm.Proc.Queues.{insert_proc, insert_blocked, remove_ready, remove_blocked}
use gloworm.Proc.Table.{get_proc, close_proc}

abbrev pub pb_block_conditions : ℕ
pb_block_conditions = 0xff

abbrev pub pb_syscall : ℕ
pb_syscall = 0x1

abbrev pub pb_waiting : ℕ
pb_waiting = 0x2

abbrev pub pb_paused : ℕ
pb_paused = 0x4

abbrev pub pb_dont_set_return_val : ℕ
pb_dont_set_return_val = 0x200

-- `bits & flag`, as a test.
abbrev pub has_bit : ℕ → ℕ → Bool
has_bit bits flag = not (bit_and bits flag == 0)

-- `bits & ~flag` on 32 bits.
abbrev pub clear_bits : ℕ → ℕ → ℕ
clear_bits bits flag = bit_and bits (2 ^ 32 - 1 - flag)

unfoldable pub set_state : Kernel → Ptr → ProcState → Kernel
set_state k proc s = modify k proc (λ r. record r { state = s })

-- The end of `stop_proc`, behind the test of the state.
unfoldable pub halt : Kernel → Ptr → Kernel
unfolding set_state
halt k proc = record (set_state k proc stopped) { need_reschedule = true }

stop_by : ProcState → Kernel → Ptr → Kernel
stop_by exited k proc = k
stop_by stopped k proc = k
stop_by running k proc = halt (remove_ready k proc) proc
stop_by resuming k proc = halt (remove_ready k proc) proc
stop_by blocked k proc = halt (remove_blocked k proc) proc

unfoldable pub stop_proc : Kernel → Ptr → Kernel
unfolding stop_by halt
stop_proc k proc = stop_by (k.procs proc).state k proc

-- The body of `suspend_proc` for a running process.
suspend_running : Kernel → Ptr → ℕ → Kernel
suspend_running k proc flags =
    let k' = insert_blocked (remove_ready k proc) proc in
    record (modify k' proc
      λ r. record r { state = blocked; bits = bit_or r.bits (bit_and flags pb_block_conditions) }) {
        need_reschedule = true;
      }

suspend_by : ProcState → Kernel → Ptr → ℕ → Kernel
suspend_by running k proc flags = suspend_running k proc flags
suspend_by _ k proc flags = k

unfoldable pub suspend_proc : Kernel → Ptr → (flags : ℕ) → Kernel
unfolding suspend_by suspend_running
suspend_proc k proc flags = suspend_by (k.procs proc).state k proc flags

-- The end of `resume_proc`, behind the test of the state.
wake : Kernel → Ptr → Kernel
wake k proc =
    modify (insert_proc k proc) proc
      λ r. record r { state = resuming; wait_events = 0; wait_check = null }

resume_by : ProcState → Kernel → Ptr → Kernel
resume_by running k proc = k
resume_by resuming k proc = k
resume_by exited k proc = k
resume_by blocked k proc = wake (remove_blocked k proc) proc
resume_by stopped k proc = wake k proc

unfoldable pub resume_proc : Kernel → Ptr → Kernel
unfolding resume_by wake
resume_proc k proc = resume_by (k.procs proc).state k proc

unfoldable pub reschedule_proc_to_now : Kernel → Ptr → Kernel
unfolding remove_ready
reschedule_proc_to_now k proc =
    if proc == k.current_proc
      || not (is_running (k.procs proc).state)
      || not (is_running (k.procs k.current_proc).state)
    then k
    else let k1 = remove_ready k proc in
      let (q, st) = Queue.insert_after k1.run_queue k1.nodes proc k1.current_proc in
      record k1 { run_queue = q; nodes = st }

unfoldable pub resume_proc_without_restart : Kernel → Ptr → Kernel
unfolding resume_proc reschedule_proc_to_now set_state
resume_proc_without_restart k proc =
    reschedule_proc_to_now (set_state (resume_proc k proc) proc running) proc

unfoldable pub resume_waiting_parent : Kernel → Ptr → Kernel
unfolding resume_proc
resume_waiting_parent k proc =
    let parent = get_proc k (k.procs proc).parent in
    if is_blocked (k.procs parent).state && has_bit (k.procs parent).bits pb_waiting
    then resume_proc k parent
    else k

-- The end of `exit_proc`, from the call of `close_proc` on.
unfoldable pub finish_exit : Kernel → Ptr → Kernel
finish_exit k proc =
    let (orphans, k2) = close_proc k proc in
    let k3 = if orphans == 0 then k2 else resume_waiting_parent k2 (get_proc k2 init_pid) in
    resume_waiting_parent (record k3 { need_reschedule = true }) proc

-- `exit_proc` behind the test of the state; the status is a 32-bit pattern.
unfoldable pub exit_from : Kernel → Ptr → ℕ → Kernel
exit_from k proc status =
    finish_exit (modify k proc (λ r. record r { state = exited; exitcode = status })) proc

pub exit_by : ProcState → Kernel → Ptr → ℕ → Kernel
exit_by exited k proc status = k
exit_by blocked k proc status = exit_from (remove_blocked k proc) proc status
exit_by _ k proc status = exit_from (remove_ready k proc) proc status

unfoldable pub exit_proc : Kernel → Ptr → (status : ℕ) → Kernel
unfolding exit_by
exit_proc k proc status = exit_by (k.procs proc).state k proc status

-- The call of a process's `wait_check` at the events, vnode and device at hand.
abbrev pub WaitCheck : Type 0
WaitCheck = Ptr → Process → Bool

-- The process waits for one of the events, and its check agrees.
unfoldable pub wants : WaitCheck → (events : ℕ) → Ptr → Process → Bool
wants check events p r = not (r.wait_check == null) && has_bit events r.wait_events && check p r

-- The loop of `resume_blocked_procs` at the node `cur`; none if the fuel ran out. `next` is read
-- before the process is resumed.
unfoldable pub resume_blocked_from : WaitCheck → (events fuel : ℕ) → Kernel → Ptr → Option Kernel
unfolding resume_proc wants
resume_blocked_from check events zero k cur = none
resume_blocked_from check events (suc fuel) k cur =
    let next = (k.nodes cur).next in
    let k' = if wants check events cur (k.procs cur) then resume_proc k cur else k in
    let rest = resume_blocked_from check events fuel k' next in if cur == null then some k else rest

unfoldable pub resume_blocked_procs : WaitCheck → (events fuel : ℕ) → Kernel → Option Kernel
unfolding resume_blocked_from
resume_blocked_procs check events fuel k =
    resume_blocked_from check events fuel k k.blocked_queue.head

unfoldable pub suspend_syscall :
    Kernel → Ptr → (proc_flags events : ℕ) → (wait_check : Ptr) → SyscallRecord → Kernel
unfolding suspend_proc
suspend_syscall k proc proc_flags events wait_check syscall =
    modify (suspend_proc k proc (bit_or pb_syscall proc_flags)) proc
      λ r. record r { wait_events = events; wait_check = wait_check; blocked_call = syscall }

unfoldable pub settle : ProcState → ProcState
settle resuming = running
settle s = s

-- What `cancel_syscall` changes in the process, behind the call of `resume_proc`.
abbrev pub cancelled : Process → Process
cancelled r = record r {
  state = settle r.state;
  bits = bit_or (clear_bits r.bits pb_block_conditions) pb_dont_set_return_val;
  return_value = eintr;
}

unfoldable pub cancel_syscall : Kernel → Ptr → Kernel
unfolding resume_proc settle
cancel_syscall k proc =
    let k1 = if is_blocked (k.procs proc).state then resume_proc k proc else k in
    modify k1 proc cancelled

unfoldable pub return_to_current_proc : Kernel → (ret : ℕ) → Kernel
return_to_current_proc k ret = modify k k.current_proc λ r.
    if has_bit r.bits pb_dont_set_return_val
    then record r { bits = clear_bits r.bits pb_dont_set_return_val }
    else elim r.state [ running ↦ record r { return_value = ret } | _ ↦ r ]

abbrev pub reschedule_period : ℕ
reschedule_period = 100 * 1000 * 1000

unfoldable pub check_reschedule : Kernel → (uptime : ℕ) → Kernel
check_reschedule k uptime =
    if ltb k.next_reschedule_time uptime
    then record k { next_reschedule_time = uptime + reschedule_period; need_reschedule = true }
    else k

-- The process that `schedule` picks: the one behind the current process, or the first, or the
-- idle process.
unfoldable pub pick : Kernel → Ptr
pick k =
    let next = (k.nodes k.current_proc).next in
    let node =
      if k.current_proc == null || not (is_running (k.procs k.current_proc).state) || next == null
      then k.run_queue.head
      else next in
    if node == null then k.idle_proc else node

-- `schedule` up to its last call: the flag says that the blocked system call of the new process
-- is started again. The switch of the machine context is left out.
restart : ProcState → Kernel → Kernel × Bool
restart resuming k =
    let p = k.current_proc in
    if has_bit (k.procs p).bits pb_syscall
    then (modify k p λ r. record r { state = running; bits = clear_bits r.bits pb_syscall }, true)
    else (modify k p (λ r. record r { state = running }), false)
restart _ k = (k, false)

unfoldable pub schedule : Kernel → (uptime : ℕ) → Kernel × Bool
unfolding pick restart
schedule k uptime =
    let k' = record k {
      need_reschedule = false;
      current_proc = pick k;
      next_reschedule_time = uptime + reschedule_period;
    } in
    restart (k'.procs k'.current_proc).state k'
