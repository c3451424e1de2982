-- ===== src/Proc.antt =====
-- src/kernel/proc: the processes and their state, which the scheduler, the process table and the
-- signals share. A process is named by its address; the queue node in it goes by the same
-- address, so `container_of` is the identity. An int that the source gives a negative value is
-- its 32-bit pattern.
pub mod Queues
pub mod Table
pub mod Scheduler
pub mod Invariant
pub mod Preserve
pub mod Family
pub mod Exit
pub mod Slots
pub mod Pick
pub mod Wakeup
pub mod Signal
pub mod Filedesc
pub mod Timer
mod Examples
use gloworm.Prelude.{ℕ, ◌-◌, ◌^◌, Bool, true, false, update}
use gloworm.Utils.Queue.{Ptr, Store, Queue}

-- `proc_state_t`
pub data ProcState : Type 0 where
  running resuming blocked stopped exited : ProcState

-- `struct syscall_record`
pub record SyscallRecord : Type 0 where
  pub syscall : ℕ
  pub args : ℕ → ℕ

-- `struct sigaction`
pub record SigAction : Type 0 where
  pub sa_handler : Ptr
  pub sa_flags : ℕ
  pub sa_mask : ℕ
  pub sa_restorer : Ptr

-- `struct process`: the fields that the scheduler, the process table and the signals read.
pub record Process : Type 0 where
  pub state : ProcState
  pub pid : ℕ
  pub parent : ℕ
  pub pgid : ℕ
  pub slotnum : ℕ
  pub bits : ℕ
  pub exitcode : ℕ
  pub return_value : ℕ
  pub wait_events : ℕ
  pub wait_check : Ptr
  pub blocked_call : SyscallRecord
  pub signal_pending : ℕ
  pub ignored : ℕ
  pub blocked_mask : ℕ
  pub pending : ℕ
  pub actions : ℕ → SigAction

-- The variables of scheduler.c and process.c. `process_list` is the memory from its first slot on.
pub record Kernel : Type 0 where
  pub run_queue : Queue
  pub blocked_queue : Queue
  pub nodes : Store
  pub procs : Ptr → Process
  pub process_list : ℕ → Ptr
  pub num_processes : ℕ
  pub next_process_slot : ℕ
  pub next_pid : ℕ
  pub idle_proc : Ptr
  pub current_proc : Ptr
  pub previous_proc : Ptr
  pub need_reschedule : Bool
  pub next_reschedule_time : ℕ

abbrev pub init_pid : ℕ
init_pid = 1

-- The default of CONFIG_MAX_PROCESSES.
abbrev pub max_processes : ℕ
max_processes = 100

-- `EINTR` as it is stored in an unsigned word.
abbrev pub eintr : ℕ
eintr = 2 ^ 32 - 4

-- The fields of one process changed.
abbrev pub modify : Kernel → Ptr → (Process → Process) → Kernel
modify k p f = record k { procs = update k.procs p (f (k.procs p)) }

-- `PROC_IS_RUNNING`
abbrev pub is_running : ProcState → Bool
is_running running = true
is_running resuming = true
is_running _ = false

abbrev pub is_blocked : ProcState → Bool
is_blocked blocked = true
is_blocked _ = false

-- The states from which `resume_proc` puts a process back into the run queue.
abbrev pub is_suspended : ProcState → Bool
is_suspended blocked = true
is_suspended stopped = true
is_suspended _ = false

-- The test of `suspend_proc`.
abbrev pub is_just_running : ProcState → Bool
is_just_running running = true
is_just_running _ = false
