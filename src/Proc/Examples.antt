-- ===== src/Proc/Examples.antt =====
-- The scheduler's theorems at a kernel with four processes: init, blocked and waiting for a child;
-- two that are ready, of which one is current; and a stopped one.
use gloworm.Prelude.{
  ℕ, ◌≡◌, refl, sym, subst, true, false, some, List, [], ◌∷◌, arith, if◌then◌else◌, ◌==◌,
}
use gloworm.Utils.Queue.{Ptr, Store}
use gloworm.Utils.Queue.Seg.{has}
use gloworm.Proc.{ProcState, running, blocked, stopped, exited, Process, Kernel}
use gloworm.Proc.Table.{get_proc, find_from, fresh_process}
use gloworm.Proc.Scheduler.{
  resume_proc, stop_proc, suspend_proc, exit_proc, pick, resume_blocked_procs, WaitCheck,
}
use gloworm.Proc.Invariant.{Scheduled, IsScheduled}
use gloworm.Proc.Preserve.{resume_proc-Scheduled, stop_proc-Scheduled, suspend_proc-Scheduled}
use gloworm.Proc.Family.{HasParents}
use gloworm.Proc.Exit.{exit_proc-Exited, NoneWaits}
use gloworm.Proc.Pick.{pick-cyclic}
use gloworm.Proc.Wakeup.{woken, left, resume_blocked_procs_lem}

abbrev nodes : Store
nodes p =
    if p == 16
    then record { next = 24; prev = 0 }
    else if p == 24
    then record { next = 0; prev = 16 }
    else record { next = 0; prev = 0 }

abbrev table : ℕ → Ptr
table i =
    if i == 0 then 8 else if i == 1 then 16 else if i == 2 then 24 else if i == 3 then 32 else 0

abbrev pub in_state : ℕ → ℕ → ProcState → ℕ → Process
in_state pid slot s bits = record (fresh_process pid slot) {
  state = s;
  bits = bits;
  wait_events = 1;
  wait_check = 4;
}

module _ (init_bits : ℕ) where
  abbrev procs : Ptr → Process
  procs p =
      if p == 8
      then in_state 1 0 blocked init_bits
      else if p == 16
      then in_state 2 1 running 0
      else if p == 24
      then in_state 3 2 running 0
      else if p == 32
      then in_state 4 3 stopped 0
      else in_state 0 0 exited 0

  abbrev pub kernel : Kernel
  kernel = record {
    run_queue = record { head = 16; tail = 24 };
    blocked_queue = record { head = 8; tail = 8 };
    nodes = nodes;
    procs = procs;
    process_list = table;
    num_processes = 4;
    next_process_slot = 4;
    next_pid = 5;
    idle_proc = 40;
    current_proc = 16;
    previous_proc = 16;
    need_reschedule = false;
    next_reschedule_time = 0;
  }

  pub kernel-Scheduled : Scheduled kernel (8 ∷ 16 ∷ 24 ∷ 32 ∷ []) (16 ∷ 24 ∷ []) (8 ∷ [])
  kernel-Scheduled = record {
    ready_links = record { links = ground arith; distinct = ground arith };
    waiting_links = record { links = ground arith; distinct = ground arith };
    ready_exact = λ p. ground arith;
    waiting_exact = λ p. ground arith;
    named = refl;
  }

abbrev pub everyone : List Ptr
everyone = 8 ∷ 16 ∷ 24 ∷ 32 ∷ []

get_proc_init : get_proc (kernel 2) 1 ≡ 8
unfolding get_proc find_from
get_proc_init = refl

parent_is_init : (p : Ptr) → ((kernel 2).procs p).parent ≡ 1
parent_is_init p = ground arith

init_is_known : has (get_proc (kernel 2) 1) everyone ≡ true
init_is_known = subst (λ p. has p everyone ≡ true) (sym get_proc_init) refl

pub kernel-HasParents : HasParents (kernel 2) everyone
kernel-HasParents = record {
  init_known = init_is_known;
  parent_known = λ p h.
      subst (λ pid. has (get_proc (kernel 2) pid) everyone ≡ true) (sym (parent_is_init p))
        init_is_known;
}

kernel-NoneWaits : NoneWaits (kernel 0)
kernel-NoneWaits p = ground arith

resume_proc-Scheduled_example : Scheduled (resume_proc (kernel 2) 8) everyone (8 ∷ 16 ∷ 24 ∷ []) []
resume_proc-Scheduled_example = resume_proc-Scheduled 8 (kernel-Scheduled 2) refl

stop_proc-Scheduled_example : Scheduled (stop_proc (kernel 2) 24) everyone (16 ∷ []) (8 ∷ [])
stop_proc-Scheduled_example = stop_proc-Scheduled 24 (kernel-Scheduled 2) refl

suspend_proc-Scheduled_example :
    Scheduled (suspend_proc (kernel 2) 16 1) everyone (24 ∷ []) (16 ∷ 8 ∷ [])
suspend_proc-Scheduled_example = suspend_proc-Scheduled 16 (kernel-Scheduled 2) refl 1

exit_proc-Exited_example :
    let k' = exit_proc (kernel 2) 16 0 in
    IsScheduled k' everyone × HasParents k' everyone × ((k'.procs 16).state ≡ exited)
exit_proc-Exited_example =
    exit_proc-Exited 16 0 (16 ∷ 24 ∷ [], 8 ∷ [], kernel-Scheduled 2) kernel-HasParents refl (cc)

pick-cyclic_example : pick (kernel 2) ≡ 24
pick-cyclic_example = pick-cyclic [] (24 ∷ []) (kernel-Scheduled 2)

abbrev agrees : WaitCheck
agrees p r = true

resume_blocked_procs_lem_example :
    (k' : Kernel) × (resume_blocked_procs agrees 1 2 (kernel 2) ≡ some k')
    × Scheduled k' everyone
        (woken agrees 1 (procs 2) (16 ∷ 24 ∷ []) (8 ∷ []))
        (left agrees 1 (procs 2) (8 ∷ []))
resume_blocked_procs_lem_example =
    resume_blocked_procs_lem agrees 1 (kernel 2) 2 (kernel-Scheduled 2) (omega arith)
