-- ===== src/Proc/Signal/Examples.antt =====
-- The theorems on signals at concrete kernels.
use gloworm.Prelude.{◌≡◌, refl, some, [], ◌∷◌, arith, if◌then◌else◌, ◌==◌}
use gloworm.Utils.Queue.{null}
use gloworm.Proc.{running, blocked, Kernel}
use gloworm.Proc.Scheduler.{resume_proc_without_restart}
use gloworm.Proc.Invariant.{Scheduled, IsScheduled}
use gloworm.Proc.Examples.{in_state, kernel, kernel-Scheduled, everyone, kernel-HasParents}
use gloworm.Proc.Signal.{dispatch_signal, send_signal_process_group}
use gloworm.Proc.Signal.Kept.{Kept}
use gloworm.Proc.Signal.Deliver.{dispatch_signal-Kept}
use gloworm.Proc.Signal.Group.{send_group-total}
use gloworm.Proc.Signal.Idle.{idle_loses_woken}

-- SIGINT to init, which is blocked and has no handler.
dispatch_signal-Kept_example : Kept (dispatch_signal (kernel 2) 8 2).1 everyone
dispatch_signal-Kept_example =
    dispatch_signal-Kept 8 2 refl (λ e. ground (arith, e)) (λ e. ground (arith, e)) (λ _. refl)
      ((16 ∷ 24 ∷ [], 8 ∷ [], kernel-Scheduled 2), kernel-HasParents)

-- The current process has two signals pending and holds back the lower.
abbrev held : Kernel
held = record (kernel 2) {
  procs = λ p. record (in_state 2 1 running 0) { pending = 3; blocked_mask = 1 };
}

send_group-total_example : (k' : Kernel) × (send_signal_process_group (kernel 2) 2 18 ≡ some k')
send_group-total_example = send_group-total (kernel 2) 2 18

-- One process, blocked, while the idle process at 40 runs.
abbrev idling : Kernel
idling = record (kernel 2) {
  run_queue = record { head = null; tail = null };
  blocked_queue = record { head = 8; tail = 8 };
  nodes = λ _. record { next = null; prev = null };
  procs = λ p. if p == 8 then in_state 1 0 blocked 2 else in_state 5 9 running 0;
  current_proc = 40;
}

idling-Scheduled : Scheduled idling (8 ∷ []) [] (8 ∷ [])
idling-Scheduled = record {
  ready_links = record { links = ground arith; distinct = ground arith };
  waiting_links = record { links = ground arith; distinct = ground arith };
  ready_exact = λ p. ground arith;
  waiting_exact = λ p. ground arith;
  named = refl;
}

idle_loses_woken_example :
    let k' = resume_proc_without_restart idling 8 in
    (k'.run_queue.head ≡ null)
    × ((k'.nodes idling.current_proc).next ≡ 8)
    × ((k'.nodes 8).prev ≡ idling.current_proc)
    × ¬ IsScheduled k' (8 ∷ [])
idle_loses_woken_example =
    idle_loses_woken 8 idling-Scheduled refl refl refl refl (λ e. ground (arith, e)) refl
