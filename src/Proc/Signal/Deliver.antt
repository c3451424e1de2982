-- ===== src/Proc/Signal/Deliver.antt =====
-- A signal keeps the scheduler's invariant, whatever it does to the process.
use gloworm.Prelude.{
  ℕ, ◌-◌, ◌^◌, ◌≡◌, ◌≢◌, inl, inr, refl, true, false, not, ◌||◌, List, arith, ◌==◌, leb,
  if◌then◌else◌, Bool-cases,
}
use Prim.Native.Nat.{bit_or}
use gloworm.Utils.Queue.{Ptr, null}
use gloworm.Utils.Queue.Seg.{has}
use gloworm.Proc.{
  ProcState, resuming, stopped, exited, is_running, is_blocked, Process, Kernel, modify,
}
use gloworm.Proc.Scheduler.{
  resume_proc, stop_proc, cancel_syscall, settle, cancelled, has_bit, pb_paused,
}
use gloworm.Proc.Queues.{remove_ready, remove_blocked}
use gloworm.Proc.Preserve.{stop_proc-Scheduled}
use gloworm.Proc.Exit.{exit_proc-Exited}
use gloworm.Proc.Family.{SameTable, SameTable-refl, HasParents-same}
use gloworm.Proc.Signal.{
  restarts, sigcont, sig_mask_default_terminate, sig_mask_default_stop, signal_to_map,
  run_signal_handler, default_action, run_signal_default_action, dispatch_signal,
}
use gloworm.Proc.Signal.Kept.{
  Kept, CurrentKnown, modify-Kept, resume_proc-Kept, cancel_syscall-Kept,
  resume_waiting_parent-Kept, resume_proc_without_restart-Kept, resume_proc-Resumed,
}

settle_live : (st : ProcState) → st ≢ exited → settle st ≢ exited
unfolding settle
settle_live exited n = n
settle_live resuming n = λ e. ground (arith, e)
settle_live _ n = n

running_live : (st : ProcState) → is_running st ≡ true → st ≢ exited
running_live exited e = ground arith
running_live _ e = λ n. ground (arith, n)

-- A handler can run in the process, and the current process is known.
record Awake (k : Kernel) (ps : List Ptr) (p : Ptr) : Type 0 where
  live : (k.procs p).state ≢ exited
  at : CurrentKnown k ps

-- What the change of one process's state, to one that is not exited, does to it.
modify-Awake :
    {k : Kernel} {ps : List Ptr} {p : Ptr} (f : Process → Process)
    → has p ps ≡ true
    → (f (k.procs p)).state ≢ exited
    → Awake k ps p
    → Awake (modify k p f) ps p
modify-Awake {k} {ps} {p} f known live w = record {
  live = λ e. live (ground (arith, e));
  at = elim (Bool-cases (k.current_proc == p)) [
    | inl e ↦ λ _. ground arith
    | inr e ↦ λ run. w.at (ground (arith, run))
  ];
}

resume_proc-Awake :
    {k : Kernel} {ps : List Ptr} (p : Ptr)
    → has p ps ≡ true
    → Awake k ps p
    → Awake (resume_proc k p) ps p
resume_proc-Awake {k} {ps} p known w =
    let r = resume_proc-Resumed k p in
    record {
      live = running_live _ (r.self w.live);
      at = elim (Bool-cases (k.current_proc == p)) [
        | inl e ↦ λ _. ground (arith, r.current)
        | inr e ↦
            λ run. rw r.current (w.at (ground (arith, run, r.current, r.others k.current_proc)))
      ];
    }

cancel_syscall-Awake :
    {k : Kernel} {ps : List Ptr} (p : Ptr)
    → has p ps ≡ true
    → Awake k ps p
    → Awake (cancel_syscall k p) ps p
unfolding cancel_syscall
cancel_syscall-Awake {k} {ps} p known w =
    let k1 = if is_blocked (k.procs p).state then resume_proc k p else k in
    let w1 : Awake k1 ps p = elim (Bool-cases (is_blocked (k.procs p).state)) [
      | inl b ↦ rw b (resume_proc-Awake p known w)
      | inr b ↦ rw b w
    ] in
    modify-Awake cancelled known (settle_live (k1.procs p).state w1.live) w1

stop_proc-same : (k : Kernel) (p : Ptr) → SameTable k (stop_proc k p)
unfolding stop_proc remove_ready remove_blocked
stop_proc-same k p = go (k.procs p).state refl
  where
    go : (st : ProcState) → (k.procs p).state ≡ st → SameTable k (stop_proc k p)
    go exited e = rw e (SameTable-refl k)
    go stopped e = rw e (SameTable-refl k)
    go _ e = rw e (record {
      list = refl;
      pids = λ a. ground arith;
      bits = λ a. ground arith;
      parents = λ a. ground arith;
    })

stop_proc-Kept :
    {k : Kernel} {ps : List Ptr} (p : Ptr) → has p ps ≡ true → Kept k ps → Kept (stop_proc k p) ps
stop_proc-Kept {k} p known ((r, w, s), h) =
    ((_, _, stop_proc-Scheduled p s known), HasParents-same _ h (stop_proc-same k p))

module _ {k : Kernel} {ps : List Ptr} (p : Ptr) (signum : ℕ) (known : has p ps ≡ true) where
  run_signal_handler-Kept : Awake k ps p → Kept k ps → Kept (run_signal_handler k p signum) ps
  unfolding run_signal_handler
  run_signal_handler-Kept awake kept =
      let k1 =
        if has_bit (k.procs p).bits pb_paused || not (restarts k p signum)
        then cancel_syscall k p
        else k in
      let both : Awake k1 ps p × Kept k1 ps =
        elim (Bool-cases (has_bit (k.procs p).bits pb_paused || not (restarts k p signum))) [
          | inl b ↦ rw b (cancel_syscall-Awake p known awake, cancel_syscall-Kept p known kept)
          | inr b ↦ rw b (awake, kept)
        ] in
      let pend = λ (r : Process). record r { signal_pending = signum } in
      let w2 = modify-Awake pend known both.0.live both.0 in
      let kept2 : Kept (modify k1 p pend) ps =
        modify-Kept p pend (record { pid = refl; parent = refl; ready = refl; waiting = refl })
          both.1 in
      resume_proc_without_restart-Kept p known w2.at w2.live kept2

  default_action-Kept :
      ((k.procs p).state ≡ stopped
        → has_bit (signal_to_map signum) sig_mask_default_terminate ≡ false)
      → Kept k ps
      → Kept (default_action k p signum (signal_to_map signum)) ps
  unfolding default_action
  default_action-Kept safe kept =
      let mask = signal_to_map signum in
      elim (Bool-cases (has_bit mask sig_mask_default_terminate)) [
        | inl a ↦
            let (s, h, _) =
              exit_proc-Exited p (2 ^ 32 - 1) kept.0 kept.1 known
                (λ e. absurd (ground (arith, a, safe e))) in
            rw a (resume_waiting_parent-Kept p known (s, h))
        | inr a ↦ elim (Bool-cases (has_bit mask sig_mask_default_stop)) [
          | inl b ↦ rw (a, b) (stop_proc-Kept p known kept)
          | inr b ↦ elim (Bool-cases (signum == sigcont)) [
            | inl c ↦ rw (a, b, c) (resume_proc-Kept p known kept)
            | inr c ↦ rw (a, b, c) kept
          ]
        ]
      ]

  run_default-Kept :
      ((k.procs p).state ≡ stopped
        → has_bit (signal_to_map signum) sig_mask_default_terminate ≡ false)
      → Kept k ps
      → Kept (run_signal_default_action k p signum (signal_to_map signum)) ps
  unfolding run_signal_default_action
  run_default-Kept safe kept =
      let k1 = default_action k p signum (signal_to_map signum) in
      let kept1 = default_action-Kept safe kept in
      elim (Bool-cases (restarts k1 p signum)) [
        | inl a ↦ rw a kept1
        | inr a ↦ rw a (cancel_syscall-Kept p known kept1)
      ]

  -- Under the invariant and with the families in the table, sending a signal to a process of the
  -- table keeps both. The process has not exited; if it is stopped, the signal is not one that
  -- terminates by default; and the current process, if it is ready, is one of the table that the
  -- scheduler manages.
  pub dispatch_signal-Kept :
      (k.procs p).state ≢ exited
      → ((k.procs p).state ≡ stopped
          → has_bit (signal_to_map signum) sig_mask_default_terminate ≡ false)
      → CurrentKnown k ps
      → Kept k ps
      → Kept (dispatch_signal k p signum).1 ps
  unfolding dispatch_signal
  dispatch_signal-Kept live safe at kept =
      let r = k.procs p in
      let mask = signal_to_map signum in
      elim (Bool-cases (signum == 0 || leb 32 signum)) [
        | inl a ↦ rw a kept
        | inr a ↦ elim (Bool-cases (has_bit mask r.ignored)) [
          | inl b ↦ rw (a, b) kept
          | inr b ↦ elim (Bool-cases (has_bit mask r.blocked_mask)) [
            | inl c ↦
                rw (a, b, c)
                  (modify-Kept p (λ r. record r { pending = bit_or r.pending mask })
                    (record { pid = refl; parent = refl; ready = refl; waiting = refl }) kept)
            | inr c ↦ elim (Bool-cases ((r.actions (signum - 1)).sa_handler == null)) [
              | inl d ↦ rw (a, b, c, d) (run_default-Kept safe kept)
              | inr d ↦
                  rw (a, b, c, d) (run_signal_handler-Kept (record { live = live; at = at }) kept)
            ]
          ]
        ]
      ]
