-- ===== src/Proc/Exit.antt =====
-- `exit_proc` and the invariant: kept but for a stopped process.
use gloworm.Prelude.{
  ℕ, ◌≡◌, ◌≢◌, inl, inr, refl, ◌∙◌, true, false, ◌&&◌, List, [], ◌∷◌, arith, ◌==◌, if◌then◌else◌,
  Bool-cases,
}
use gloworm.Utils.Queue.{Ptr, null}
use gloworm.Utils.Queue.Seg.{has}
use gloworm.Utils.Queue.Ops.{remove_detached}
use gloworm.Proc.{
  ProcState, running, resuming, blocked, stopped, exited, is_running, is_blocked, Process, Kernel,
  modify, init_pid,
}
use gloworm.Proc.Table.{get_proc, close_proc}
use gloworm.Proc.Queues.{remove_ready, remove_blocked}
use gloworm.Proc.Scheduler.{
  resume_proc, resume_waiting_parent, has_bit, pb_waiting, finish_exit, exit_from, exit_proc,
}
use gloworm.Proc.Invariant.{Scheduled, IsScheduled, Scheduled-same}
use gloworm.Proc.Preserve.{resume_proc-Scheduled, remove_ready-Scheduled, remove_blocked-Scheduled}
use gloworm.Proc.Family.{SameTable, HasParents, HasParents-same, close_proc-same, resume_proc-same}

-- The invariant, the families and the exit of `p`, all at once.
abbrev Exited : Kernel → List Ptr → Ptr → Type 0
Exited k ps p = IsScheduled k ps × HasParents k ps × ((k.procs p).state ≡ exited)

resume_waiting_parent-Exited :
    {k : Kernel} {ps : List Ptr} (p q : Ptr)
    → Exited k ps p
    → has q ps ≡ true
    → Exited (resume_waiting_parent k q) ps p
unfolding resume_waiting_parent
resume_waiting_parent-Exited {k} {ps} p q ((r, w, s), h, e) known =
    let parent = get_proc k (k.procs q).parent in
    let (table, other) = resume_proc-same k parent in
    let woken : Exited (resume_proc k parent) ps p = (
      (_, _, resume_proc-Scheduled parent s (h.parent_known q known)),
      HasParents-same _ h table,
      other p (rw e refl) ∙ e,
    ) in
    elim (Bool-cases
      (is_blocked (k.procs parent).state && has_bit (k.procs parent).bits pb_waiting)) [
        | inl b ↦ rw b woken
        | inr b ↦ rw b ((r, w, s), h, e)
      ]

reschedule-Exited :
    {k : Kernel} {ps : List Ptr} {p : Ptr}
    → Exited k ps p
    → Exited (record k { need_reschedule = true }) ps p
reschedule-Exited ((r, w, s), h, e) = (
  (
    r,
    w,
    Scheduled-same _ s
        (record { run_queue = refl; blocked_queue = refl; nodes = refl; states = λ _. refl }),
  ),
  HasParents-same _ h
      (record { list = refl; pids = λ _. refl; bits = λ _. refl; parents = λ _. inr refl }),
  e,
)

finish_exit-Exited :
    {k : Kernel} {ps : List Ptr} (p : Ptr)
    → Exited k ps p
    → has p ps ≡ true
    → Exited (finish_exit k p) ps p
unfolding finish_exit
finish_exit-Exited {k} {ps} p ((r, w, s), h, e) known =
    let k2 = (close_proc k p).1 in
    let (states, table) = close_proc-same k p in
    let h2 = HasParents-same k2 h table in
    let x2 : Exited k2 ps p = ((r, w, Scheduled-same k2 s states), h2, states.states p ∙ e) in
    let k3 =
      if (close_proc k p).0 == 0 then k2 else resume_waiting_parent k2 (get_proc k2 init_pid) in
    let x3 : Exited k3 ps p = elim (Bool-cases ((close_proc k p).0 == 0)) [
      | inl b ↦ rw b x2
      | inr b ↦ rw b (resume_waiting_parent-Exited p (get_proc k2 init_pid) x2 h2.init_known)
    ] in
    resume_waiting_parent-Exited p p (reschedule-Exited x3) known

abbrev exiting : ℕ → Process → Process
exiting status r = record r { state = exited; exitcode = status }

removed_ready-same :
    (k : Kernel) (p : Ptr) (status : ℕ) → SameTable k (modify (remove_ready k p) p (exiting status))
unfolding remove_ready
removed_ready-same k p status = record {
  list = refl;
  pids = λ a. ground arith;
  bits = λ a. ground arith;
  parents = λ a. ground arith;
}

removed_blocked-same :
    (k : Kernel) (p : Ptr) (status : ℕ)
    → SameTable k (modify (remove_blocked k p) p (exiting status))
unfolding remove_blocked
removed_blocked-same k p status = record {
  list = refl;
  pids = λ a. ground arith;
  bits = λ a. ground arith;
  parents = λ a. ground arith;
}

module _ {k : Kernel} {ps : List Ptr} (p : Ptr) (status : ℕ) where
  -- Under the scheduler's invariant and with the families in the table, `exit_proc` of a process
  -- of the table that is not stopped leaves it exited, and keeps the invariant, by which it is in
  -- neither queue, and the families.
  pub exit_proc-Exited :
      IsScheduled k ps
      → HasParents k ps
      → has p ps ≡ true
      → (k.procs p).state ≢ stopped
      → Exited (exit_proc k p status) ps p
  unfolding exit_proc exit_from
  exit_proc-Exited (r, w, s) h known ne = go (k.procs p).state refl
    where
      from_ready :
          is_running (k.procs p).state ≡ true → Exited (exit_from (remove_ready k p) p status) ps p
      from_ready b =
          finish_exit-Exited p
            (
              (_, _, remove_ready-Scheduled p s known (exiting status) b refl refl),
              HasParents-same _ h (removed_ready-same k p status),
              ground arith,
            )
            known

      from_blocked :
          is_blocked (k.procs p).state ≡ true
          → Exited (exit_from (remove_blocked k p) p status) ps p
      from_blocked b =
          finish_exit-Exited p
            (
              (_, _, remove_blocked-Scheduled p s known (exiting status) b refl refl),
              HasParents-same _ h (removed_blocked-same k p status),
              ground arith,
            )
            known

      go : (st : ProcState) → (k.procs p).state ≡ st → Exited (exit_proc k p status) ps p
      go exited e = rw e ((r, w, s), h, e)
      go stopped e = absurd (ne e)
      go running e = rw e (from_ready (rw e))
      go resuming e = rw e (from_ready (rw e))
      go blocked e = rw e (from_blocked (rw e))

-- No process waits for a child.
abbrev pub NoneWaits : Kernel → Type 0
NoneWaits k = (a : Ptr) → has_bit (k.procs a).bits pb_waiting ≡ false

resume_waiting_parent-none : (k : Kernel) (q : Ptr) → NoneWaits k → resume_waiting_parent k q ≡ k
unfolding resume_waiting_parent
resume_waiting_parent-none k q idle =
    let parent = get_proc k (k.procs q).parent in
    elim (Bool-cases
      (is_blocked (k.procs parent).state && has_bit (k.procs parent).bits pb_waiting)) [
        | inl b ↦ absurd (ground (arith, idle parent))
        | inr b ↦ rw b
      ]

finish_exit-none :
    (k : Kernel) (p : Ptr)
    → NoneWaits k
    → finish_exit k p ≡ record (close_proc k p).1 { need_reschedule = true }
unfolding finish_exit
finish_exit-none k p idle =
    let (states, table) = close_proc-same k p in
    let k2 = (close_proc k p).1 in
    let idle2 : NoneWaits k2 = λ a. rw (table.bits a) (idle a) in
    let k3 =
      if (close_proc k p).0 == 0 then k2 else resume_waiting_parent k2 (get_proc k2 init_pid) in
    let e3 : k3 ≡ k2 = elim (Bool-cases ((close_proc k p).0 == 0)) [
      | inl b ↦ rw b
      | inr b ↦ rw b (resume_waiting_parent-none k2 (get_proc k2 init_pid) idle2)
    ] in
    rw e3 (resume_waiting_parent-none (record k2 { need_reschedule = true }) p idle2)

ready_lost :
    {k : Kernel} {ps : List Ptr} (r : Ptr)
    → k.run_queue ≡ record { head = null; tail = null }
    → has r ps ≡ true
    → is_running (k.procs r).state ≡ true
    → ¬ IsScheduled k ps
ready_lost {k} {ps} r empty known run (ready, waiting, s) = go ready s
  where
    go : (ready : List Ptr) → Scheduled k ps ready waiting → ⊥
    go [] s = ground (arith, s.ready_exact r)
    go (y ∷ ys) s = ground (arith, s.ready_links.links)

-- Under the invariant, while a process is ready and none waits for a child, `exit_proc` of a
-- stopped process, whose node is in no queue, empties the run queue. The ready processes are lost,
-- so the invariant does not hold behind it.
exit_stopped_loses_ready :
    {k : Kernel} {ps ready waiting : List Ptr} (p r status : ℕ)
    → Scheduled k ps (r ∷ ready) waiting
    → (k.procs p).state ≡ stopped
    → k.nodes p ≡ record { next = null; prev = null }
    → NoneWaits k
    → ((exit_proc k p status).run_queue ≡ record { head = null; tail = null })
      × ¬ IsScheduled (exit_proc k p status) ps
unfolding exit_proc exit_from remove_ready
exit_stopped_loses_ready {k} {ps} {ready} p r status s e detached idle =
    let k1 = modify (remove_ready k p) p (exiting status) in
    let (states, table) = close_proc-same k1 p in
    let done = finish_exit-none k1 p (λ a. ground (arith, idle a)) in
    let empty = remove_detached k.run_queue k.nodes p detached in
    rw (e, done)
      (
        states.run_queue ∙ empty,
        ready_lost r (states.run_queue ∙ empty) (ground (arith, s.ready_exact r))
            (ground (arith, s.ready_exact r, states.states r)),
      )
