-- ===== src/Proc/Preserve.antt =====
-- The operations of the scheduler keep its invariant.
use gloworm.Prelude.{ℕ, ◌≡◌, ◌≢◌, refl, sym, subst, true, false, List, ◌∷◌, arith, if◌then◌else◌}
use gloworm.Utils.Queue.{Ptr, null}
use gloworm.Utils.Queue.Seg.{has}
use gloworm.Utils.Queue.Pair.{erase, has-erase}
use gloworm.Proc.{
  ProcState, running, resuming, blocked, stopped, exited, is_running, is_blocked, is_suspended,
  is_just_running, Process, Kernel, modify,
}
use gloworm.Proc.Queues.{insert_proc, insert_blocked, remove_ready, remove_blocked}
use gloworm.Proc.Scheduler.{stop_proc, suspend_proc, resume_proc}
use gloworm.Proc.Invariant.{
  Scheduled, SameStates, Scheduled-same, linked, remove_ready-Linked, remove_blocked-Linked,
  insert_proc-Linked, insert_blocked-Linked,
}

module _ {k : Kernel} {ps ready waiting : List Ptr} (p : Ptr) (s : Scheduled k ps ready waiting)
    (known : has p ps ≡ true) where
  not_null : p ≢ null
  not_null = ground (arith, s.named)

  pub resume_blocked :
      (k.procs p).state ≡ blocked → Scheduled (resume_proc k p) ps (p ∷ ready) (erase p waiting)
  unfolding resume_proc insert_proc remove_blocked
  resume_blocked e =
      let l = remove_blocked-Linked p (linked s) (ground (arith, s.waiting_exact p)) in
      let l' =
        insert_proc-Linked p l not_null (ground (arith, s.ready_exact p))
          (ground (arith, has-erase p p waiting s.waiting_links.distinct)) in
      rw e (record {
        ready_links = l'.ready_links;
        waiting_links = l'.waiting_links;
        ready_exact = λ a. ground (arith, s.ready_exact a);
        waiting_exact = λ a. ground (arith, s.waiting_exact a, has-erase a p waiting);
        named = s.named;
      })

  resume_stopped : (k.procs p).state ≡ stopped → Scheduled (resume_proc k p) ps (p ∷ ready) waiting
  unfolding resume_proc insert_proc
  resume_stopped e =
      let l =
        insert_proc-Linked p (linked s) not_null (ground (arith, s.ready_exact p))
          (ground (arith, s.waiting_exact p)) in
      rw e (record {
        ready_links = l.ready_links;
        waiting_links = l.waiting_links;
        ready_exact = λ a. ground (arith, s.ready_exact a);
        waiting_exact = λ a. ground (arith, s.waiting_exact a);
        named = s.named;
      })

  -- Under the invariant, `resume_proc` of a process of the table puts a blocked or stopped one in
  -- front of the run queue, takes a blocked one out of the blocked queue, and keeps the invariant;
  -- in another state the queues stay as they are.
  pub resume_proc-Scheduled :
      Scheduled
        (resume_proc k p)
        ps
        (if is_suspended (k.procs p).state then p ∷ ready else ready)
        (if is_blocked (k.procs p).state then erase p waiting else waiting)
  unfolding resume_proc
  resume_proc-Scheduled = go (k.procs p).state refl
    where
      goal : ProcState → Type 0
      goal st =
          Scheduled (resume_proc k p) ps (if is_suspended st then p ∷ ready else ready)
            (if is_blocked st then erase p waiting else waiting)

      go : (st : ProcState) → (k.procs p).state ≡ st → goal (k.procs p).state
      go running e = rw e s
      go resuming e = rw e s
      go exited e = rw e s
      go blocked e = subst goal (sym e) (resume_blocked e)
      go stopped e = subst goal (sym e) (resume_stopped e)

  -- A process that is ready leaves the run queue as its state changes to stopped or exited.
  pub remove_ready-Scheduled :
      (f : Process → Process)
      → is_running (k.procs p).state ≡ true
      → is_running (f (k.procs p)).state ≡ false
      → is_blocked (f (k.procs p)).state ≡ false
      → Scheduled (modify (remove_ready k p) p f) ps (erase p ready) waiting
  unfolding remove_ready
  remove_ready-Scheduled f h h1 h2 =
      let l = remove_ready-Linked p (linked s) (ground (arith, s.ready_exact p)) in
      record {
        ready_links = l.ready_links;
        waiting_links = l.waiting_links;
        ready_exact = λ a. ground (arith, s.ready_exact a, has-erase a p ready);
        waiting_exact = λ a. ground (arith, s.waiting_exact a);
        named = s.named;
      }

  -- A blocked process leaves the blocked queue as its state changes to stopped or exited.
  pub remove_blocked-Scheduled :
      (f : Process → Process)
      → is_blocked (k.procs p).state ≡ true
      → is_running (f (k.procs p)).state ≡ false
      → is_blocked (f (k.procs p)).state ≡ false
      → Scheduled (modify (remove_blocked k p) p f) ps ready (erase p waiting)
  unfolding remove_blocked
  remove_blocked-Scheduled f h h1 h2 =
      let l = remove_blocked-Linked p (linked s) (ground (arith, s.waiting_exact p)) in
      record {
        ready_links = l.ready_links;
        waiting_links = l.waiting_links;
        ready_exact = λ a. ground (arith, s.ready_exact a);
        waiting_exact = λ a. ground (arith, s.waiting_exact a, has-erase a p waiting);
        named = s.named;
      }

  -- Under the invariant, `stop_proc` of a process of the table takes it out of the queue that it
  -- is in and keeps the invariant; for an exited or a stopped one the queues stay as they are.
  pub stop_proc-Scheduled :
      Scheduled
        (stop_proc k p)
        ps
        (if is_running (k.procs p).state then erase p ready else ready)
        (if is_blocked (k.procs p).state then erase p waiting else waiting)
  unfolding stop_proc
  stop_proc-Scheduled = go (k.procs p).state refl
    where
      stop : Process → Process
      stop r = record r { state = stopped }

      same : {k' : Kernel} → SameStates k' (record k' { need_reschedule = true })
      same = record { run_queue = refl; blocked_queue = refl; nodes = refl; states = λ _. refl }

      go :
          (st : ProcState)
          → (k.procs p).state ≡ st
          → Scheduled
              (stop_proc k p)
              ps
              (if is_running (k.procs p).state then erase p ready else ready)
              (if is_blocked (k.procs p).state then erase p waiting else waiting)
      go running e = rw e (Scheduled-same _ (remove_ready-Scheduled stop (rw e) refl refl) same)
      go resuming e = rw e (Scheduled-same _ (remove_ready-Scheduled stop (rw e) refl refl) same)
      go exited e = rw e s
      go blocked e = rw e (Scheduled-same _ (remove_blocked-Scheduled stop (rw e) refl refl) same)
      go stopped e = rw e s

  suspend_running-Scheduled :
      (flags : ℕ)
      → (k.procs p).state ≡ running
      → Scheduled (suspend_proc k p flags) ps (erase p ready) (p ∷ waiting)
  unfolding suspend_proc remove_ready insert_blocked
  suspend_running-Scheduled flags e =
      let l = remove_ready-Linked p (linked s) (ground (arith, s.ready_exact p)) in
      let l' =
        insert_blocked-Linked p l not_null
          (ground (arith, has-erase p p ready s.ready_links.distinct))
          (ground (arith, s.waiting_exact p)) in
      rw e (record {
        ready_links = l'.ready_links;
        waiting_links = l'.waiting_links;
        ready_exact = λ a. ground (arith, s.ready_exact a, has-erase a p ready);
        waiting_exact = λ a. ground (arith, s.waiting_exact a);
        named = s.named;
      })

  -- Under the invariant, `suspend_proc` of a process of the table moves a running one from the run
  -- queue to the front of the blocked queue and keeps the invariant; in another state the queues
  -- stay as they are.
  pub suspend_proc-Scheduled :
      (flags : ℕ)
      → Scheduled
          (suspend_proc k p flags)
          ps
          (if is_just_running (k.procs p).state then erase p ready else ready)
          (if is_just_running (k.procs p).state then p ∷ waiting else waiting)
  unfolding suspend_proc
  suspend_proc-Scheduled flags = go (k.procs p).state refl
    where
      goal : ProcState → Type 0
      goal st =
          Scheduled (suspend_proc k p flags) ps
            (if is_just_running st then erase p ready else ready)
            (if is_just_running st then p ∷ waiting else waiting)

      go : (st : ProcState) → (k.procs p).state ≡ st → goal (k.procs p).state
      go running e = subst goal (sym e) (suspend_running-Scheduled flags e)
      go _ e = rw e s
