-- ===== src/Proc/Signal/Idle.antt =====
-- A handler that wakes a process while the idle process runs.
use gloworm.Prelude.{◌≡◌, ◌≢◌, refl, true, false, List, [], ◌∷◌, arith, ◌==◌, ==_refl, ne→==}
use gloworm.Utils.Queue.{Ptr, null, Store, Queue, insert, remove, insert_after}
use gloworm.Utils.Queue.Seg.{has}
use gloworm.Utils.Queue.Pair.{remove-erase}
use gloworm.Proc.{blocked, is_running, Kernel}
use gloworm.Proc.Queues.{insert_proc, remove_ready, remove_blocked}
use gloworm.Proc.Scheduler.{
  resume_proc, set_state, reschedule_proc_to_now, resume_proc_without_restart,
}
use gloworm.Proc.Invariant.{Scheduled, IsScheduled}

-- A kernel whose run queue has no head while a process of the table is ready breaks the invariant.
headless :
    {k : Kernel} {ps : List Ptr} (p : Ptr)
    → k.run_queue.head ≡ null
    → has p ps ≡ true
    → is_running (k.procs p).state ≡ true
    → ¬ IsScheduled k ps
headless {k} {ps} p empty known run (ready, waiting, s) = go ready s
  where
    go : (ready : List Ptr) → Scheduled k ps ready waiting → ⊥
    go [] s = ground (arith, s.ready_exact p)
    go (y ∷ ys) s = ground (arith, s.ready_links.links)

-- A node that is inserted behind another one is linked with it in both directions.
linked :
    (q : Queue) (st : Store) (p c : Ptr)
    → (c == p) ≡ false
    → c ≢ null
    → let st' = (insert_after q st p c).1 in ((st' c).next ≡ p) × ((st' p).prev ≡ c)
unfolding insert_after
linked q st p c apart ne =
    let some_node : (c == null) ≡ false = ne→== c null ne in
    rw (some_node, apart, ==_refl c, ==_refl p) (refl, refl)

-- A node that is put in front of an empty queue and moved behind one that is in no queue leaves no
-- head.
moved_out :
    (q : Queue) (st : Store) (p c : Ptr)
    → q.head ≡ null
    → (c == p) ≡ false
    → c ≢ null
    → (st c).next ≡ null
    → let (q1, st1) = insert q st p in
      let (q2, st2) = remove q1 st1 p in (insert_after q2 st2 p c).0.head ≡ null
unfolding insert remove insert_after
moved_out q st p c empty apart ne alone = rw empty (ground arith)

-- Under the invariant, while the idle process runs, which is in no queue, no process is ready, and
-- a blocked one is resumed without restart, as for a handler, that process ends up behind the idle
-- process's node: each of the two nodes is linked to the other, the run queue has no head, and so
-- the invariant does not hold.
pub idle_loses_woken :
    {k : Kernel} {ps waiting : List Ptr} (p : Ptr)
    → Scheduled k ps [] waiting
    → has p ps ≡ true
    → (k.procs p).state ≡ blocked
    → is_running (k.procs k.current_proc).state ≡ true
    → has k.current_proc ps ≡ false
    → k.current_proc ≢ null
    → (k.nodes k.current_proc).next ≡ null
    → let k' = resume_proc_without_restart k p in
      (k'.run_queue.head ≡ null)
      × ((k'.nodes k.current_proc).next ≡ p)
      × ((k'.nodes p).prev ≡ k.current_proc)
      × ¬ IsScheduled k' ps
unfolding resume_proc_without_restart resume_proc reschedule_proc_to_now set_state insert_proc
    remove_ready remove_blocked
idle_loses_woken {k} {ps} {waiting} p s known e run out ne alone =
    let c = k.current_proc in
    let (is, same, self) = remove-erase p s.waiting_links (ground (arith, s.waiting_exact p)) in
    let st = (remove k.blocked_queue k.nodes p).1 in
    let there : st c ≡ k.nodes c = same c (ground (arith, s.waiting_exact c)) in
    let apart : (c == p) ≡ false = ground arith in
    let apart' : (p == c) ≡ false = ground arith in
    let lost = moved_out k.run_queue st p c s.ready_links.links.0 apart ne (rw there alone) in
    let (q1, st1) = insert k.run_queue st p in
    let (q2, st2) = remove q1 st1 p in
    let ends = linked q2 st2 p c apart ne in
    rw (e, apart', apart, ==_refl p, run)
      (lost, ends.0, ends.1, headless p lost known (rw (==_refl p) refl))
