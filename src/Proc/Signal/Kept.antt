-- ===== src/Proc/Signal/Kept.antt =====
-- The scheduler's invariant and the families of processes, kept by the operations through which a
-- signal acts.
use gloworm.Prelude.{
  ℕ, ◌≡◌, ◌≢◌, inl, inr, refl, sym, ◌∙◌, subst, ap, true, false, ◌&&◌, List, ◌∷◌, ◌++◌, arith, ◌==◌,
  if◌then◌else◌, Bool-cases,
}
use gloworm.Utils.Queue.{Ptr}
use gloworm.Utils.Queue.Seg.{has, has-append, IsQueue}
use gloworm.Utils.Queue.Ops.{insert_after_lem}
use gloworm.Utils.Queue.Pair.{erase, split_at, has-erase, IsQueue-frame}
use gloworm.Proc.{
  ProcState, running, resuming, blocked, exited, is_running, is_blocked, Process, Kernel, modify,
  init_pid, max_processes,
}
use gloworm.Proc.Table.{get_proc, find_from}
use gloworm.Proc.Queues.{insert_proc, remove_ready, remove_blocked}
use gloworm.Proc.Scheduler.{
  resume_proc, resume_waiting_parent, cancel_syscall, settle, cancelled, set_state,
  reschedule_proc_to_now, resume_proc_without_restart, has_bit, pb_waiting,
}
use gloworm.Proc.Invariant.{IsScheduled, linked, remove_ready-Linked}
use gloworm.Proc.Preserve.{resume_proc-Scheduled}
use gloworm.Proc.Family.{HasParents, HasParents-same, resume_proc-same}

-- The invariant and the families together.
abbrev pub Kept : Kernel → List Ptr → Type 0
Kept k ps = IsScheduled k ps × HasParents k ps

-- A change of one process that keeps its names and does not move it to another queue.
pub record Mild (r r' : Process) : Type 0 where
  pub pid : r'.pid ≡ r.pid
  pub parent : r'.parent ≡ r.parent
  pub ready : is_running r'.state ≡ is_running r.state
  pub waiting : is_blocked r'.state ≡ is_blocked r.state

pub modify-Kept :
    {k : Kernel} {ps : List Ptr} (p : Ptr) (f : Process → Process)
    → Mild (k.procs p) (f (k.procs p))
    → Kept k ps
    → Kept (modify k p f) ps
unfolding get_proc
modify-Kept {k} {ps} p f m ((r, w, s), h) =
    let k' = modify k p f in
    let pids : (a : Ptr) → (k'.procs a).pid ≡ (k.procs a).pid = λ a. ground (arith, m.pid) in
    let parents : (a : Ptr) → (k'.procs a).parent ≡ (k.procs a).parent =
      λ a. ground (arith, m.parent) in
    let found : (pid : ℕ) → get_proc k' pid ≡ get_proc k pid =
      λ pid i. find_from (λ a. pids a i == pid) k.process_list max_processes 0 in
    (
      (
        r,
        w,
        record {
          ready_links = s.ready_links;
          waiting_links = s.waiting_links;
          ready_exact = λ a. ground (arith, s.ready_exact a, m.ready);
          waiting_exact = λ a. ground (arith, s.waiting_exact a, m.waiting);
          named = s.named;
        },
      ),
      record {
        init_known = rw (found init_pid) h.init_known;
        parent_known = λ a i. rw (parents a, found (k.procs a).parent) (h.parent_known a i);
      },
    )

pub resume_proc-Kept :
    {k : Kernel} {ps : List Ptr} (p : Ptr) → has p ps ≡ true → Kept k ps → Kept (resume_proc k p) ps
resume_proc-Kept {k} p known ((r, w, s), h) =
    ((_, _, resume_proc-Scheduled p s known), HasParents-same _ h (resume_proc-same k p).0)

settle_ready : (st : ProcState) → is_running (settle st) ≡ is_running st
unfolding settle
settle_ready resuming = refl
settle_ready running = refl
settle_ready _ = refl

settle_waiting : (st : ProcState) → is_blocked (settle st) ≡ is_blocked st
unfolding settle
settle_waiting resuming = refl
settle_waiting running = refl
settle_waiting _ = refl

pub cancel_syscall-Kept :
    {k : Kernel} {ps : List Ptr} (p : Ptr)
    → has p ps ≡ true
    → Kept k ps
    → Kept (cancel_syscall k p) ps
unfolding cancel_syscall
cancel_syscall-Kept {k} {ps} p known kept =
    let k1 = if is_blocked (k.procs p).state then resume_proc k p else k in
    let kept1 : Kept k1 ps = elim (Bool-cases (is_blocked (k.procs p).state)) [
      | inl b ↦ rw b (resume_proc-Kept p known kept)
      | inr b ↦ rw b kept
    ] in
    modify-Kept p cancelled
      (record {
        pid = refl;
        parent = refl;
        ready = settle_ready (k1.procs p).state;
        waiting = settle_waiting (k1.procs p).state;
      })
      kept1

pub resume_waiting_parent-Kept :
    {k : Kernel} {ps : List Ptr} (q : Ptr)
    → has q ps ≡ true
    → Kept k ps
    → Kept (resume_waiting_parent k q) ps
unfolding resume_waiting_parent
resume_waiting_parent-Kept {k} {ps} q known kept =
    let parent = get_proc k (k.procs q).parent in
    elim (Bool-cases
      (is_blocked (k.procs parent).state && has_bit (k.procs parent).bits pb_waiting)) [
        | inl b ↦ rw b (resume_proc-Kept parent (kept.1.parent_known q known) kept)
        | inr b ↦ rw b kept
      ]

-- The current process is one of the table, unless it is not ready.
abbrev pub CurrentKnown : Kernel → List Ptr → Type 0
CurrentKnown k ps = is_running (k.procs k.current_proc).state ≡ true → has k.current_proc ps ≡ true

module _ {k : Kernel} {ps : List Ptr} (p : Ptr) (known : has p ps ≡ true)
    (at : CurrentKnown k ps) where
  -- The run queue with `p` moved behind the current process.
  moved :
      (p == k.current_proc) ≡ false
      → is_running (k.procs p).state ≡ true
      → is_running (k.procs k.current_proc).state ≡ true
      → Kept k ps
      → Kept (reschedule_proc_to_now k p) ps
  unfolding reschedule_proc_to_now remove_ready
  moved ne run run' ((r, w, s), h) =
      let c = k.current_proc in
      let k1 = remove_ready k p in
      let l = remove_ready-Linked p (linked s) (ground (arith, s.ready_exact p)) in
      let gone = λ (a : Ptr). has-erase a p r s.ready_links.distinct in
      let (xs, ys, e, _) =
        split_at c (erase p r) (ground (arith, s.ready_exact c, at run', gone c)) in
      let same_members : (a : Ptr) → has a (erase p r) ≡ has a (xs ++ c ∷ ys) =
        λ a. ap (λ zs. has a zs) e in
      let (is, same) =
        insert_after_lem xs ys p c (subst (λ zs. IsQueue k1.run_queue k1.nodes zs) e l.ready_links)
          (ground (arith, s.named)) (ground (arith, gone p, same_members p)) in
      let members : (a : Ptr) → has a (xs ++ c ∷ p ∷ ys) ≡ has a r = λ a. ground (
        arith,
        has-append a xs (c ∷ p ∷ ys),
        has-append a xs (c ∷ ys),
        same_members a,
        gone a,
        s.ready_exact p,
      ) in
      rw (ne, run, run')
        (
          (
            xs ++ c ∷ p ∷ ys,
            w,
            record {
              ready_links = is;
              waiting_links =
                  IsQueue-frame (xs ++ c ∷ p ∷ ys) l.waiting_links same
                    (λ a i. ground (arith, members a, (linked s).apart a));
              ready_exact = λ a. members a ∙ s.ready_exact a;
              waiting_exact = s.waiting_exact;
              named = s.named;
            },
          ),
          HasParents-same _ h
              (record { list = refl; pids = λ _. refl; bits = λ _. refl; parents = λ _. inr refl }),
        )

  pub reschedule_proc_to_now-Kept : Kept k ps → Kept (reschedule_proc_to_now k p) ps
  unfolding reschedule_proc_to_now
  reschedule_proc_to_now-Kept kept = elim (Bool-cases (p == k.current_proc)) [
    | inl a ↦ rw a kept
    | inr a ↦ elim (Bool-cases (is_running (k.procs p).state)) [
      | inr b ↦ rw (a, b) kept
      | inl b ↦ elim (Bool-cases (is_running (k.procs k.current_proc).state)) [
        | inr c ↦ rw (a, b, c) kept
        | inl c ↦ moved a b c kept
      ]
    ]
  ]

-- What `resume_proc` does to the states.
pub record Resumed (k k' : Kernel) (p : Ptr) : Type 0 where
  pub current : k'.current_proc ≡ k.current_proc
  pub others : (a : Ptr) → (a == p) ≡ false → (k'.procs a).state ≡ (k.procs a).state
  pub self : (k.procs p).state ≢ exited → is_running (k'.procs p).state ≡ true

pub resume_proc-Resumed : (k : Kernel) (p : Ptr) → Resumed k (resume_proc k p) p
unfolding resume_proc insert_proc remove_blocked
resume_proc-Resumed k p = go (k.procs p).state refl
  where
    go : (st : ProcState) → (k.procs p).state ≡ st → Resumed k (resume_proc k p) p
    go running e = rw e (record { current = refl; others = λ a n. refl; self = λ _. rw e refl })
    go resuming e = rw e (record { current = refl; others = λ a n. refl; self = λ _. rw e refl })
    go exited e = rw e (record { current = refl; others = λ a n. refl; self = λ n. absurd (n e) })
    go _ e =
        rw e (record { current = refl; others = λ a n. ground arith; self = λ _. ground arith })

running_not_blocked : (st : ProcState) → is_running st ≡ true → is_blocked st ≡ false
running_not_blocked blocked e = ground arith
running_not_blocked _ e = refl

pub resume_proc_without_restart-Kept :
    {k : Kernel} {ps : List Ptr} (p : Ptr)
    → has p ps ≡ true
    → CurrentKnown k ps
    → (k.procs p).state ≢ exited
    → Kept k ps
    → Kept (resume_proc_without_restart k p) ps
unfolding resume_proc_without_restart set_state
resume_proc_without_restart-Kept {k} {ps} p known at ne kept =
    let k1 = resume_proc k p in
    let r = resume_proc-Resumed k p in
    let runs = r.self ne in
    let waits : is_blocked (k1.procs p).state ≡ false =
      running_not_blocked (k1.procs p).state runs in
    let k2 = set_state k1 p running in
    let kept2 : Kept k2 ps =
      modify-Kept p (λ r. record r { state = running })
        (record { pid = refl; parent = refl; ready = sym runs; waiting = sym waits })
        (resume_proc-Kept p known kept) in
    let at2 : CurrentKnown k2 ps = elim (Bool-cases (k.current_proc == p)) [
      | inl e ↦ λ _. ground (arith, r.current)
      | inr e ↦ λ run. rw r.current (at (ground (arith, r.current, r.others k.current_proc)))
    ] in
    reschedule_proc_to_now-Kept p known at2 kept2
