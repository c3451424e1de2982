-- ===== src/Proc/Family.antt =====
-- Parents in the table of processes, and what `exit_proc` does to them.
use gloworm.Prelude.{
  ℕ, zero, suc, ◌+◌, ◌≡◌, ◌⊎◌, inl, inr, refl, ◌∙◌, true, false, List, arith, ◌==◌, if◌then◌else◌,
  Bool-cases,
}
use gloworm.Utils.Queue.{Ptr, null}
use gloworm.Utils.Queue.Seg.{has}
use gloworm.Proc.{
  ProcState, running, resuming, exited, is_suspended, Kernel, init_pid, max_processes,
}
use gloworm.Proc.Table.{find_from, get_proc, is_child, adopt, reparent_from, close_proc}
use gloworm.Proc.Queues.{insert_proc, remove_blocked}
use gloworm.Proc.Scheduler.{resume_proc}
use gloworm.Proc.Invariant.{SameStates}

-- The table is as it was, but that some processes may have init as a new parent.
pub record SameTable (k k' : Kernel) : Type 0 where
  pub list : k'.process_list ≡ k.process_list
  pub pids : (p : Ptr) → (k'.procs p).pid ≡ (k.procs p).pid
  pub bits : (p : Ptr) → (k'.procs p).bits ≡ (k.procs p).bits
  pub parents :
      (p : Ptr) → ((k'.procs p).parent ≡ init_pid) ⊎ ((k'.procs p).parent ≡ (k.procs p).parent)

-- Init and the parent of each process are in the table.
pub record HasParents (k : Kernel) (ps : List Ptr) : Type 0 where
  pub init_known : has (get_proc k init_pid) ps ≡ true
  pub parent_known : (p : Ptr) → has p ps ≡ true → has (get_proc k (k.procs p).parent) ps ≡ true

pub get_proc-same : (k k' : Kernel) (pid : ℕ) → SameTable k k' → get_proc k' pid ≡ get_proc k pid
unfolding get_proc
get_proc-same k k' pid t = λ i. find_from (λ p. t.pids p i == pid) (t.list i) max_processes 0

pub HasParents-same :
    {k : Kernel} {ps : List Ptr} (k' : Kernel) → HasParents k ps → SameTable k k' → HasParents k' ps
HasParents-same {k} {ps} k' h t = record {
  init_known = rw (get_proc-same k k' init_pid t) h.init_known;
  parent_known = λ p i. elim (t.parents p) [
    | inl e ↦ rw (e, get_proc-same k k' init_pid t) h.init_known
    | inr e ↦ rw (e, get_proc-same k k' (k.procs p).parent t) (h.parent_known p i)
  ];
}

SameStates-refl : (k : Kernel) → SameStates k k
SameStates-refl k = record {
  run_queue = refl;
  blocked_queue = refl;
  nodes = refl;
  states = λ _. refl;
}

pub SameTable-refl : (k : Kernel) → SameTable k k
SameTable-refl k = record {
  list = refl;
  pids = λ _. refl;
  bits = λ _. refl;
  parents = λ _. inr refl;
}

SameStates-trans : {a b c : Kernel} → SameStates a b → SameStates b c → SameStates a c
SameStates-trans s t = record {
  run_queue = t.run_queue ∙ s.run_queue;
  blocked_queue = t.blocked_queue ∙ s.blocked_queue;
  nodes = t.nodes ∙ s.nodes;
  states = λ p. t.states p ∙ s.states p;
}

SameTable-trans : {a b c : Kernel} → SameTable a b → SameTable b c → SameTable a c
SameTable-trans s t = record {
  list = t.list ∙ s.list;
  pids = λ p. t.pids p ∙ s.pids p;
  bits = λ p. t.bits p ∙ s.bits p;
  parents = λ p. elim (t.parents p) [
    | inl e ↦ inl e
    | inr e ↦ elim (s.parents p) [ inl e' ↦ inl (e ∙ e') | inr e' ↦ inr (e ∙ e') ]
  ];
}

adopt-same :
    (pid : ℕ) (k : Kernel) (p : Ptr) → SameStates k (adopt pid k p) × SameTable k (adopt pid k p)
unfolding adopt
adopt-same pid k p = elim (Bool-cases (is_child pid k p)) [
  | inl e ↦ rw e (
    record { run_queue = refl; blocked_queue = refl; nodes = refl; states = λ a. ground arith },
    record {
      list = refl;
      pids = λ a. ground arith;
      bits = λ a. ground arith;
      parents = λ a. ground arith;
    },
  )
  | inr e ↦ rw e (SameStates-refl k, SameTable-refl k)
]

pub reparent_from-same :
    (n i pid : ℕ) (k : Kernel)
    → let k' = (reparent_from n i pid k).1 in SameStates k k' × SameTable k k'
unfolding reparent_from
reparent_from-same zero i pid k = (SameStates-refl k, SameTable-refl k)
reparent_from-same (suc n) i pid k =
    let p = k.process_list i in
    let (states, table) = adopt-same pid k p in
    let (states', table') = reparent_from-same n (i + 1) pid (adopt pid k p) in
    (SameStates-trans states states', SameTable-trans table table')

-- `close_proc` changes no state and no queue, and its reparenting keeps the family relation.
pub close_proc-same :
    (k : Kernel) (p : Ptr) → let k' = (close_proc k p).1 in SameStates k k' × SameTable k k'
unfolding close_proc
close_proc-same k p =
    let k1 = record k { previous_proc = if p == k.previous_proc then null else k.previous_proc } in
    let (states, table) = reparent_from-same max_processes 0 (k.procs p).pid k1 in
    (
      SameStates-trans
          (record { run_queue = refl; blocked_queue = refl; nodes = refl; states = λ _. refl })
          states,
      SameTable-trans
          (record { list = refl; pids = λ _. refl; bits = λ _. refl; parents = λ _. inr refl })
          table,
    )

-- `resume_proc` leaves the table alone, and a process that is not suspended.
pub resume_proc-same :
    (k : Kernel) (p : Ptr)
    → SameTable k (resume_proc k p)
      × ((a : Ptr)
          → is_suspended (k.procs a).state ≡ false
          → ((resume_proc k p).procs a).state ≡ (k.procs a).state)
unfolding resume_proc insert_proc remove_blocked
resume_proc-same k p = go (k.procs p).state refl
  where
    go :
        (st : ProcState)
        → (k.procs p).state ≡ st
        → SameTable k (resume_proc k p)
          × ((a : Ptr)
              → is_suspended (k.procs a).state ≡ false
              → ((resume_proc k p).procs a).state ≡ (k.procs a).state)
    go running e = rw e (SameTable-refl k, λ _ _. refl)
    go resuming e = rw e (SameTable-refl k, λ _ _. refl)
    go exited e = rw e (SameTable-refl k, λ _ _. refl)
    go _ e = rw e (
      record {
        list = refl;
        pids = λ a. ground arith;
        bits = λ a. ground arith;
        parents = λ a. ground arith;
      },
      λ a h. ground arith,
    )
