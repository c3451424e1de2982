-- ===== src/Proc/Invariant.antt =====
-- The scheduler's invariant: each of the two queues is well linked, and holds exactly the
-- processes of the table whose state says so.
use gloworm.Prelude.{◌≡◌, ◌≢◌, refl, true, false, ◌&&◌, List, ◌∷◌, arith}
use gloworm.Utils.Queue.{Ptr, null}
use gloworm.Utils.Queue.Seg.{has, IsQueue}
use gloworm.Utils.Queue.Ops.{insert_lem}
use gloworm.Utils.Queue.Pair.{erase, has-erase, remove-erase, IsQueue-frame}
use gloworm.Proc.{ProcState, running, is_running, is_blocked, Kernel}
use gloworm.Proc.Queues.{insert_proc, insert_blocked, remove_ready, remove_blocked}

-- `ps` are the processes that the scheduler manages: all but the idle process.
pub record Scheduled (k : Kernel) (ps ready waiting : List Ptr) : Type 0 where
  pub ready_links : IsQueue k.run_queue k.nodes ready
  pub waiting_links : IsQueue k.blocked_queue k.nodes waiting
  pub ready_exact : (p : Ptr) → has p ready ≡ (has p ps && is_running (k.procs p).state)
  pub waiting_exact : (p : Ptr) → has p waiting ≡ (has p ps && is_blocked (k.procs p).state)
  pub named : has null ps ≡ false

-- The invariant reads the queues and the states alone.
pub record SameStates (k k' : Kernel) : Type 0 where
  pub run_queue : k'.run_queue ≡ k.run_queue
  pub blocked_queue : k'.blocked_queue ≡ k.blocked_queue
  pub nodes : k'.nodes ≡ k.nodes
  pub states : (p : Ptr) → (k'.procs p).state ≡ (k.procs p).state

pub Scheduled-same :
    {k : Kernel} {ps ready waiting : List Ptr} (k' : Kernel)
    → Scheduled k ps ready waiting
    → SameStates k k'
    → Scheduled k' ps ready waiting
Scheduled-same k' s e = record {
  ready_links = rw (e.run_queue, e.nodes) s.ready_links;
  waiting_links = rw (e.blocked_queue, e.nodes) s.waiting_links;
  ready_exact = λ p. rw (e.states p) (s.ready_exact p);
  waiting_exact = λ p. rw (e.states p) (s.waiting_exact p);
  named = s.named;
}

-- The two queues by themselves, in the middle of an operation.
pub record Linked (k : Kernel) (ready waiting : List Ptr) : Type 0 where
  pub ready_links : IsQueue k.run_queue k.nodes ready
  pub waiting_links : IsQueue k.blocked_queue k.nodes waiting
  pub apart : (p : Ptr) → (has p ready && has p waiting) ≡ false

pub linked :
    {k : Kernel} {ps ready waiting : List Ptr}
    → Scheduled k ps ready waiting
    → Linked k ready waiting
linked {k} {ready} {waiting} s = record {
  ready_links = s.ready_links;
  waiting_links = s.waiting_links;
  apart = λ p. go p (k.procs p).state refl;
}
  where
    go :
        (p : Ptr) (st : ProcState) → (k.procs p).state ≡ st → (has p ready && has p waiting) ≡ false
    go p running e = ground (arith, s.ready_exact p, s.waiting_exact p)
    go p _ e = ground (arith, s.ready_exact p, s.waiting_exact p)

module _ {k : Kernel} {ready waiting : List Ptr} (p : Ptr) (l : Linked k ready waiting) where
  pub remove_ready-Linked : has p ready ≡ true → Linked (remove_ready k p) (erase p ready) waiting
  unfolding remove_ready
  remove_ready-Linked h =
      let (is, same, _) = remove-erase p l.ready_links h in
      record {
        ready_links = is;
        waiting_links = IsQueue-frame ready l.waiting_links same (λ a i. ground (arith, l.apart a));
        apart = λ a. ground (arith, l.apart a, has-erase a p ready l.ready_links.distinct);
      }

  pub remove_blocked-Linked :
      has p waiting ≡ true → Linked (remove_blocked k p) ready (erase p waiting)
  unfolding remove_blocked
  remove_blocked-Linked h =
      let (is, same, _) = remove-erase p l.waiting_links h in
      record {
        ready_links = IsQueue-frame waiting l.ready_links same (λ a i. ground (arith, l.apart a));
        waiting_links = is;
        apart = λ a. ground (arith, l.apart a, has-erase a p waiting l.waiting_links.distinct);
      }

  module _ (ne : p ≢ null) (out : has p ready ≡ false) (out' : has p waiting ≡ false) where
    pub insert_proc-Linked : Linked (insert_proc k p) (p ∷ ready) waiting
    unfolding insert_proc
    insert_proc-Linked =
        let (is, same) = insert_lem p l.ready_links ne out in
        record {
          ready_links = is;
          waiting_links =
              IsQueue-frame (p ∷ ready) l.waiting_links same (λ a i. ground (arith, l.apart a));
          apart = λ a. ground (arith, l.apart a);
        }

    pub insert_blocked-Linked : Linked (insert_blocked k p) ready (p ∷ waiting)
    unfolding insert_blocked
    insert_blocked-Linked =
        let (is, same) = insert_lem p l.waiting_links ne out' in
        record {
          ready_links =
              IsQueue-frame (p ∷ waiting) l.ready_links same (λ a i. ground (arith, l.apart a));
          waiting_links = is;
          apart = λ a. ground (arith, l.apart a);
        }

-- The invariant for some contents of the queues.
abbrev pub IsScheduled : Kernel → List Ptr → Type 0
IsScheduled k ps = (ready : List Ptr) × (waiting : List Ptr) × Scheduled k ps ready waiting
