-- ===== src/Proc/Pick.antt =====
-- `schedule`: which process runs next.
use gloworm.Prelude.{◌≡◌, true, not, ◌||◌, List, [], ◌∷◌, ◌++◌, arith, ◌==◌}
use gloworm.Utils.Queue.{Ptr, null, Store}
use gloworm.Utils.Queue.Seg.{Seg, Seg-split, has-append}
use gloworm.Proc.{is_running, Kernel}
use gloworm.Proc.Scheduler.{pick}
use gloworm.Proc.Invariant.{Scheduled}

abbrev pub first_or : Ptr → List Ptr → Ptr
first_or d [] = d
first_or d (x ∷ xs) = x

-- A segment starts at its first node, or at what lies behind it.
pub Seg-first : (st : Store) (xs : List Ptr) (p b n e : Ptr) → Seg st p b xs n e → p ≡ first_or n xs
Seg-first st [] p b n e s = s.0
Seg-first st (x ∷ xs) p b n e s = s.0

-- With the current process not ready, or none behind it, the scheduler picks the first of the
-- run queue, and the idle process if there is none.
pub pick_first :
    {k : Kernel} {ps waiting : List Ptr} (ready : List Ptr)
    → Scheduled k ps ready waiting
    → (k.current_proc == null
        || not (is_running (k.procs k.current_proc).state)
        || (k.nodes k.current_proc).next == null)
      ≡ true
    → pick k ≡ first_or k.idle_proc ready
unfolding pick
pick_first [] s h = ground (arith, s.ready_links.links)
pick_first (x ∷ xs) s h = ground (arith, s.ready_links.links)

-- Under the invariant, with the current process in the run queue, the scheduler goes round the
-- queue: it picks the process behind the current one, and the first behind the last.
pub pick-cyclic :
    (xs ys : List Ptr) {k : Kernel} {ps waiting : List Ptr}
    → Scheduled k ps (xs ++ k.current_proc ∷ ys) waiting
    → pick k ≡ first_or k.idle_proc (ys ++ xs ++ k.current_proc ∷ [])
unfolding pick
pick-cyclic xs [] {k} s =
    let c = k.current_proc in
    let (m, b, front, back) =
      Seg-split k.nodes xs (c ∷ []) k.run_queue.head null null k.run_queue.tail
        s.ready_links.links in
    pick_first (xs ++ c ∷ []) s (ground (arith, back.3))
pick-cyclic xs (y ∷ ys) {k} s =
    let c = k.current_proc in
    let (m, b, front, back) =
      Seg-split k.nodes xs (c ∷ y ∷ ys) k.run_queue.head null null k.run_queue.tail
        s.ready_links.links in
    ground (arith, back.1, back.3, s.ready_exact c, has-append c xs (c ∷ y ∷ ys))
