-- ===== src/Proc/Wakeup.antt =====
-- `resume_blocked_procs`: the loop ends, and wakes exactly the processes that wait for the events.
use gloworm.Prelude.{
  ℕ, zero, suc, ◌<◌, ◌≡◌, refl, ◌∙◌, true, false, Option, some, List, [], ◌∷◌, ◌++◌, length, arith,
  ◌==◌, if◌then◌else◌, Bool-cases, inl, inr,
}
use mathlib.Core.List.{append_assoc}
use gloworm.Utils.Queue.{Ptr, null}
use gloworm.Utils.Queue.Seg.{has, Distinct-append, Seg-split, has-append}
use gloworm.Utils.Queue.Pair.{erase-append}
use gloworm.Proc.{ProcState, blocked, stopped, is_blocked, Process, Kernel}
use gloworm.Proc.Queues.{insert_proc, remove_blocked}
use gloworm.Proc.Scheduler.{
  WaitCheck, wants, resume_proc, resume_blocked_from, resume_blocked_procs,
}
use gloworm.Proc.Invariant.{Scheduled}
use gloworm.Proc.Preserve.{resume_blocked}
use gloworm.Proc.Pick.{first_or, Seg-first}

module _ (check : WaitCheck) (events : ℕ) where
  module _ (procs : Ptr → Process) where
    -- The run queue after the processes that want to wake are put in front, one by one.
    pub woken : List Ptr → List Ptr → List Ptr
    woken ready [] = ready
    woken ready (p ∷ ws) = woken (if wants check events p (procs p) then p ∷ ready else ready) ws

    -- Those that go on waiting.
    pub left : List Ptr → List Ptr
    left [] = []
    left (p ∷ ws) = if wants check events p (procs p) then left ws else p ∷ left ws

resume_proc-others :
    (k : Kernel) (p a : Ptr) → (a == p) ≡ false → (resume_proc k p).procs a ≡ k.procs a
unfolding resume_proc insert_proc remove_blocked
resume_proc-others k p a h = go (k.procs p).state refl
  where
    go : (st : ProcState) → (k.procs p).state ≡ st → (resume_proc k p).procs a ≡ k.procs a
    go blocked e = rw (e, h)
    go stopped e = rw (e, h)
    go _ e = rw e

blocked_of : (st : ProcState) → is_blocked st ≡ true → st ≡ blocked
blocked_of blocked h = refl
blocked_of _ h = absurd (cc)

module _ (check : WaitCheck) (events : ℕ) where
  wake_end : (fuel : ℕ) (k : Kernel) → resume_blocked_from check events (suc fuel) k null ≡ some k
  unfolding resume_blocked_from
  wake_end fuel k = refl

  wake_step :
      (fuel : ℕ) (k : Kernel) (p : Ptr)
      → (p == null) ≡ false
      → resume_blocked_from check events (suc fuel) k p
        ≡ resume_blocked_from check events fuel
            (if wants check events p (k.procs p) then resume_proc k p else k)
            (k.nodes p).next
  unfolding resume_blocked_from
  wake_step fuel k p h = rw h

  -- What the loop leaves behind, started with the processes `ws` to come.
  abbrev Woke : Kernel → (ps ready pre ws : List Ptr) → Option Kernel → Type 0
  Woke k ps ready pre ws r =
      (k' : Kernel) × (r ≡ some k')
      × Scheduled k' ps (woken check events k.procs ready ws) (pre ++ left check events k.procs ws)

  module _ (k : Kernel) {ps : List Ptr} where
    wake_loop :
        (ws pre : List Ptr) {ready : List Ptr} (kc : Kernel) (cur fuel : ℕ)
        → Scheduled kc ps ready (pre ++ ws)
        → cur ≡ first_or null ws
        → ((a : Ptr) → has a ws ≡ true → kc.procs a ≡ k.procs a)
        → length ws < fuel
        → Woke k ps ready pre ws (resume_blocked_from check events fuel kc cur)
    unfolding woken left
    wake_loop ws pre kc cur zero s e same h = absurd (omega arith)
    wake_loop [] pre kc cur (suc fuel) s e same h = (kc, rw e (wake_end fuel kc), s)
    wake_loop (x ∷ ws) pre {ready} kc cur (suc fuel) s e same h =
        let (m, b, front, back) =
          Seg-split kc.nodes pre (x ∷ ws) kc.blocked_queue.head null null kc.blocked_queue.tail
            s.waiting_links.links in
        let (d, d', sep) = Distinct-append pre (x ∷ ws) s.waiting_links.distinct in
        let next = Seg-first kc.nodes ws (kc.nodes x).next x null kc.blocked_queue.tail back.3 in
        let here : kc.procs x ≡ k.procs x = same x (ground arith) in
        let inside : has x (pre ++ x ∷ ws) ≡ true = ground (arith, has-append x pre (x ∷ ws)) in
        rw (e, wake_step fuel kc x (ground (arith, back.1)), here)
          (elim (Bool-cases (wants check events x (k.procs x))) [
            | inl want ↦ rw want (
                wake_loop ws pre (resume_proc kc x) (kc.nodes x).next fuel
                  (rw (← erase-append x pre ws (ground (arith, sep x))) (
                    resume_blocked x s (ground (arith, inside, s.waiting_exact x))
                      (blocked_of _ (ground (arith, inside, s.waiting_exact x)))))
                  next
                  (λ a i. resume_proc-others kc x a (ground (arith, d'.0)) ∙ same a (ground arith))
                  (omega arith))
            | inr leave ↦ rw leave (
                rw append_assoc at (
                  wake_loop ws (pre ++ x ∷ []) {ready = ready} kc (kc.nodes x).next fuel
                    (rw append_assoc s) next (λ a i. same a (ground arith)) (omega arith)))
          ])

    -- Under the invariant, and with fuel for one round more than there are blocked processes,
    -- `resume_blocked_procs` ends. It moves to the front of the run queue, one by one, exactly the
    -- processes that want to wake, leaves the others blocked in their order, and keeps the
    -- invariant.
    pub resume_blocked_procs_lem :
        {ready waiting : List Ptr} (fuel : ℕ)
        → Scheduled k ps ready waiting
        → length waiting < fuel
        → (k' : Kernel) × (resume_blocked_procs check events fuel k ≡ some k')
          × Scheduled k' ps
              (woken check events k.procs ready waiting)
              (left check events k.procs waiting)
    unfolding resume_blocked_procs
    resume_blocked_procs_lem {waiting} fuel s h =
        wake_loop waiting [] k k.blocked_queue.head fuel s
          (Seg-first k.nodes waiting k.blocked_queue.head null null k.blocked_queue.tail
            s.waiting_links.links)
          (λ a i. refl) h
