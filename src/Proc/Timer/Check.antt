-- ===== src/Proc/Timer/Check.antt =====
-- `check_timers`: the loop ends, and fires exactly the timers that are due.
use gloworm.Prelude.{
  ℕ, zero, suc, ◌<◌, ◌≡◌, refl, ap, ◌∙◌, true, false, Option, some, List, [], ◌∷◌, ◌++◌, length,
  ltb, arith, ◌==◌, if◌then◌else◌, Bool-cases, inl, inr,
}
use mathlib.Core.List.{append_assoc}
use gloworm.Utils.Queue.{Ptr, null}
use gloworm.Utils.Queue.Seg.{has, Distinct-append, Seg-split}
use gloworm.Utils.Queue.Pair.{erase-append}
use gloworm.Proc.Pick.{first_or, Seg-first}
use gloworm.Proc.Timer.{Timers, fire, unlink, remove_timer, check_from, check_timers}
use gloworm.Proc.Timer.Armed.{Armed, remove_timer-Armed}

module _ (uptime : ℕ) (expires : Ptr → ℕ) where
  -- The timers of a list that are due, and those that are not.
  pub due : List Ptr → List Ptr
  due [] = []
  due (p ∷ ts) = if ltb (expires p) uptime then p ∷ due ts else due ts

  pub not_due : List Ptr → List Ptr
  not_due [] = []
  not_due (p ∷ ts) = if ltb (expires p) uptime then not_due ts else p ∷ not_due ts

check_end : (fuel uptime : ℕ) (t : Timers) → check_from (suc fuel) uptime t null ≡ some ([], t)
unfolding check_from
check_end fuel uptime t = refl

check_step :
    (fuel uptime : ℕ) (t : Timers) (p : Ptr)
    → (p == null) ≡ false
    → let t' = if ltb (t.expires_time p) uptime then (remove_timer t p).1 else t in
      let rest = check_from fuel uptime t' (t.nodes p).next in
      check_from (suc fuel) uptime t p
      ≡ (if ltb (t.expires_time p) uptime then fire p rest else rest)
unfolding check_from
check_step fuel uptime t p h = rw h

remove_timer-others :
    (t : Timers) (p a : Ptr)
    → (a == p) ≡ false
    → (remove_timer t p).1.expires_time a ≡ t.expires_time a
unfolding remove_timer unlink
remove_timer-others t p a h = elim (Bool-cases (t.expires_time p == 0)) [
  | inl e ↦ rw e refl
  | inr e ↦ rw (e, h) refl
]

-- What the loop leaves behind, started with the timers `ws` to come.
abbrev Checked : ℕ → Timers → (pre ws : List Ptr) → Option (List Ptr × Timers) → Type 0
Checked uptime t pre ws r =
    (t' : Timers) × (r ≡ some (due uptime t.expires_time ws, t'))
    × Armed t' (pre ++ not_due uptime t.expires_time ws)

module _ (uptime : ℕ) (t : Timers) where
  check_loop :
      (ws pre : List Ptr) (tc : Timers) (cur fuel : ℕ)
      → Armed tc (pre ++ ws)
      → cur ≡ first_or null ws
      → ((a : Ptr) → has a ws ≡ true → tc.expires_time a ≡ t.expires_time a)
      → length ws < fuel
      → Checked uptime t pre ws (check_from fuel uptime tc cur)
  unfolding due not_due
  check_loop ws pre tc cur zero s e same h = absurd (omega arith)
  check_loop [] pre tc cur (suc fuel) s e same h = (tc, rw e (check_end fuel uptime tc), s)
  check_loop (x ∷ ws) pre tc cur (suc fuel) s e same h =
      let (m, b, front, back) =
        Seg-split tc.nodes pre (x ∷ ws) tc.timer_list.head null null tc.timer_list.tail
          s.links.links in
      let (d, d', sep) = Distinct-append pre (x ∷ ws) s.links.distinct in
      let next = Seg-first tc.nodes ws (tc.nodes x).next x null tc.timer_list.tail back.3 in
      let here : tc.expires_time x ≡ t.expires_time x = same x (ground arith) in
      rw (e, check_step fuel uptime tc x (ground (arith, back.1)), here)
        (elim (Bool-cases (ltb (t.expires_time x) uptime)) [
          | inl now ↦
              let (t', r, s') =
                check_loop ws pre (remove_timer tc x).1 (tc.nodes x).next fuel
                  (rw (← erase-append x pre ws (ground (arith, sep x))) (remove_timer-Armed x s).0)
                  next
                  (λ a i. remove_timer-others tc x a (ground (arith, d'.0)) ∙ same a (ground arith))
                  (omega arith) in
              rw now (t', ap (fire x) r, s')
          | inr later ↦ rw later (
              rw append_assoc at (
                check_loop ws (pre ++ x ∷ []) tc (tc.nodes x).next fuel (rw append_assoc s) next
                  (λ a i. same a (ground arith)) (omega arith)))
        ])

  -- With the list holding exactly the armed timers, and with fuel for one round more than there
  -- are of them, `check_timers` ends. It disarms the timers whose time has passed, calls their
  -- callbacks in the order of the list, and leaves the others armed in theirs.
  pub check_timers_lem :
      {ts : List Ptr} (fuel : ℕ)
      → Armed t ts
      → length ts < fuel
      → (t' : Timers) × (check_timers fuel uptime t ≡ some (due uptime t.expires_time ts, t'))
        × Armed t' (not_due uptime t.expires_time ts)
  unfolding check_timers
  check_timers_lem {ts} fuel s h =
      check_loop ts [] t t.timer_list.head fuel s
        (Seg-first t.nodes ts t.timer_list.head null null t.timer_list.tail s.links.links)
        (λ a i. refl) h
