-- ===== src/Proc/Timer/Armed.antt =====
-- The list of timers holds exactly the timers that are armed.
use gloworm.Prelude.{
  ℕ, ◌<◌, ◌≤◌, ◌≡◌, ◌≢◌, inl, inr, refl, true, false, not, List, [], ◌∷◌, ◌^◌, ne→==, update, arith,
  ◌==◌, if◌then◌else◌, Bool-cases,
}
use gloworm.Utils.Queue.{Ptr, null}
use gloworm.Utils.Queue.Seg.{has, IsQueue}
use gloworm.Utils.Queue.Ops.{insert_lem}
use gloworm.Utils.Queue.Pair.{erase, has-erase, remove-erase}
use gloworm.Proc.Timer.{Timers, expiry, unlink, link, add_timer, remove_timer}

pub record Armed (t : Timers) (ts : List Ptr) : Type 0 where
  pub links : IsQueue t.timer_list t.nodes ts
  pub exact : (a : Ptr) → has a ts ≡ not (t.expires_time a == 0)

erase_absent : (p : Ptr) (xs : List Ptr) → has p xs ≡ false → erase p xs ≡ xs
erase_absent p [] h = refl
erase_absent p (x ∷ xs) h = ground (arith, erase_absent p xs)

-- The first step of `add_timer`.
unlinked :
    {t : Timers} {ts : List Ptr} (p : Ptr)
    → Armed t ts
    → let t1 = if t.expires_time p == 0 then t else unlink t p in
      IsQueue t1.timer_list t1.nodes (erase p ts)
      × ((b : Ptr) → t1.expires_time b ≡ t.expires_time b)
unfolding unlink
unlinked {t} {ts} p a = elim (Bool-cases (t.expires_time p == 0)) [
  | inl e ↦ rw (e, erase_absent p ts (ground (arith, a.exact p, e))) (a.links, λ b. refl)
  | inr e ↦
      let (is, _, _) = remove-erase p a.links (ground (arith, a.exact p, e)) in rw e (is, λ b. refl)
]

-- With the list holding exactly the armed timers, `remove_timer` takes an armed one out of the
-- list and disarms it, and fails on one that is not armed, which leaves the list as it is.
pub remove_timer-Armed :
    {t : Timers} {ts : List Ptr} (p : Ptr)
    → Armed t ts
    → let (ok, t') = remove_timer t p in
      Armed t' (erase p ts) × (ok ≡ has p ts) × (has p (erase p ts) ≡ false)
unfolding remove_timer unlink
remove_timer-Armed {t} {ts} p a = elim (Bool-cases (t.expires_time p == 0)) [
  | inl e ↦
      let h : has p ts ≡ false = ground (arith, a.exact p, e) in
      let same = erase_absent p ts h in rw (e, same) (a, ground (arith, h), h)
  | inr e ↦
      let h : has p ts ≡ true = ground (arith, a.exact p, e) in
      let (is, _, _) = remove-erase p a.links h in
      let gone = λ (b : Ptr). has-erase b p ts a.links.distinct in
      rw e (
        record { links = is; exact = λ b. ground (arith, gone b, a.exact b) },
        ground (arith, h),
        ground (arith, gone p),
      )
]

-- With the list holding exactly the armed timers, `add_timer` arms a timer that is not null,
-- whether or not it was armed before, and puts it in front of the list. The time that it sets is
-- not 0.
add_timer-Armed :
    {t : Timers} {ts : List Ptr} (p uptime seconds microseconds : ℕ)
    → Armed t ts
    → p ≢ null
    → expiry uptime seconds microseconds ≢ 0
    → Armed (add_timer t p uptime seconds microseconds) (p ∷ erase p ts)
unfolding add_timer link
add_timer-Armed {t} {ts} p uptime seconds microseconds a ne set =
    let t1 = if t.expires_time p == 0 then t else unlink t p in
    let t2 = record t1 {
      expires_time = update t1.expires_time p (expiry uptime seconds microseconds);
    } in
    let gone = λ (b : Ptr). has-erase b p ts a.links.distinct in
    let (is, times) = unlinked p a in
    let (is', _) =
      insert_lem {q = t2.timer_list} {st = t2.nodes} p is ne (ground (arith, gone p)) in
    record { links = is'; exact = λ b. ground (arith, gone b, a.exact b, times b, ne→== _ _ set) }

-- At an uptime from 2^31 to 2^63 nanoseconds, an alarm three or four seconds ahead is set to a
-- time in the past: the product of the seconds does not fit an int.
pub three_seconds_pass :
    (uptime seconds : ℕ)
    → 3 ≤ seconds
    → seconds ≤ 4
    → 2 ^ 31 ≤ uptime
    → uptime < 2 ^ 63
    → expiry uptime seconds 0 < uptime
three_seconds_pass uptime seconds low high old small = ground (arith, low, high)
