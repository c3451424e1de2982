-- ===== src/Proc/Timer.antt =====
-- src/kernel/proc/timer.c: the list of the timers that are armed. A timer and its queue node go by
-- the same address.
pub mod Armed
pub mod Check
mod Examples
use gloworm.Prelude.{
  ℕ, zero, suc, ◌+◌, ◌-◌, ◌*◌, ◌%◌, ◌^◌, Bool, true, false, Option, none, some, List, [], ◌∷◌, ltb,
  ◌==◌, if◌then◌else◌, update,
}
use gloworm.Utils.Queue
use gloworm.Utils.Queue.{Ptr, null, Queue, Store}

-- The list, and of each timer its node and the time at which it expires, 0 if it is not armed.
pub record Timers : Type 0 where
  pub timer_list : Queue
  pub nodes : Store
  pub expires_time : Ptr → ℕ

abbrev pub nanos_per_second : ℕ
nanos_per_second = 1000000000

-- A 32-bit int as a 64-bit word.
abbrev pub extend : ℕ → ℕ
extend x = let w = x % 2 ^ 32 in if ltb w (2 ^ 31) then w else w + (2 ^ 64 - 2 ^ 32)

-- The time that `add_timer` sets: the two products are ints, and the sum is a 64-bit word.
abbrev pub expiry : (uptime seconds microseconds : ℕ) → ℕ
expiry uptime seconds microseconds =
    (uptime + extend (seconds * nanos_per_second) + extend (microseconds * 1000)) % 2 ^ 64

unfoldable pub init_timer : Timers → Ptr → Timers
init_timer t timer = record t {
  nodes = Queue.node_init t.nodes timer;
  expires_time = update t.expires_time timer 0;
}

-- The node taken out of the list, and put in front of it.
unfoldable pub unlink : Timers → Ptr → Timers
unlink t timer =
    let (q, st) = Queue.remove t.timer_list t.nodes timer in record t { timer_list = q; nodes = st }

unfoldable pub link : Timers → Ptr → Timers
link t timer =
    let (q, st) = Queue.insert t.timer_list t.nodes timer in record t { timer_list = q; nodes = st }

unfoldable pub add_timer : Timers → Ptr → (uptime seconds microseconds : ℕ) → Timers
unfolding unlink link
add_timer t timer uptime seconds microseconds =
    let t1 = if t.expires_time timer == 0 then t else unlink t timer in
    link
      (record t1 {
        expires_time = update t1.expires_time timer (expiry uptime seconds microseconds);
      })
      timer

-- The flag is true for 0, and false for -1.
unfoldable pub remove_timer : Timers → Ptr → Bool × Timers
unfolding unlink
remove_timer t timer =
    if t.expires_time timer == 0
    then (false, t)
    else let t1 = unlink t timer in
      (true, record t1 { expires_time = update t1.expires_time timer 0 })

-- A call of the callback of `timer`, before those of the later rounds.
abbrev pub fire : Ptr → Option (List Ptr × Timers) → Option (List Ptr × Timers)
fire timer none = none
fire timer (some (fired, t)) = some (timer ∷ fired, t)

-- The loop of `check_timers` at the node `cur`, less the callbacks: it returns the timers whose
-- callbacks it calls, in order; none if the fuel ran out.
unfoldable pub check_from : (fuel uptime : ℕ) → Timers → Ptr → Option (List Ptr × Timers)
unfolding remove_timer
check_from zero uptime t cur = none
check_from (suc fuel) uptime t cur =
    let next = (t.nodes cur).next in
    let due = ltb (t.expires_time cur) uptime in
    let t' = if due then (remove_timer t cur).1 else t in
    let rest = check_from fuel uptime t' next in
    if cur == null then some ([], t) else if due then fire cur rest else rest

unfoldable pub check_timers : (fuel uptime : ℕ) → Timers → Option (List Ptr × Timers)
unfolding check_from
check_timers fuel uptime t = check_from fuel uptime t t.timer_list.head
