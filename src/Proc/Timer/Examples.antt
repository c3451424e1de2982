-- ===== src/Proc/Timer/Examples.antt =====
-- The theorems on timers at a list of two armed timers.
use gloworm.Prelude.{◌<◌, ◌≡◌, ◌^◌, some, [], ◌∷◌, arith, if◌then◌else◌, ◌==◌}
use gloworm.Proc.Timer.{Timers, expiry, check_timers}
use gloworm.Proc.Timer.Armed.{Armed, three_seconds_pass}
use gloworm.Proc.Timer.Check.{due, not_due, check_timers_lem}

abbrev two_timers : Timers
two_timers = record {
  timer_list = record { head = 8; tail = 16 };
  nodes = λ p.
      if p == 8
      then record { next = 16; prev = 0 }
      else if p == 16
      then record { next = 0; prev = 8 }
      else record { next = 0; prev = 0 };
  expires_time = λ p. if p == 8 then 70 else if p == 16 then 50 else 0;
}

two_timers-Armed : Armed two_timers (8 ∷ 16 ∷ [])
two_timers-Armed = record {
  links = record { links = ground arith; distinct = ground arith };
  exact = λ p. ground arith;
}

check_timers_lem_example :
    (t' : Timers) × (check_timers 3 60 two_timers
      ≡ some (due 60 two_timers.expires_time (8 ∷ 16 ∷ []), t'))
    × Armed t' (not_due 60 two_timers.expires_time (8 ∷ 16 ∷ []))
check_timers_lem_example = check_timers_lem 60 two_timers 3 two_timers-Armed (omega arith)

three_seconds_pass_example : expiry (2 ^ 40) 3 0 < 2 ^ 40
three_seconds_pass_example =
    three_seconds_pass (2 ^ 40) 3 (omega arith) (omega arith) (omega arith) (omega arith)
