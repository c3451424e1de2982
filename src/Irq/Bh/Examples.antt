-- ===== src/Irq/Bh/Examples.antt =====
-- The theorem on three registered handlers, of which one is not enabled; each requests number 4.
use gloworm.Prelude.{ℕ, suc, ◌+◌, ◌-◌, ◌^◌, ◌≤◌, ◌<◌, ◌≡◌, refl, ◌==◌, if◌then◌else◌, arith}
use gloworm.Prelude.Bits.{bit_at, bit_at-or}
use Prim.Native.Nat.{bit_and, bit_or}
use gloworm.Utils.Queue.{null}
use gloworm.Irq.Bh.{BhHandler, Bh, bh_max, run_bh_handlers}
use gloworm.Irq.Bh.Run.{KeepsRequests, asked, due, run_bh_handlers-due}

-- The number of calls is counted.
abbrev count_and_request : BhHandler → Bh → ℕ → Bh × ℕ
count_and_request h bh n = (record bh { bh_requested = bit_or bh.bh_requested (2 ^ 4) }, suc n)

-- The request of number 4.
abbrev number_4 : BhHandler → ℕ
number_4 h = 2 ^ 4

count_and_request-KeepsRequests : KeepsRequests count_and_request number_4
count_and_request-KeepsRequests = record {
  table = λ h bh st. refl;
  requests = λ h bh st j. omega (arith, bit_at-or bh.bh_requested (2 ^ 4) j);
  no_more = λ h bh st j. omega (arith, bit_at-or bh.bh_requested (2 ^ 4) j);
}

abbrev three_requested : Bh
three_requested = record {
  bh_enabled = 0x0005;
  bh_requested = 0x0007;
  bh_handlers = λ i. record { fn = if i == 5 then null else 0x1000 + i; data_ptr = null };
}

run_bh_handlers-due_example :
    let r = run_bh_handlers count_and_request three_requested 0 in
    let word = bit_and three_requested.bh_enabled three_requested.bh_requested in
    (r.0 ≡ due count_and_request bh_max 0 word three_requested.bh_handlers)
    × ((j : ℕ)
        → j < bh_max
        → bit_at three_requested.bh_enabled j ≡ 0
        → bit_at three_requested.bh_requested j ≤ bit_at r.1.bh_requested j)
    × ((j : ℕ)
        → j < bh_max
        → bit_at three_requested.bh_enabled j ≡ 1
        → bit_at three_requested.bh_requested j ≡ 1
        → bit_at r.1.bh_requested j
          ≤ asked count_and_request number_4 three_requested.bh_handlers
              (due count_and_request (suc (bh_max - 1 - j)) j word three_requested.bh_handlers)
              j)
run_bh_handlers-due_example =
    run_bh_handlers-due count_and_request number_4 three_requested 0 count_and_request-KeepsRequests
