-- ===== src/Irq/Bh.antt =====
-- src/kernel/irq/bh.c and include/kernel/irq/bh.h: the bottom halves, which interrupts request and
-- which run later. What a handler does is an argument.
pub mod Run
mod Examples
use gloworm.Prelude.{
  ℕ, zero, suc, ◌+◌, ◌-◌, ◌^◌, Bool, true, false, List, [], ◌∷◌, ◌==◌, if◌then◌else◌, update,
}
use Prim.Native.Nat.{bit_and, bit_or}
use gloworm.Utils.Queue.{Ptr, null}

abbrev pub bh_max : ℕ
bh_max = 10

-- `struct bh_handler`.
pub record BhHandler : Type 0 where
  pub fn : Ptr
  pub data_ptr : Ptr

-- The variables of bh.c: two words of 16 bits and the table of the handlers.
pub record Bh : Type 0 where
  pub bh_enabled : ℕ
  pub bh_requested : ℕ
  pub bh_handlers : ℕ → BhHandler

unfoldable pub init_bh : Bh
init_bh = record {
  bh_enabled = 0;
  bh_requested = 0;
  bh_handlers = λ i. record { fn = null; data_ptr = null };
}

abbrev pub clear_bit : (word i : ℕ) → ℕ
clear_bit word i = bit_and word (0xffff - 2 ^ i)

unfoldable pub register_bh : Bh → (bhnum : ℕ) → (fn data_ptr : Ptr) → Bh
register_bh bh bhnum fn data_ptr = record bh {
  bh_handlers = update bh.bh_handlers bhnum (record { fn = fn; data_ptr = data_ptr });
  bh_enabled = bit_or bh.bh_enabled (2 ^ bhnum);
}

unfoldable pub enable_bh : Bh → (bhnum : ℕ) → Bh
enable_bh bh bhnum = record bh { bh_enabled = bit_or bh.bh_enabled (2 ^ bhnum) }

unfoldable pub disable_bh : Bh → (bhnum : ℕ) → Bh
disable_bh bh bhnum = record bh { bh_enabled = clear_bit bh.bh_enabled bhnum }

unfoldable pub request_bh_run : Bh → (bhnum : ℕ) → Bh
request_bh_run bh bhnum = record bh { bh_requested = bit_or bh.bh_requested (2 ^ bhnum) }

-- A handler may change the variables, and the rest of the system.
module _ {S : Type 0} (call : BhHandler → Bh → S → Bh × S) where
  -- The loop of `run_bh_handlers`, with the rounds left and the word of what it is to run; the list
  -- is the numbers of the handlers that it calls, in their order.
  unfoldable pub run_from : (rounds i requested : ℕ) → Bh → S → List ℕ × Bh × S
  run_from zero i requested bh st = ([], bh, st)
  run_from (suc n) i requested bh st =
      let cleared = record bh { bh_requested = clear_bit bh.bh_requested i } in
      let (bh', st') = call (bh.bh_handlers i) cleared st in
      let passed = run_from n (i + 1) requested bh st in
      let continued = run_from n (i + 1) requested cleared st in
      let rest = run_from n (i + 1) requested bh' st' in
      if bit_and requested (2 ^ i) == 0
      then passed
      else if (bh.bh_handlers i).fn == null
      then continued
      else (i ∷ rest.0, rest.1, rest.2)

  unfoldable pub run_bh_handlers : Bh → S → List ℕ × Bh × S
  run_bh_handlers bh st = run_from bh_max 0 (bit_and bh.bh_enabled bh.bh_requested) bh st
