-- ===== src/Proc/Table.antt =====
-- src/kernel/proc/process.c: the table of processes.
use gloworm.Prelude.{
  ℕ, zero, suc, ◌+◌, ◌-◌, ◌*◌, Bool, true, false, not, ◌&&◌, ◌||◌, Option, none, some, ltb, leb,
  ◌==◌, if◌then◌else◌, update,
}
use gloworm.Utils.Queue
use gloworm.Utils.Queue.{Ptr, null}
use gloworm.Proc.{ProcState, exited, running, Process, Kernel, init_pid, max_processes, modify}
use gloworm.Proc.Queues.{insert_proc}

-- The loops over the table from the slot `i`, with the rounds left, stop at the first process
-- that fits, or return null.
unfoldable pub find_from : (Ptr → Bool) → (ℕ → Ptr) → ℕ → ℕ → Ptr
find_from test list zero i = null
find_from test list (suc n) i =
    let rest = find_from test list n (i + 1) in
    if not (list i == null) && test (list i) then list i else rest

unfoldable pub get_proc : Kernel → ℕ → Ptr
get_proc k pid = find_from (λ p. (k.procs p).pid == pid) k.process_list max_processes 0

is_exited : ProcState → Bool
is_exited exited = true
is_exited _ = false

-- `child` is none for -1.
unfoldable pub find_exited_child : Kernel → ℕ → Option ℕ → Ptr
unfolding find_from is_exited
find_exited_child k parent child =
    find_from
      (λ p.
        is_exited (k.procs p).state
        && (k.procs p).parent == parent
        && (elim child [ none ↦ true | some c ↦ (k.procs p).pid == c ]))
      k.process_list max_processes 0

-- `proc_iter_next`: the next process from the slot on, null behind the last one, and the slot behind
-- it; none if the fuel ran out.
unfoldable pub proc_iter_next : (fuel : ℕ) → Kernel → ℕ → Option (Ptr × ℕ)
proc_iter_next zero k slotnum = none
proc_iter_next (suc n) k slotnum =
    let rest = proc_iter_next n k (slotnum + 1) in
    if leb max_processes slotnum
    then some (null, slotnum)
    else if k.process_list slotnum == null
    then rest
    else some (k.process_list slotnum, slotnum + 1)

-- A process of the table that is a child of `pid`.
abbrev pub is_child : ℕ → Kernel → Ptr → Bool
is_child pid k p = not (p == null) && (k.procs p).parent == pid

unfoldable pub adopt : ℕ → Kernel → Ptr → Kernel
adopt pid k p = if is_child pid k p then modify k p (λ r. record r { parent = init_pid }) else k

-- The loop of `close_proc`: the children of the process go to init; it counts them.
unfoldable pub reparent_from : ℕ → ℕ → ℕ → Kernel → ℕ × Kernel
reparent_from zero i pid k = (0, k)
reparent_from (suc n) i pid k =
    let p = k.process_list i in
    let (count, k') = reparent_from n (i + 1) pid (adopt pid k p) in
    (if is_child pid k p then count + 1 else count, k')

-- `close_proc`, less the release of its timer, files, memory map and machine context.
unfoldable pub close_proc : Kernel → Ptr → ℕ × Kernel
close_proc k proc =
    let k' = record k {
      previous_proc = if proc == k.previous_proc then null else k.previous_proc;
    } in
    reparent_from max_processes 0 (k.procs proc).pid k'

-- `cleanup_proc`, less the release of the memory.
unfoldable pub cleanup_proc : Kernel → Ptr → Kernel
cleanup_proc k proc =
    let slot = (k.procs proc).slotnum in
    if k.process_list slot == proc
    then record k {
      process_list = update k.process_list slot null;
      num_processes = k.num_processes - 1;
    }
    else k

-- The loop of `next_slotnum` on fuel, with `next_process_slot` and `once`. The outer option is
-- none if the fuel ran out, the inner one for -1.
unfoldable pub slot_from : ℕ → (ℕ → Ptr) → ℕ → Bool → Option (Option ℕ × ℕ)
slot_from zero list i once = none
slot_from (suc fuel) list i once =
    let past = ltb max_processes (i + 1) in
    let rest = slot_from fuel list (if past then 0 else i + 1) (once || past) in
    if list i == null
    then some (some i, i + 1)
    else if past && once
    then some (none, i + 1)
    else rest

-- `next_slotnum`; two rounds through the table are enough.
unfoldable pub next_slotnum : Kernel → Option (Option ℕ × ℕ)
unfolding slot_from
next_slotnum k = slot_from (2 * max_processes + 4) k.process_list k.next_process_slot false

-- The record that `new_proc` fills in; the memory is zeroed before.
abbrev pub fresh_process : (pid slot : ℕ) → Process
fresh_process pid slot = record {
  state = running;
  pid = pid;
  parent = init_pid;
  pgid = pid;
  slotnum = slot;
  bits = 0;
  exitcode = 0;
  return_value = 0;
  wait_events = 0;
  wait_check = null;
  blocked_call = record { syscall = 0; args = λ _. 0 };
  signal_pending = 0;
  ignored = 0;
  blocked_mask = 0;
  pending = 0;
  actions = λ _. record { sa_handler = null; sa_flags = 0; sa_mask = 0; sa_restorer = null };
}

-- `new_proc`, with the address that the allocator returns; the first result is null on failure.
-- The option is none if the search for a slot ran out of fuel.
unfoldable pub new_proc : Kernel → (pid : ℕ) → (allocated : Ptr) → Option (Ptr × Kernel)
unfolding next_slotnum insert_proc
new_proc k pid allocated =
    let pid' = if pid == 0 then k.next_pid else pid in
    let k1 = record k { next_pid = if pid == 0 then k.next_pid + 1 else k.next_pid } in
    if leb max_processes k.num_processes then some (null, k1) else elim (next_slotnum k1) [
      | none ↦ none
      | some (none, at) ↦ some (null, record k1 { next_process_slot = at })
      | some (some slot, at) ↦
          let k2 = record k1 { next_process_slot = at } in
          if allocated == null
          then some (null, k2)
          else some (
            allocated,
            insert_proc
                (record k2 {
                  procs = update k2.procs allocated (fresh_process pid' slot);
                  process_list = update k2.process_list slot allocated;
                  num_processes = k2.num_processes + 1;
                  nodes = Queue.node_init k2.nodes allocated;
                })
                allocated,
          )
    ]
