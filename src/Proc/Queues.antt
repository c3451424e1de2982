-- ===== src/Proc/Queues.antt =====
-- src/kernel/proc/scheduler.c: how the scheduler moves the node of a process into and out of its
-- two queues.
use gloworm.Utils.Queue
use gloworm.Utils.Queue.{Ptr}
use gloworm.Proc.{Kernel}

-- `insert_proc`
unfoldable pub insert_proc : Kernel → Ptr → Kernel
insert_proc k proc =
    let (q, st) = Queue.insert k.run_queue k.nodes proc in record k { run_queue = q; nodes = st }

unfoldable pub insert_blocked : Kernel → Ptr → Kernel
insert_blocked k proc =
    let (q, st) = Queue.insert k.blocked_queue k.nodes proc in
    record k { blocked_queue = q; nodes = st }

unfoldable pub remove_ready : Kernel → Ptr → Kernel
remove_ready k proc =
    let (q, st) = Queue.remove k.run_queue k.nodes proc in record k { run_queue = q; nodes = st }

unfoldable pub remove_blocked : Kernel → Ptr → Kernel
remove_blocked k proc =
    let (q, st) = Queue.remove k.blocked_queue k.nodes proc in
    record k { blocked_queue = q; nodes = st }
