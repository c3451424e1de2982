-- ===== src/Utils/Queue.antt =====
-- include/kernel/utils/queue.h: doubly linked lists threaded through their members. A pointer is a
-- number and `NULL` is 0; the nodes stand in a store that all the queues of the kernel share.
pub mod Seg
pub mod Ops
pub mod Pair
mod Examples
use gloworm.Prelude.{ℕ, Bool, ◌==◌, if◌then◌else◌, update}

abbrev pub Ptr : Type 0
Ptr = ℕ

abbrev pub null : Ptr
null = 0

-- `struct queue_node`
pub record QueueNode : Type 0 where
  pub next : Ptr
  pub prev : Ptr

abbrev pub Store : Type 0
Store = Ptr → QueueNode

-- `struct queue`
pub record Queue : Type 0 where
  pub head : Ptr
  pub tail : Ptr

abbrev pub set_next : Store → Ptr → Ptr → Store
set_next st p n = update st p (record (st p) { next = n })

abbrev pub set_prev : Store → Ptr → Ptr → Store
set_prev st p n = update st p (record (st p) { prev = n })

-- `_queue_init`
abbrev pub init : Queue
init = record { head = null; tail = null }

-- `_queue_node_init`
unfoldable pub node_init : Store → Ptr → Store
node_init st node = set_prev (set_next st node null) node null

-- `_queue_insert`
unfoldable pub insert : Queue → Store → Ptr → Queue × Store
insert queue st node =
    let st' = if queue.head == null then st else set_prev st queue.head node in
    let tail' = if queue.head == null then node else queue.tail in
    (record { head = node; tail = tail' }, set_prev (set_next st' node queue.head) node null)

-- `_queue_insert_after`
unfoldable pub insert_after : Queue → Store → Ptr → Ptr → Queue × Store
insert_after queue st node after =
    let tail : Ptr = if after == null then queue.head else (st after).next in
    let st1 = if tail == null then st else set_prev st tail node in
    let tail' : Ptr = if tail == null then node else queue.tail in
    let st2 = set_next st1 node tail in
    let st3 = if after == null then st2 else set_next st2 after node in
    let head' : Ptr = if after == null then node else queue.head in
    (record { head = head'; tail = tail' }, set_prev st3 node after)

-- `_queue_remove`
unfoldable pub remove : Queue → Store → Ptr → Queue × Store
unfolding node_init
remove queue st node =
    let n = st node in
    let st1 = if n.next == null then st else set_prev st n.next n.prev in
    let tail' : Ptr = if n.next == null then n.prev else queue.tail in
    let n1 = st1 node in
    let st2 = if n1.prev == null then st1 else set_next st1 n1.prev n1.next in
    let head' : Ptr = if n1.prev == null then n1.next else queue.head in
    (record { head = head'; tail = tail' }, node_init st2 node)
