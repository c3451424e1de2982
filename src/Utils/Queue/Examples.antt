-- ===== src/Utils/Queue/Examples.antt =====
-- Tests of the queue, and its theorems at a queue of three nodes.
use gloworm.Prelude.{◌≡◌, refl, [], ◌∷◌, arith, if◌then◌else◌, ◌==◌}
use gloworm.Utils.Queue.{Ptr, QueueNode, Store, Queue, remove}
use gloworm.Utils.Queue.Seg.{IsQueue}

abbrev node : Ptr → Ptr → QueueNode
node n p = record { next = n; prev = p }

-- The nodes at 10, 20 and 30, in this order; the node at 40 is in no queue.
abbrev nodes : Store
nodes p =
    if p == 10
    then node 20 0
    else if p == 20
    then node 30 10
    else if p == 30
    then node 0 20
    else node 0 0

abbrev three : Queue
three = record { head = 10; tail = 30 }

three-IsQueue : IsQueue three nodes (10 ∷ 20 ∷ 30 ∷ [])
three-IsQueue = record { links = ground arith; distinct = ground arith }

remove_middle :
    let (q, st) = remove three nodes 20 in
    (q ≡ three) × (st 10 ≡ node 30 0) × (st 30 ≡ node 0 10) × (st 20 ≡ node 0 0)
unfolding remove
remove_middle = (refl, refl, refl, refl)
