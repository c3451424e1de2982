-- ===== src/Utils/Queue/Ops.antt =====
-- The operations of a queue on the sequence of its nodes.
use gloworm.Prelude.{◌≡◌, ◌≢◌, refl, true, false, List, [], ◌∷◌, ◌++◌, arith, ◌==◌, if◌then◌else◌}
use gloworm.Utils.Queue.{Ptr, null, Store, Queue, insert, insert_after, remove, node_init}
use gloworm.Utils.Queue.Seg.{
  has, Distinct, Seg, IsQueue, SameOutside, Seg-split, Seg-join, Seg-frame, Seg-relink, Seg-ne-null,
  has-last, apart, last-next, first_or_behind, last_or_before, Seg-cast, has-append,
  Distinct-append, Distinct-insert_behind, Distinct-remove,
}

-- `_queue_insert` puts a node that is not null and not in a well linked queue in front of it, and
-- changes no node but those of the queue.
pub insert_lem :
    {q : Queue} {st : Store} {xs : List Ptr} (x : Ptr)
    → IsQueue q st xs
    → x ≢ null
    → has x xs ≡ false
    → let (q', st') = insert q st x in IsQueue q' st' (x ∷ xs) × SameOutside (x ∷ xs) st st'
unfolding insert
insert_lem {q} {st} {xs = []} x is ne out =
    (record { links = ground (arith, is.links); distinct = ground arith }, ground (arith, is.links))
insert_lem {q} {st} {xs = y ∷ ys} x is ne out =
    let st' = (insert q st x).1 in
    let h : (q.head == null) ≡ false = ground (arith, is.links) in
    (
      record {
        links = (
          refl,
          ne,
          ground arith,
          Seg-cast st' (y ∷ ys) q.head x null q.tail _ _ (ground arith) (ground arith) (
              Seg-relink st st' y ys q.head null null q.tail x null is.links is.distinct (λ a i.
                ground (
                  arith,
                  is.links,
                  last-next st y ys q.head null null q.tail is.links,
                  apart x a (y ∷ ys),
                ))),
        );
        distinct = (out, is.distinct);
      },
      ground (arith, is.links),
    )

-- What `_queue_remove` writes, where the three nodes are different.
remove_nodes :
    (q : Queue) (st : Store) (x a : Ptr)
    → ((st x).next == x) ≡ false
    → ((st x).prev == x) ≡ false
    → let st' = (remove q st x).1 in
      (a == x) ≡ false
      → ((st' a).next ≡ (
          if (a == (st x).prev)
          then (if a == null then (st a).next else (st x).next)
          else (st a).next))
        × ((st' a).prev ≡ (
            if (a == (st x).next)
            then (if a == null then (st a).prev else (st x).prev)
            else (st a).prev))
unfolding remove node_init
remove_nodes q st x a h k ne = (ground arith, ground arith)

module _ (st st' : Store) (p n k n' : Ptr) where
  -- The part before a removed or inserted node: the link of its last node changes.
  front-Seg :
      (xs : List Ptr)
      → Seg st p null xs n k
      → Distinct xs
      → ((a : Ptr)
          → has a xs ≡ true
          → ((st' a).next ≡ (if a == k then n' else (st a).next)) × ((st' a).prev ≡ (st a).prev))
      → Seg st' (if k == null then n' else p) null xs n' k
  front-Seg [] s d h = ground arith
  front-Seg (w ∷ ws) s d h =
      let k≠0 = Seg-ne-null st (w ∷ ws) p null n k k s (has-last st w ws p null n k s) in
      Seg-cast st' (w ∷ ws) p null n' k _ _ (ground arith) refl
        (Seg-relink st st' w ws p null n k null n' s d (λ a i. ground (arith, h a)))

  -- The part behind it: the back pointer of its first node changes.
  back-Seg :
      (e b : Ptr) (ys : List Ptr)
      → Seg st p b ys null e
      → Distinct ys
      → ((a : Ptr)
          → has a ys ≡ true
          → ((st' a).next ≡ (st a).next) × ((st' a).prev ≡ (if a == p then k else (st a).prev)))
      → Seg st' p k ys null (if p == null then k else e)
  back-Seg e b [] s d h = ground arith
  back-Seg e b (y ∷ ys) s d h = Seg-cast st' (y ∷ ys) p k null e _ _ refl (ground arith) (
      Seg-relink st st' y ys p b null e k null s d
        (λ a i. ground (arith, h a, last-next st y ys p b null e s)))

remove_ends :
    (q : Queue) (st : Store) (x : Ptr)
    → ((st x).next == x) ≡ false
    → let (q', st') = remove q st x in
      (q'.head ≡ (if (st x).prev == null then (st x).next else q.head))
      × (q'.tail ≡ (if (st x).next == null then (st x).prev else q.tail))
      × (st' x ≡ record { next = null; prev = null })
unfolding remove node_init
remove_ends q st x h = (ground arith, ground arith, ground arith)

-- `_queue_remove` of a node of a well linked queue takes it out, leaves the others in order,
-- clears the node's links, and changes no node but those of the queue.
pub remove_lem :
    {q : Queue} {st : Store} (xs ys : List Ptr) (x : Ptr)
    → IsQueue q st (xs ++ x ∷ ys)
    → let (q', st') = remove q st x in
      IsQueue q' st' (xs ++ ys)
      × SameOutside (xs ++ x ∷ ys) st st'
      × (st' x ≡ record { next = null; prev = null })
remove_lem {q} {st} xs ys x is =
    let (m, k, front, back) = Seg-split st xs (x ∷ ys) q.head null null q.tail is.links in
    let (d, d', sep) = Distinct-append xs (x ∷ ys) is.distinct in
    let (q', st') = remove q st x in
    let n : Ptr = (st x).next in
    let n-in = first_or_behind st ys n x null q.tail back.3 in
    let k-in = last_or_before st xs q.head null m k front in
    let nx : (n == x) ≡ false = ground arith in
    let kx : ((st x).prev == x) ≡ false = ground (arith, sep k) in
    let (head', tail', self) = remove_ends q st x nx in
    let nodes = λ (a : Ptr). remove_nodes q st x a nx kx in
    (
      record {
        links =
            Seg-join st' xs ys q'.head null n k null q'.tail
              (Seg-cast st' xs _ null n k _ _ (ground arith) refl (
                front-Seg st st' q.head m k n xs front d (λ a i. ground (
                  arith,
                  nodes a,
                  sep a,
                  apart a n ys,
                  Seg-ne-null st xs q.head null m k a front i,
                ))))
              (Seg-cast st' ys n k null _ _ _ refl (ground arith) (
                back-Seg st st' n m k n q.tail x ys back.3 d'.1 (λ a i.
                  ground (arith, nodes a, sep a, Seg-ne-null st ys n x null q.tail a back.3 i))));
        distinct = (Distinct-remove xs ys x is.distinct).0;
      },
      (λ a o. ground (arith, nodes a, has-append a xs (x ∷ ys))),
      self,
    )

-- Removing a node whose links are null, one that is in no queue, empties the queue.
pub remove_detached :
    (q : Queue) (st : Store) (x : Ptr)
    → st x ≡ record { next = null; prev = null }
    → (remove q st x).0 ≡ record { head = null; tail = null }
unfolding remove
remove_detached q st x e = ground arith

insert_after_nodes :
    (q : Queue) (st : Store) (x after a : Ptr)
    → (after == null) ≡ false
    → (after == x) ≡ false
    → (after == (st after).next) ≡ false
    → let (q', st') = insert_after q st x after in
      let n = (st after).next in
      (q'.head ≡ q.head)
      × (q'.tail ≡ (if n == null then x else q.tail))
      × ((st' x).next ≡ n)
      × ((st' x).prev ≡ after)
      × ((a == x) ≡ false
          → ((st' a).next ≡ (if a == after then x else (st a).next))
            × ((st' a).prev
                ≡ (if a == n then (if a == null then (st a).prev else x) else (st a).prev)))
unfolding insert_after
insert_after_nodes q st x after a h k l =
    (ground arith, ground arith, ground arith, ground arith, λ e. (ground arith, ground arith))

-- `_queue_insert_after` puts a node that is not null and not in the queue behind the node `after`
-- of a well linked queue, and changes no node but those of the queue.
pub insert_after_lem :
    {q : Queue} {st : Store} (xs ys : List Ptr) (x after : Ptr)
    → IsQueue q st (xs ++ after ∷ ys)
    → x ≢ null
    → has x (xs ++ after ∷ ys) ≡ false
    → let (q', st') = insert_after q st x after in
      IsQueue q' st' (xs ++ after ∷ x ∷ ys) × SameOutside (xs ++ after ∷ x ∷ ys) st st'
insert_after_lem {q} {st} xs ys x after is ne out =
    let (m, k, front, back) = Seg-split st xs (after ∷ ys) q.head null null q.tail is.links in
    let (d, d', sep) = Distinct-append xs (after ∷ ys) is.distinct in
    let (q', st') = insert_after q st x after in
    let n : Ptr = (st after).next in
    let x-out = has-append x xs (after ∷ ys) in
    let n-in = first_or_behind st ys n after null q.tail back.3 in
    let nodes =
      λ (a : Ptr). insert_after_nodes q st x after a (ground arith) (ground arith) (ground arith) in
    (
      record {
        links =
            Seg-join st' xs (after ∷ x ∷ ys) q'.head null after k null q'.tail
              (Seg-cast st' xs q.head null after k _ _ (nodes x).0 refl (
                Seg-frame st st' xs q.head null after k (rw back.0 at front) (λ a i. ground (
                  arith,
                  nodes a,
                  sep a,
                  apart a n ys,
                  Seg-ne-null st xs q.head null m k a front i,
                ))))
              (
                refl,
                (ground arith),
                ground (arith, nodes after),
                (
                  ground (arith, nodes after),
                  ne,
                  ground (arith, nodes x),
                  Seg-cast st' ys n x null _ _ _ (nodes x).2 (nodes x).1 (
                      back-Seg st st' n null x null q.tail after ys back.3 d'.1 (λ a i.
                        ground (arith, nodes a, Seg-ne-null st ys n after null q.tail a back.3 i))),
                ),
              );
        distinct = Distinct-insert_behind xs ys x after is.distinct out;
      },
      λ a o. ground (arith, nodes a, has-append a xs (after ∷ x ∷ ys)),
    )

-- With a null `after` it is `_queue_insert`.
pub insert_after-null :
    (q : Queue) (st : Store) (x : Ptr)
    → x ≢ null
    → (q.head == x) ≡ false
    → let (q', st') = insert_after q st x null in
      let (q2, st2) = insert q st x in (q' ≡ q2) × ((a : Ptr) → st' a ≡ st2 a)
unfolding insert insert_after
insert_after-null q st x ne h = (ground arith, λ a. ground arith)
