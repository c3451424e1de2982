-- ===== src/Utils/Queue/Pair.antt =====
-- Queues as the clients use them: a member taken out by its pointer, and a second queue over the
-- same store that stays as it is.
use gloworm.Prelude.{
  ◌≡◌, refl, true, false, not, ◌&&◌, List, [], ◌∷◌, ◌++◌, arith, ◌==◌, if◌then◌else◌, ap, subst,
  Bool-cases, inl, inr,
}
use gloworm.Utils.Queue.{Ptr, null, Store, Queue, remove}
use gloworm.Utils.Queue.Seg.{has, Distinct, Seg-frame, IsQueue, SameOutside}
use gloworm.Utils.Queue.Ops.{remove_lem}

-- The list less the first `p`.
abbrev pub erase : Ptr → List Ptr → List Ptr
erase p [] = []
erase p (x ∷ xs) = if p == x then xs else x ∷ erase p xs

-- Where `p` stands in a list.
pub split_at :
    (p : Ptr) (xs : List Ptr)
    → has p xs ≡ true
    → (ys : List Ptr) × (zs : List Ptr) × (xs ≡ ys ++ p ∷ zs) × (erase p xs ≡ ys ++ zs)
split_at p [] h = ground arith
split_at p (x ∷ xs) h = elim (Bool-cases (p == x)) [
  | inl e ↦ ([], xs, ground arith, ground arith)
  | inr e ↦
      let (ys, zs, whole, rest) = split_at p xs (ground arith) in
      (x ∷ ys, zs, ap (λ l. x ∷ l) whole, rw e (ap (λ l. x ∷ l) rest))
]

pub has-erase :
    (a p : Ptr) (xs : List Ptr) → Distinct xs → has a (erase p xs) ≡ (has a xs && not (a == p))
has-erase a p [] d = refl
has-erase a p (x ∷ xs) d = ground (arith, has-erase a p xs d.1)

pub IsQueue-frame :
    {q : Queue} {st st' : Store} (xs : List Ptr) {ys : List Ptr}
    → IsQueue q st ys
    → SameOutside xs st st'
    → ((a : Ptr) → has a ys ≡ true → has a xs ≡ false)
    → IsQueue q st' ys
IsQueue-frame {q} {st} {st'} xs {ys} is same apart = record {
  links = Seg-frame st st' ys q.head null null q.tail is.links (λ a h. same a (apart a h));
  distinct = is.distinct;
}

pub remove-erase :
    {q : Queue} {st : Store} {xs : List Ptr} (p : Ptr)
    → IsQueue q st xs
    → has p xs ≡ true
    → let (q', st') = remove q st p in
      IsQueue q' st' (erase p xs)
      × SameOutside xs st st'
      × (st' p ≡ record { next = null; prev = null })
remove-erase {q} {st} {xs} p is h =
    let (ys, zs, e, e') = split_at p xs h in
    rw e' (rw e (remove_lem ys zs p (subst (λ l. IsQueue q st l) e is)))

pub erase-append :
    (x : Ptr) (xs ys : List Ptr) → has x xs ≡ false → erase x (xs ++ x ∷ ys) ≡ xs ++ ys
erase-append x [] ys h = ground arith
erase-append x (y ∷ xs) ys h = ground (arith, erase-append x xs ys)
