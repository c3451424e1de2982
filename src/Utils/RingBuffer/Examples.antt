-- ===== src/Utils/RingBuffer/Examples.antt =====
-- Tests of the ring, and its theorems at concrete rings.
use gloworm.Prelude.{ℕ, ◌≡◌, refl, [], ◌∷◌, ◌++◌, arith, take, min, if◌then◌else◌, ◌==◌}
use gloworm.Utils.RingBuffer.{Ring, used_space, free_space, get, put, peek}
use gloworm.Utils.RingBuffer.Inv.{IsValid}
use gloworm.Utils.RingBuffer.Window.{contents, window}
use gloworm.Utils.RingBuffer.Refine.{put_refines}

-- A ring of four bytes that holds 8, 9 and 10, round its end; 7 lies behind the ring.
abbrev memory : ℕ → ℕ
memory i = if i == 0 then 9 else if i == 1 then 10 else if i == 3 then 8 else 7

abbrev wrapped : Ring
wrapped = record { max = 4; in_at = 2; out = 3; buffer = memory }

-- The same ring less its last byte, which leaves room for one.
abbrev roomy : Ring
roomy = record { max = 4; in_at = 1; out = 3; buffer = memory }

wrapped-IsValid : IsValid wrapped
wrapped-IsValid = omega arith

roomy-IsValid : IsValid roomy
roomy-IsValid = omega arith

contents-wrapped : contents wrapped ≡ 8 ∷ 9 ∷ 10 ∷ []
unfolding used_space window
contents-wrapped = refl

put_stops_when_full : (put roomy (1 ∷ 2 ∷ [])).0 ≡ 1
unfolding put
put_stops_when_full = refl

get_two : (get 2 wrapped).0 ≡ 8 ∷ 9 ∷ []
unfolding get
get_two = refl

peek_misreads : peek wrapped 1 2 ≡ 7 ∷ 9 ∷ []
unfolding peek
peek_misreads = refl

put_refines_example :
    let (n, cb') = put roomy (1 ∷ 2 ∷ []) in
    (n ≡ min 2 (free_space roomy))
    × (contents cb' ≡ contents roomy ++ take (free_space roomy) (1 ∷ 2 ∷ []))
    × IsValid cb'
put_refines_example = put_refines (1 ∷ 2 ∷ []) roomy-IsValid
