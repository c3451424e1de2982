-- ===== src/Irq/Bh/Run.antt =====
-- Which handlers `run_bh_handlers` calls, and which requests stay.
use gloworm.Prelude.{
  ℕ, zero, suc, ◌+◌, ◌-◌, ◌^◌, ◌<◌, ◌≤◌, ◌≡◌, ◌≢◌, refl, sym, ap, false, ◌∙◌, List, [], ◌∷◌, ◌==◌,
  if◌then◌else◌, Bool-cases, max, inl, inr, ne→==, ==_refl, subst, arith,
}
use gloworm.Prelude.Bits.{bit_at, bit_at-and, bit_at-complement, bit_and-pow}
use Prim.Native.Nat.{bit_and}
use gloworm.Utils.Queue.{null}
use gloworm.Irq.Bh.{BhHandler, Bh, bh_max, clear_bit, run_from, run_bh_handlers}

module _ {S : Type 0} (call : BhHandler → Bh → S → Bh × S) where
  -- No handler changes the table or takes a request back, and one requests no more than the bits of
  -- the word that is given for it.
  pub record KeepsRequests (asks : BhHandler → ℕ) : Type 0 where
    pub table : (h : BhHandler) (bh : Bh) (st : S) → (call h bh st).0.bh_handlers ≡ bh.bh_handlers
    pub requests :
        (h : BhHandler) (bh : Bh) (st : S) (j : ℕ)
        → bit_at bh.bh_requested j ≤ bit_at (call h bh st).0.bh_requested j
    pub no_more :
        (h : BhHandler) (bh : Bh) (st : S) (j : ℕ)
        → bit_at (call h bh st).0.bh_requested j
          ≤ max (bit_at bh.bh_requested j) (bit_at (asks h) j)

  -- The handlers that are there among `n` from `i` on whose bit is set.
  abbrev pub due : (n i requested : ℕ) → (handlers : ℕ → BhHandler) → List ℕ
  due zero i requested handlers = []
  due (suc n) i requested handlers =
      let rest = due n (i + 1) requested handlers in
      if bit_at requested i == 0 then rest else if (handlers i).fn == null then rest else i ∷ rest

  run_from-due :
      (asks : BhHandler → ℕ) (n i requested : ℕ) (bh : Bh) (st : S)
      → KeepsRequests asks
      → (run_from call n i requested bh st).0 ≡ due n i requested bh.bh_handlers
  unfolding run_from
  run_from-due asks zero i requested bh st k = refl
  run_from-due asks (suc n) i requested bh st k =
      let cleared : Bh = record bh { bh_requested = clear_bit bh.bh_requested i } in
      let called = call (bh.bh_handlers i) cleared st in
      elim (Bool-cases (bit_at requested i == 0)) [
        | inl e ↦ rw (bit_and-pow requested i, e) (run_from-due asks n (i + 1) requested bh st k)
        | inr e ↦ elim (Bool-cases ((bh.bh_handlers i).fn == null)) [
          | inl f ↦
              rw (bit_and-pow requested i, e, f)
                (run_from-due asks n (i + 1) requested cleared st k)
          | inr f ↦
              rw (bit_and-pow requested i, e, f)
                (ap (λ l. i ∷ l)
                  (run_from-due asks n (i + 1) requested called.0 called.1 k
                    ∙ ap (due n (i + 1) requested) (k.table (bh.bh_handlers i) cleared st)))
        ]
      ]

  clear-others :
      (word i j : ℕ) → i < 16 → j < 16 → i ≢ j → bit_at (clear_bit word i) j ≡ bit_at word j
  clear-others word i j h l ne =
      ground (arith, bit_at-and word (0xffff - 2 ^ i) j, bit_at-complement i j h l, ne→== i j ne)

  run_from-keeps :
      (asks : BhHandler → ℕ) (n i requested j : ℕ) (bh : Bh) (st : S)
      → KeepsRequests asks
      → i + n ≤ 16
      → j < 16
      → bit_at requested j ≡ 0
      → bit_at bh.bh_requested j ≤ bit_at (run_from call n i requested bh st).1.bh_requested j
  unfolding run_from
  run_from-keeps asks zero i requested j bh st k h l z = omega arith
  run_from-keeps asks (suc n) i requested j bh st k h l z =
      let cleared : Bh = record bh { bh_requested = clear_bit bh.bh_requested i } in
      let called = call (bh.bh_handlers i) cleared st in
      elim (Bool-cases (bit_at requested i == 0)) [
        | inl e ↦
            rw (bit_and-pow requested i, e)
              (run_from-keeps asks n (i + 1) requested j bh st k (omega (arith, h)) l z)
        | inr e ↦
            let same =
              clear-others bh.bh_requested i j (omega (arith, h)) l
                (λ x. ground (arith, ap (bit_at requested) x, z, e)) in
            elim (Bool-cases ((bh.bh_handlers i).fn == null)) [
              | inl f ↦
                  let rest =
                    run_from-keeps asks n (i + 1) requested j cleared st k (omega (arith, h)) l z in
                  rw (bit_and-pow requested i, e, f) (omega (arith, rest, same))
              | inr f ↦
                  let rest =
                    run_from-keeps asks n (i + 1) requested j called.0 called.1 k (omega (arith, h))
                      l z in
                  rw (bit_and-pow requested i, e, f)
                    (omega (arith, rest, same, k.requests (bh.bh_handlers i) cleared st j))
            ]
      ]

  -- A request by one of the handlers of a list.
  abbrev pub asked : (asks : BhHandler → ℕ) → (handlers : ℕ → BhHandler) → List ℕ → (j : ℕ) → ℕ
  asked asks handlers [] j = 0
  asked asks handlers (i ∷ is) j = max (bit_at (asks (handlers i)) j) (asked asks handlers is j)

  clear-le : (word i j : ℕ) → bit_at (clear_bit word i) j ≤ bit_at word j
  clear-le word i j = omega (arith, bit_at-and word (0xffff - 2 ^ i) j)

  clear_self : (word i : ℕ) → i < 16 → bit_at (clear_bit word i) i ≡ 0
  clear_self word i h =
      ground (arith, bit_at-and word (0xffff - 2 ^ i) i, bit_at-complement i i h h, ==_refl i)

  -- A request in the end was there before or is one of those that are called.
  run_from-asked :
      (asks : BhHandler → ℕ) (n i requested j : ℕ) (bh : Bh) (st : S)
      → KeepsRequests asks
      → bit_at (run_from call n i requested bh st).1.bh_requested j
        ≤ max
            (bit_at bh.bh_requested j)
            (asked asks bh.bh_handlers (due n i requested bh.bh_handlers) j)
  unfolding run_from
  run_from-asked asks zero i requested j bh st k = omega arith
  run_from-asked asks (suc n) i requested j bh st k =
      let cleared : Bh = record bh { bh_requested = clear_bit bh.bh_requested i } in
      let called = call (bh.bh_handlers i) cleared st in
      let less = clear-le bh.bh_requested i j in
      elim (Bool-cases (bit_at requested i == 0)) [
        | inl e ↦
            rw (bit_and-pow requested i, e) (run_from-asked asks n (i + 1) requested j bh st k)
        | inr e ↦ elim (Bool-cases ((bh.bh_handlers i).fn == null)) [
          | inl f ↦
              let rest = run_from-asked asks n (i + 1) requested j cleared st k in
              rw (bit_and-pow requested i, e, f) (omega (arith, rest, less))
          | inr f ↦
              let table = k.table (bh.bh_handlers i) cleared st in
              let rest =
                subst
                  (λ t.
                    bit_at (run_from call n (i + 1) requested called.0 called.1).1.bh_requested j
                    ≤ max (bit_at called.0.bh_requested j)
                        (asked asks t (due n (i + 1) requested t) j))
                  table (run_from-asked asks n (i + 1) requested j called.0 called.1 k) in
              rw (bit_and-pow requested i, e, f)
                (omega (arith, rest, less, k.no_more (bh.bh_handlers i) cleared st j))
        ]
      ]

  -- The request of the handler that the loop is at is taken back.
  run_from-here :
      (asks : BhHandler → ℕ) (n i requested : ℕ) (bh : Bh) (st : S)
      → KeepsRequests asks
      → i < 16
      → bit_at requested i ≡ 1
      → bit_at (run_from call (suc n) i requested bh st).1.bh_requested i
        ≤ asked asks bh.bh_handlers (due (suc n) i requested bh.bh_handlers) i
  unfolding run_from
  run_from-here asks n i requested bh st k h one =
      let cleared : Bh = record bh { bh_requested = clear_bit bh.bh_requested i } in
      let called = call (bh.bh_handlers i) cleared st in
      let zero_bit = clear_self bh.bh_requested i h in
      let e : (bit_at requested i == 0) ≡ false = ground (arith, one) in
      elim (Bool-cases ((bh.bh_handlers i).fn == null)) [
        | inl f ↦
            let rest = run_from-asked asks n (i + 1) requested i cleared st k in
            rw (bit_and-pow requested i, e, f) (omega (arith, rest, zero_bit))
        | inr f ↦
            let table = k.table (bh.bh_handlers i) cleared st in
            let rest =
              subst
                (λ t.
                  bit_at (run_from call n (i + 1) requested called.0 called.1).1.bh_requested i
                  ≤ max (bit_at called.0.bh_requested i)
                      (asked asks t (due n (i + 1) requested t) i))
                table (run_from-asked asks n (i + 1) requested i called.0 called.1 k) in
            rw (bit_and-pow requested i, e, f)
              (omega (arith, rest, zero_bit, k.no_more (bh.bh_handlers i) cleared st i))
      ]

  -- The same `d` rounds earlier.
  run_from-taken_back :
      (asks : BhHandler → ℕ) (d n m i j requested : ℕ) (bh : Bh) (st : S)
      → KeepsRequests asks
      → n ≡ d + suc m
      → j ≡ i + d
      → j < 16
      → bit_at requested j ≡ 1
      → bit_at (run_from call n i requested bh st).1.bh_requested j
        ≤ asked asks bh.bh_handlers (due (suc m) j requested bh.bh_handlers) j
  unfolding run_from
  run_from-taken_back asks zero n m i j requested bh st k e at h one =
      let here : j ≡ i = omega (arith, at) in
      let rounds : n ≡ suc m = omega (arith, e) in
      rw (rounds, here)
        (run_from-here asks m i requested bh st k (omega (arith, here, h))
          (ap (bit_at requested) (sym here) ∙ one))
  run_from-taken_back asks (suc d) zero m i j requested bh st k e at h one =
      absurd (omega (arith, e))
  run_from-taken_back asks (suc d) (suc n) m i j requested bh st k e at h one =
      let cleared : Bh = record bh { bh_requested = clear_bit bh.bh_requested i } in
      let called = call (bh.bh_handlers i) cleared st in
      let e' : n ≡ d + suc m = omega (arith, e) in
      let at' : j ≡ i + 1 + d = omega (arith, at) in
      elim (Bool-cases (bit_at requested i == 0)) [
        | inl z ↦
            rw (bit_and-pow requested i, z)
              (run_from-taken_back asks d n m (i + 1) j requested bh st k e' at' h one)
        | inr z ↦ elim (Bool-cases ((bh.bh_handlers i).fn == null)) [
          | inl f ↦
              rw (bit_and-pow requested i, z, f)
                (run_from-taken_back asks d n m (i + 1) j requested cleared st k e' at' h one)
          | inr f ↦
              rw (bit_and-pow requested i, z, f)
                (subst
                  (λ t.
                    bit_at (run_from call n (i + 1) requested called.0 called.1).1.bh_requested j
                    ≤ asked asks t (due (suc m) j requested t) j)
                  (k.table (bh.bh_handlers i) cleared st)
                  (run_from-taken_back asks d n m (i + 1) j requested called.0 called.1 k e' at' h
                    one))
        ]
      ]

  -- `run_bh_handlers`, when no handler changes the table or takes a request back, and each requests
  -- no more than the bits of a word that is given for it: it calls the handlers that are registered,
  -- enabled and requested at its start, once each and from the lowest number up. A request whose
  -- handler is not enabled is still there in the end. One whose handler is enabled is not there any
  -- more, unless this handler or one that is called behind it may have requested it again.
  pub run_bh_handlers-due :
      (asks : BhHandler → ℕ) (bh : Bh) (st : S)
      → KeepsRequests asks
      → let r = run_bh_handlers call bh st in
        let word = bit_and bh.bh_enabled bh.bh_requested in
        (r.0 ≡ due bh_max 0 word bh.bh_handlers)
        × ((j : ℕ)
            → j < bh_max
            → bit_at bh.bh_enabled j ≡ 0
            → bit_at bh.bh_requested j ≤ bit_at r.1.bh_requested j)
        × ((j : ℕ)
            → j < bh_max
            → bit_at bh.bh_enabled j ≡ 1
            → bit_at bh.bh_requested j ≡ 1
            → bit_at r.1.bh_requested j
              ≤ asked asks bh.bh_handlers (due (suc (bh_max - 1 - j)) j word bh.bh_handlers) j)
  unfolding run_bh_handlers
  run_bh_handlers-due asks bh st k =
      let word = bit_and bh.bh_enabled bh.bh_requested in
      (
        run_from-due asks bh_max 0 word bh st k,
        λ j l off.
            run_from-keeps asks bh_max 0 word j bh st k (omega arith) (omega (arith, l))
              (omega (arith, bit_at-and bh.bh_enabled bh.bh_requested j, off)),
        λ j l on there.
            run_from-taken_back asks j bh_max (bh_max - 1 - j) 0 j word bh st k (omega (arith, l))
              (omega arith) (omega (arith, l))
              (omega (arith, bit_at-and bh.bh_enabled bh.bh_requested j, on, there)),
      )
