-- ===== src/Libc/Text/Write.antt =====
-- What the operations that write strings leave in memory.
use gloworm.Prelude.{
  ℕ, zero, suc, ◌+◌, ◌<◌, ◌≡◌, ◌⊎◌, inl, refl, ap, ◌∙◌, subst, true, false, some, List, [], ◌∷◌,
  ◌++◌, ◌==◌, update, arith,
}
use gloworm.Libc.{HoldsText}
use gloworm.Libc.Text.{strlen, strcpy, find_end, strcat}

strcpy_kept :
    (memory : ℕ → ℕ) (dest : ℕ) (src : List ℕ) (a : ℕ)
    → ((a < dest) ⊎ (dest + strlen src < a))
    → strcpy memory dest src a ≡ memory a
unfolding strcpy strlen
strcpy_kept memory dest [] a out = ground (arith, out)
strcpy_kept memory dest (c ∷ src) a out =
    strcpy_kept (update memory dest c) (dest + 1) src a (ground (arith, out)) ∙ ground (arith, out)

-- The source stands in a memory of its own.
strcpy-HoldsText :
    (memory : ℕ → ℕ) (dest : ℕ) (source : ℕ → ℕ) (at : ℕ) (src : List ℕ)
    → HoldsText source at src
    → HoldsText (strcpy memory dest src) dest src
unfolding strcpy
strcpy-HoldsText memory dest source at [] h = ground arith
strcpy-HoldsText memory dest source at (c ∷ src) (_, text, h) = (
  strcpy_kept (update memory dest c) (dest + 1) src dest (inl (omega arith)) ∙ ground arith,
  text,
  strcpy-HoldsText (update memory dest c) (dest + 1) source (at + 1) src h,
)

-- The end of a string is found with a round more than it has characters.
find_end_lem :
    (fuel : ℕ) (memory : ℕ → ℕ) (dest : ℕ) (s : List ℕ)
    → HoldsText memory dest s
    → strlen s < fuel
    → find_end fuel memory dest ≡ some (dest + strlen s)
unfolding find_end strlen
find_end_lem zero memory dest s h l = absurd (omega arith)
find_end_lem (suc fuel) memory dest [] h l =
    let found : (memory dest == 0) ≡ true = ground (arith, h) in
    rw found (ap (λ (k : ℕ). some k) (omega arith))
find_end_lem (suc fuel) memory dest (c ∷ s) (at, text, h) l =
    let further : (memory dest == 0) ≡ false = ground (arith, at, text) in
    rw further
      (find_end_lem fuel memory (dest + 1) s h (omega arith) ∙ ap (λ (k : ℕ). some k) (omega arith))

HoldsText-append :
    (memory memory' : ℕ → ℕ) (at : ℕ) (s t : List ℕ)
    → HoldsText memory at s
    → ((a : ℕ) → a < at + strlen s → memory' a ≡ memory a)
    → HoldsText memory' (at + strlen s) t
    → HoldsText memory' at (s ++ t)
unfolding strlen
HoldsText-append memory memory' at [] t h kept h' =
    subst (λ k. HoldsText memory' k t) {x = at + 0} {y = at} (omega arith) h'
HoldsText-append memory memory' at (c ∷ s) t (here, text, h) kept h' = (
  kept at (omega arith) ∙ here,
  text,
  HoldsText-append memory memory' (at + 1) s t h (λ a l. kept a (omega arith))
      (subst (λ k. HoldsText memory' k t) (omega arith) h'),
)

-- If a string stands at the destination, `strcat` finds its end with a round more than it has
-- characters, and leaves it there with the source behind it; the memory before and behind is as it
-- was.
strcat-HoldsText :
    (fuel : ℕ) (memory : ℕ → ℕ) (dest : ℕ) (s : List ℕ) (source : ℕ → ℕ) (at : ℕ) (t : List ℕ)
    → HoldsText memory dest s
    → HoldsText source at t
    → strlen s < fuel
    → (memory' : ℕ → ℕ) × (strcat fuel memory dest t ≡ some memory')
      × HoldsText memory' dest (s ++ t)
      × ((a : ℕ) → (a < dest) ⊎ (dest + strlen s + strlen t < a) → memory' a ≡ memory a)
unfolding strcat
strcat-HoldsText fuel memory dest s source at t h h' l =
    let end : ℕ = dest + strlen s in
    (
      strcpy memory end t,
      rw (strcat, find_end_lem fuel memory dest s h l) refl,
      HoldsText-append memory (strcpy memory end t) dest s t h
          (λ a m. strcpy_kept memory end t a (inl m)) (strcpy-HoldsText memory end source at t h'),
      λ a out. strcpy_kept memory end t a (ground (arith, out)),
    )
