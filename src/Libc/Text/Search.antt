-- ===== src/Libc/Text/Search.antt =====
-- What the operations that search and compare strings return.
use gloworm.Prelude.{ℕ, ◌≡◌, refl, true, some, List, [], ◌∷◌, ◌++◌, ==_refl}
use gloworm.Libc.Text.{compare_prefix, strstr}

compare_prefix-append : (str rest : List ℕ) → compare_prefix str (str ++ rest) ≡ true
unfolding compare_prefix
compare_prefix-append [] rest = refl
compare_prefix-append (c ∷ str) rest = rw (==_refl c) (compare_prefix-append str rest)

-- A string that is not empty is found in itself also if more is looked for: `strstr` does not ask
-- whether the characters that it looks for have come to their end.
strstr-append : (c : ℕ) (str rest : List ℕ) → strstr (c ∷ str) (c ∷ str ++ rest) ≡ some (c ∷ str)
unfolding strstr
strstr-append c str rest = rw (compare_prefix-append (c ∷ str) rest) refl
