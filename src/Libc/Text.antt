-- ===== src/Libc/Text.antt =====
-- src/libc/common/string: strings and blocks of memory. A `char` is signed, so that two characters
-- compare as their codes turned by 128. A pointer into a string that is read is the rest of the
-- string; memory that is written is a function, and the string that is copied into it stands apart.
pub mod Search
pub mod Write
mod Examples
use gloworm.Prelude.{
  ℕ, zero, suc, ◌+◌, ◌-◌, ◌*◌, ◌%◌, Bool, true, false, not, ◌&&◌, Option, none, some, List, [], ◌∷◌,
  ltb, leb, ◌==◌, if◌then◌else◌, update,
}
use gloworm.Libc.{char_at, after}

-- What the comparisons return: -1, 0 and 1.
pub data Order : Type 0 where
  below : Order
  same : Order
  above : Order

abbrev pub char_key : ℕ → ℕ
char_key c = (c + 128) % 256

unfoldable pub strlen : List ℕ → ℕ
strlen [] = 0
strlen (c ∷ str) = strlen str + 1

unfoldable pub strnlen : List ℕ → (maxlen : ℕ) → ℕ
strnlen str zero = 0
strnlen [] (suc maxlen) = 0
strnlen (c ∷ str) (suc maxlen) = strnlen str maxlen + 1

-- The character is the code of a `char`.
unfoldable pub strchr : List ℕ → ℕ → Option (List ℕ)
strchr [] ch = none
strchr (c ∷ str) ch = let rest = strchr str ch in if c == ch then some (c ∷ str) else rest

-- The loop of `strrchr`, with the position so far.
unfoldable pub strrchr_from : List ℕ → ℕ → Option (List ℕ) → Option (List ℕ)
strrchr_from [] ch pos = pos
strrchr_from (c ∷ str) ch pos = strrchr_from str ch (if c == ch then some (c ∷ str) else pos)

unfoldable pub strrchr : List ℕ → ℕ → Option (List ℕ)
unfolding strrchr_from
strrchr str ch = strrchr_from str ch none

-- One round of the comparisons: what it returns, if it is the last one.
unfoldable pub compare_chars : ℕ → ℕ → Option Order
compare_chars a b =
    if ltb (char_key b) (char_key a)
    then some above
    else if ltb (char_key a) (char_key b)
    then some below
    else if a == b && a == 0
    then some same
    else none

-- The round at the terminator of `str1` is the last one.
unfoldable pub strcmp : List ℕ → List ℕ → Order
unfolding compare_chars
strcmp [] str2 = elim (compare_chars 0 (char_at str2)) [ some result ↦ result | none ↦ same ]
strcmp (c ∷ str1) str2 =
    let rest = strcmp str1 (after str2) in
    elim (compare_chars c (char_at str2)) [ some result ↦ result | none ↦ rest ]

unfoldable pub strncmp : List ℕ → List ℕ → (max : ℕ) → Order
unfolding compare_chars
strncmp str1 str2 zero = same
strncmp str1 str2 (suc max) =
    let rest = strncmp (after str1) (after str2) max in
    elim (compare_chars (char_at str1) (char_at str2)) [ some result ↦ result | none ↦ rest ]

-- The difference is cut to a signed `char`.
unfoldable pub memcmp : (memory : ℕ → ℕ) → (ptr1 ptr2 num : ℕ) → Order
memcmp memory ptr1 ptr2 zero = same
memcmp memory ptr1 ptr2 (suc num) =
    let difference = (memory ptr1 + 256 - memory ptr2) % 256 in
    let rest = memcmp memory (ptr1 + 1) (ptr2 + 1) num in
    if not (difference == 0) then (if leb 128 difference then below else above) else rest

-- `_search` of strspn.c and strcspn.c.
unfoldable pub search : List ℕ → ℕ → Bool
search [] ch = false
search (c ∷ str) ch = let rest = search str ch in if c == ch then true else rest

unfoldable pub strspn : List ℕ → List ℕ → ℕ
unfolding search
strspn [] str2 = 0
strspn (c ∷ str1) str2 = let rest = strspn str1 str2 in if not (search str2 c) then 0 else rest + 1

unfoldable pub strcspn : List ℕ → List ℕ → ℕ
unfolding search
strcspn [] str2 = 0
strcspn (c ∷ str1) str2 = let rest = strcspn str1 str2 in if search str2 c then 0 else rest + 1

-- `_compare` of strstr.c.
unfoldable pub compare_prefix : List ℕ → List ℕ → Bool
compare_prefix [] str2 = true
compare_prefix (c ∷ str1) [] = true
compare_prefix (c ∷ str1) (d ∷ str2) =
    let rest = compare_prefix str1 str2 in if not (c == d) then false else rest

unfoldable pub strstr : List ℕ → List ℕ → Option (List ℕ)
unfolding compare_prefix
strstr [] str2 = none
strstr (c ∷ str1) str2 =
    let rest = strstr str1 str2 in if compare_prefix (c ∷ str1) str2 then some (c ∷ str1) else rest

unfoldable pub strcpy : (memory : ℕ → ℕ) → (dest : ℕ) → List ℕ → ℕ → ℕ
strcpy memory dest [] = update memory dest 0
strcpy memory dest (c ∷ src) = strcpy (update memory dest c) (dest + 1) src

unfoldable pub strncpy : (memory : ℕ → ℕ) → (dest : ℕ) → List ℕ → (max : ℕ) → ℕ → ℕ
strncpy memory dest src zero = memory
strncpy memory dest src (suc max) =
    strncpy (update memory dest (char_at src)) (dest + 1) (after src) max

-- The loop of `strncat` over the source, and the terminator behind it.
unfoldable pub append_at : (memory : ℕ → ℕ) → (dest : ℕ) → List ℕ → (max : ℕ) → ℕ → ℕ
append_at memory dest src zero = memory
append_at memory dest [] (suc max) = update memory dest 0
append_at memory dest (c ∷ src) (suc max) = append_at (update memory dest c) (dest + 1) src max

-- The loops of `strcat` and `strncat` that look for the end of the destination, with fuel.
unfoldable pub find_end : ℕ → (memory : ℕ → ℕ) → (dest : ℕ) → Option ℕ
find_end zero memory dest = none
find_end (suc fuel) memory dest =
    let rest = find_end fuel memory (dest + 1) in if memory dest == 0 then some dest else rest

unfoldable pub strcat : ℕ → (memory : ℕ → ℕ) → (dest : ℕ) → List ℕ → Option (ℕ → ℕ)
unfolding find_end strcpy
strcat fuel memory dest src = elim (find_end fuel memory dest) [
  | none ↦ none
  | some end ↦ some (strcpy memory end src)
]

unfoldable pub strncat : ℕ → (memory : ℕ → ℕ) → (dest : ℕ) → List ℕ → (max : ℕ) → Option (ℕ → ℕ)
unfolding find_end append_at
strncat fuel memory dest src max = elim (find_end fuel memory dest) [
  | none ↦ none
  | some end ↦ some (append_at memory end src max)
]

unfoldable pub memset : (memory : ℕ → ℕ) → (ptr value num : ℕ) → ℕ → ℕ
memset memory ptr value zero = memory
memset memory ptr value (suc num) = memset (update memory ptr (value % 256)) (ptr + 1) value num

unfoldable pub memcpy : (memory : ℕ → ℕ) → (dest src num : ℕ) → ℕ → ℕ
memcpy memory dest src zero = memory
memcpy memory dest src (suc num) = memcpy (update memory dest (memory src)) (dest + 1) (src + 1) num
