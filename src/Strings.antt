-- ===== src/Strings.antt =====
-- The string functions of lib/string.c. A string is the list of its bytes before the NUL; a pointer
-- into it is what is left of it.
pub mod Compare
use turnix.Base.{
  ℕ, zero, suc, ◌+◌, ◌-◌, ◌%◌, Bool, true, false, not, Option, none, some, List, [], ◌∷◌, ◌==◌, ltb,
  if◌then◌else◌,
}

-- 1, 0 or -1
pub data Sign : Type 0 where
  above same below : Sign

-- `memcmp` of two blocks of the same length
unfoldable pub memcmp : List ℕ → List ℕ → Sign
memcmp [] ys = same
memcmp (x ∷ xs) [] = same
memcmp (x ∷ xs) (y ∷ ys) =
    let rest = memcmp xs ys in if ltb y x then above else (if ltb x y then below else rest)

unfoldable pub strlen : List ℕ → ℕ
strlen [] = 0
strlen (c ∷ s) = suc (strlen s)

-- `strcmp`, in which the NUL at the end of a string is less than any byte of another.
unfoldable pub strcmp : List ℕ → List ℕ → Sign
strcmp [] [] = same
strcmp [] (d ∷ t) = below
strcmp (c ∷ s) [] = above
strcmp (c ∷ s) (d ∷ t) =
    let rest = strcmp s t in if c == d then rest else (if ltb d c then above else below)

-- `strchr`: what is left from the byte on. The NUL itself is found, as the empty rest.
unfoldable pub strchr : List ℕ → ℕ → Option (List ℕ)
strchr [] c = if 0 == c then some [] else none
strchr (d ∷ s) c = let rest = strchr s c in if d == c then some (d ∷ s) else rest

abbrev pub is_found : Option (List ℕ) → Bool
is_found none = false
is_found (some s) = true

-- The first loop of `strtok_r`
unfoldable pub skip_delim : List ℕ → List ℕ → List ℕ
skip_delim delim [] = []
skip_delim delim (c ∷ s) =
    let rest = skip_delim delim s in if is_found (strchr delim c) then rest else c ∷ s

-- The second loop: the token, and what follows its end. A delimiter is overwritten by the NUL.
unfoldable pub scan_token : List ℕ → List ℕ → List ℕ × List ℕ
scan_token delim [] = ([], [])
scan_token delim (c ∷ s) =
    let (token, rest) = scan_token delim s in
    if is_found (strchr delim c) then ([], s) else (c ∷ token, rest)

-- `strtok_r` from the string or from `*saveptr`: the token, if there is one, and the new `*saveptr`.
unfoldable pub strtok_r : List ℕ → List ℕ → Option (List ℕ) × List ℕ
strtok_r delim s = elim (skip_delim delim s) [
  | [] ↦ (none, [])
  | c ∷ t ↦ let (token, rest) = scan_token delim t in (some (c ∷ token), rest)
]
