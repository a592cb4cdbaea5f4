-- ===== src/Go/Strings.antt =====
-- package strings of Go on ASCII text, as far as the program uses it. `ToUpper` and `ToLower` of
-- Go map every Unicode letter; the program compares only against ASCII words, and on a byte string
-- whose bytes are below 128 they are these functions; so are the functions that look for white space.
use Prim.Native.Nat.{zero}
use haystak_tds_spi.Base.{
  ℕ, ◌+◌, ◌-◌, Bool, ◌&&◌, [], ◌∷◌, leb, if◌then◌else◌, Bytes, ◌||◌, true, suc, List, ◌==◌, false,
  length, ◌++◌,
}

abbrev pub within : ℕ → ℕ → ℕ → Bool
within lo hi c = leb lo c && leb c hi

unfoldable pub upper_byte : ℕ → ℕ
upper_byte c = if within b'a' b'z' c then c - 32 else c

unfoldable pub lower_byte : ℕ → ℕ
lower_byte c = if within b'A' b'Z' c then c + 32 else c

-- strings.TrimRight(s, " ")
unfoldable pub trim_right : (ℕ → Bool) → Bytes → Bytes
trim_right blank [] = []
trim_right blank (c ∷ cs) =
    let rest = trim_right blank cs in
    elim rest [ [] ↦ (if blank c then [] else c ∷ []) | d ∷ ds ↦ c ∷ d ∷ ds ]

unfoldable pub trim_left : (ℕ → Bool) → Bytes → Bytes
trim_left blank [] = []
trim_left blank (c ∷ cs) = let rest = trim_left blank cs in if blank c then rest else c ∷ cs

-- unicode.IsSpace, on ASCII
unfoldable pub is_space : ℕ → Bool
is_space c = within 9 13 c || c == b' '

-- strings.HasPrefix(s, prefix)
unfoldable pub has_prefix : Bytes → Bytes → Bool
has_prefix s [] = true
has_prefix [] (p ∷ ps) = false
has_prefix (c ∷ cs) (p ∷ ps) = c == p && has_prefix cs ps

-- strings.ReplaceAll(s, old, new) for an `old` that is not empty; `skip` bytes belong to the last
-- occurrence
unfoldable pub replace_from : Bytes → Bytes → ℕ → Bytes → Bytes
replace_from old new skip [] = []
replace_from old new (suc skip) (c ∷ cs) = replace_from old new skip cs
replace_from old new zero (c ∷ cs) =
    let rest = replace_from old new (if has_prefix (c ∷ cs) old then length old - 1 else 0) cs in
    if has_prefix (c ∷ cs) old then new ++ rest else c ∷ rest

unfoldable pub replace_all : Bytes → Bytes → Bytes → Bytes
unfolding replace_from has_prefix
replace_all s old new = replace_from old new 0 s

-- the pieces between the bytes that `cut` tells, the first of them begun by `word`
split_loop : (ℕ → Bool) → Bytes → Bytes → List Bytes
split_loop cut word [] = word ∷ []
split_loop cut word (c ∷ cs) =
    let rest = split_loop cut (if cut c then [] else word ++ c ∷ []) cs in
    if cut c then word ∷ rest else rest

-- strings.Split(s, sep) at a separator of one byte
unfoldable pub split : ℕ → Bytes → List Bytes
unfolding split_loop
split sep s = split_loop (λ (c : ℕ). c == sep) [] s

non_empty : List Bytes → List Bytes
non_empty [] = []
non_empty ([] ∷ ws) = non_empty ws
non_empty ((c ∷ cs) ∷ ws) = (c ∷ cs) ∷ non_empty ws

-- strings.Fields(s)
unfoldable pub fields : Bytes → List Bytes
unfolding split_loop non_empty is_space
fields s = non_empty (split_loop is_space [] s)

-- strings.TrimSpace(s)
unfoldable pub trim_space : Bytes → Bytes
unfolding trim_left trim_right is_space
trim_space s = trim_left is_space (trim_right is_space s)

-- A rune that folds to the lower-case ASCII letter `t`: itself, its capital, and for s and k a third
-- one, U+017F and U+212A.
folds_to : ℕ → ℕ → Bool
folds_to t r = lower_byte r == t || (t == b's' && r == 0x17F) || (t == b'k' && r == 0x212A)

-- strings.EqualFold(s, word) for a lower-case ASCII word, `s` given by its runes
unfoldable pub equal_fold : List ℕ → Bytes → Bool
unfolding folds_to lower_byte
equal_fold [] [] = true
equal_fold [] (t ∷ ts) = false
equal_fold (r ∷ rs) [] = false
equal_fold (r ∷ rs) (t ∷ ts) = folds_to t r && equal_fold rs ts
