-- ===== src/Procedures/Names.antt =====
-- internal/extensions/routines/routines.go: the texts of definitions and names. Words are compared in
-- ASCII capitals; what an index points at is the text from it on.
use haystak_tds_spi.Base.{
  ℕ, ◌≡◌, refl, Bool, true, false, not, ◌&&◌, ◌||◌, Option, none, some, List, [], ◌∷◌, ◌++◌, ◌==◌,
  if◌then◌else◌, length, drop, Bytes, codes,
}
use haystak_tds_spi.Base.Dict.{bytes_beq}
use haystak_tds_spi.Go.Strings.{trim_space, trim_left, trim_right, has_prefix}
use haystak_tds_spi.Go.Fmt.{format_int}
use haystak_tds_spi.Go.Strings.{replace_all}
use haystak_tds_spi.Batch.Scan.{is_blank}
use haystak_tds_spi.Batch.Declared.{upper}
use haystak_tds_spi.Control.Cell.{Cell, Formats, str, int, float, bool}

-- strings.TrimPrefix
abbrev pub trim_prefix : Bytes → Bytes → Bytes
trim_prefix s p = if has_prefix s p then drop (length p) s else s

-- strings.TrimSuffix of one byte
unfoldable pub trim_last : ℕ → Bytes → Bytes
trim_last b [] = []
trim_last b (c ∷ []) = if c == b then [] else c ∷ []
trim_last b (c ∷ d ∷ s) = c ∷ trim_last b (d ∷ s)

-- `HasHead`
unfoldable pub has_head : Bytes → Bytes → Bytes → Bool
unfolding trim_space has_prefix
has_head up verb object =
    let rest = trim_space (trim_prefix up verb) in
    not (bytes_beq rest up) && has_prefix rest (object ++ b' ' ∷ [])

-- `IndexFold` of a word in capitals: the text behind its first occurrence
unfoldable pub behind_fold : Bytes → Bytes → Option Bytes
unfolding has_prefix upper
behind_fold [] word = none
behind_fold (c ∷ s) word =
    let rest = behind_fold s word in
    if has_prefix (upper (c ∷ s)) word then some (drop (length word) (c ∷ s)) else rest

behind_first : Bytes → List Bytes → Bytes
unfolding behind_fold
behind_first s [] = s
behind_first s (o ∷ os) = elim (behind_fold s o) [ none ↦ behind_first s os | some rest ↦ rest ]

until : (ℕ → Bool) → Bytes → Bytes
until stop [] = []
until stop (c ∷ s) = let rest = until stop s in if stop c then [] else c ∷ rest

-- the text behind the last dot, or all of it
behind_dot : Bytes → Bytes → Bytes
behind_dot word [] = word
behind_dot word (c ∷ s) = behind_dot (if c == b'.' then [] else word ++ c ∷ []) s

is_mark : ℕ → Bool
is_mark c = c == b'[' || (c == b']' || (c == b'"' || c == b'`'))

-- `Unqualify`
unfoldable pub unqualify : Bytes → Bytes
unfolding trim_space trim_last until is_blank behind_dot trim_left trim_right is_mark
unqualify name =
    let first = until is_blank (trim_space (trim_last b';' (trim_space name))) in
    trim_left is_mark (trim_right is_mark (behind_dot [] first))

-- `AfterDrop`
unfoldable pub after_drop : Bytes → List Bytes → Bytes
unfolding behind_first trim_space has_prefix upper unqualify
after_drop s objects =
    let rest = trim_space (behind_first s objects) in
    unqualify
      (if has_prefix (upper rest) (codes "IF EXISTS") then trim_space (drop 9 rest) else rest)

blank_first : Bytes → Bool
unfolding is_blank
blank_first [] = true
blank_first (c ∷ s) = is_blank c

-- the loop of `SplitAS`, with the text in front of the index and whether it is empty or ends in a blank
split_from : Bool → Bytes → Bytes → Option (Bytes × Bytes)
unfolding is_blank blank_first trim_space
split_from spaced front [] = none
split_from spaced front (c ∷ []) = none
split_from spaced front (c ∷ d ∷ s) =
    elim ((c == b'a' || c == b'A') && ((d == b's' || d == b'S') && (spaced && blank_first s))) [
      | true ↦ some (trim_space front, trim_space s)
      | false ↦ split_from (is_blank c) (front ++ c ∷ []) (d ∷ s)
    ]

-- `SplitAS`: the head and the body
unfoldable pub split_as : Bytes → Option (Bytes × Bytes)
unfolding split_from
split_as s = split_from true [] s

-- `LitSQL`
unfoldable pub lit_sql : {Other : Type 0} → Formats Other → Cell Other → Bytes
unfolding format_int replace_all
lit_sql f (str s) = b'\'' ∷ (replace_all s (codes "'") (codes "''") ++ b'\'' ∷ [])
lit_sql f (int n) = format_int n
lit_sql f (float x) = f.format_float x
lit_sql f (bool b) = if b then codes "1" else codes "0"
lit_sql f _ = codes "NULL"

bare : unqualify (codes " dbo.[My Proc];") ≡ codes "My"
unfolding unqualify
bare = refl
