-- ===== src/Text.antt =====
-- Go strings as their bytes, with the operations of Go's package strings that the program calls.
-- White space is ASCII white space; separators and cut sets are single bytes, as in every call.
pub mod Laws
use Prim.Native.Char.{code}
use mathlib.Core.List.{reverse, flat_map}
use nebula_mnemosina.Prelude.{
  ℕ, zero, suc, ◌+◌, String, Bool, true, false, not, ◌&&◌, ◌||◌, List, [], ◌∷◌, ◌++◌, Option, none,
  some, ◌==◌, ltb, leb, ◌≢◌, if◌then◌else◌,
}

abbrev pub Text : Type 0
Text = List ℕ

-- The bytes of a literal, which is ASCII wherever the program has one.
abbrev pub codes : String → Text
codes String.[] = []
codes (String.◌∷◌ c s) = code c ∷ codes s

-- Go's `s == ""`.
abbrev pub is_empty : Text → Bool
is_empty [] = true
is_empty (c ∷ s) = false

-- Go's `==` on strings.
unfoldable pub text_eq : Text → Text → Bool
text_eq [] [] = true
text_eq [] (d ∷ t) = false
text_eq (c ∷ s) [] = false
text_eq (c ∷ s) (d ∷ t) = (c == d) && text_eq s t

-- Membership in a Go set `map[string]struct{}`, kept as the list of its members.
unfoldable pub elem : Text → List Text → Bool
elem t [] = false
elem t (x ∷ xs) = text_eq x t || elem t xs

-- strings.Contains with a one-byte pattern.
unfoldable pub has_byte : ℕ → Text → Bool
has_byte b [] = false
has_byte b (c ∷ s) = (c == b) || has_byte b s

-- strings.Count with a one-byte pattern.
unfoldable pub count_byte : ℕ → Text → ℕ
count_byte b [] = 0
count_byte b (c ∷ s) = (if c == b then 1 else 0) + count_byte b s

unfoldable pub prepend : ℕ → Option (Text × Text) → Option (Text × Text)
prepend c none = none
prepend c (some (before, after)) = some (c ∷ before, after)

-- strings.Cut with a one-byte separator; `none` where the separator is not found.
unfoldable pub cut : ℕ → Text → Option (Text × Text)
unfolding prepend
cut sep [] = none
cut sep (c ∷ s) = if c == sep then some ([], s) else prepend c (cut sep s)

-- The text before and behind the last separator.
unfoldable pub cut_last : ℕ → Text → Option (Text × Text)
unfolding prepend
cut_last sep [] = none
cut_last sep (c ∷ s) = elim (cut_last sep s) [
  | some (before, after) ↦ some (c ∷ before, after)
  | none ↦ if c == sep then some ([], s) else none
]

unfoldable pub has_prefix : Text → Text → Bool
has_prefix s [] = true
has_prefix [] (p ∷ prefix) = false
has_prefix (c ∷ s) (p ∷ prefix) = (c == p) && has_prefix s prefix

unfoldable pub is_space : ℕ → Bool
is_space c = (leb 9 c && leb c 13) || (c == 32)

unfoldable pub is_bracket : ℕ → Bool
is_bracket c = (c == b'[') || (c == b']')

-- strings.TrimLeft over the bytes that `drops` accepts.
unfoldable pub trim_left : (ℕ → Bool) → Text → Text
trim_left drops [] = []
trim_left drops (c ∷ s) = if drops c then trim_left drops s else c ∷ s

unfoldable pub trim_both : (ℕ → Bool) → Text → Text
unfolding trim_left
trim_both drops s = reverse (trim_left drops (reverse (trim_left drops s)))

-- strings.TrimSpace
unfoldable pub trim_space : Text → Text
unfolding trim_both is_space
trim_space = trim_both is_space

-- strings.Trim(s, "[]")
unfoldable pub trim_brackets : Text → Text
unfolding trim_both is_bracket
trim_brackets = trim_both is_bracket

glue : Text → List Text → Text
glue sep [] = []
glue sep (p ∷ ps) = sep ++ (p ++ glue sep ps)

-- strings.Join
unfoldable pub join : List Text → Text → Text
unfolding glue
join [] sep = []
join (p ∷ ps) sep = p ++ glue sep ps

-- The decimal print of strconv.Itoa, for numbers that are not negative; the fuel is the number.
itoa_onto : ℕ → ℕ → Text → Text
itoa_onto zero n out = out
itoa_onto (suc f) n out =
    let rest = itoa_onto f (Prim.Native.Nat.◌/◌ n 10) ((b'0' + Prim.Native.Nat.◌%◌ n 10) ∷ out) in
    if ltb n 10 then (b'0' + n) ∷ out else rest

unfoldable pub itoa : ℕ → Text
unfolding itoa_onto
itoa n = itoa_onto (suc n) n []

-- No byte of the text is `b`.
abbrev pub Lacks : ℕ → Text → Type 0
Lacks b [] = Unit
Lacks b (c ∷ s) = (c ≢ b) × Lacks b s
