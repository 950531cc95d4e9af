-- ===== src/Net.antt =====
-- SplitHostPort and JoinHostPort of Go's package net.
pub mod Laws
pub mod Sound
use nebula_mnemosina.Prelude.{
  ℕ, Bool, true, false, List, [], ◌∷◌, ◌++◌, Option, none, some, ◌==◌, if◌then◌else◌,
}
use nebula_mnemosina.Text.{Text, codes, has_byte, cut, cut_last}
use nebula_mnemosina.Errors.{Error, foreign, Result, ok, err, ◌>>=◌}

abbrev pub colon : ℕ
colon = b':'

abbrev pub open_bracket : ℕ
open_bracket = b'['

abbrev pub close_bracket : ℕ
close_bracket = b']'

-- net.AddrError, whose text is "address ADDR: WHY".
addr_error : Text → Text → Error
addr_error addr why = foreign (codes "address " ++ addr ++ codes ": " ++ why)

-- The final checks: no further bracket of either kind in the parts that may hold none.
check_brackets : Text → Text → Text → Text × Text → Result (Text × Text)
check_brackets addr opens closes found =
    if has_byte open_bracket opens
    then err (addr_error addr (codes "unexpected '[' in address"))
    else if has_byte close_bracket closes
    then err (addr_error addr (codes "unexpected ']' in address"))
    else ok found

-- What follows the first `]`: it must be a colon, and the last one.
split_closed : Text → Text → Text → Text → Result (Text × Text)
split_closed addr rest host [] = err (addr_error addr (codes "missing port in address"))
split_closed addr rest host (c ∷ port) =
    if c == colon
    then (if has_byte colon port
        then err (addr_error addr (codes "too many colons in address"))
        else check_brackets addr rest (c ∷ port) (host, port))
    else err (addr_error addr (codes "missing port in address"))

-- `addr` is `[` and then `rest`.
split_bracketed : Text → Text → Result (Text × Text)
split_bracketed addr rest = elim (cut close_bracket rest) [
  | none ↦ err (addr_error addr (codes "missing ']' in address"))
  | some (host, after) ↦ split_closed addr rest host after
]

split_plain : Text → Text × Text → Result (Text × Text)
split_plain addr (host, port) =
    if has_byte colon host
    then err (addr_error addr (codes "too many colons in address"))
    else check_brackets addr addr addr (host, port)

split_at : Text → Text × Text → Result (Text × Text)
split_at [] found = split_plain [] found
split_at (c ∷ rest) found =
    if c == open_bracket then split_bracketed (c ∷ rest) rest else split_plain (c ∷ rest) found

-- net.SplitHostPort
unfoldable pub split_host_port : Text → Result (Text × Text)
unfolding split_at split_plain split_bracketed split_closed check_brackets addr_error
split_host_port addr = elim (cut_last colon addr) [
  | none ↦ err (addr_error addr (codes "missing port in address"))
  | some found ↦ split_at addr found
]

-- net.JoinHostPort
unfoldable pub join_host_port : Text → Text → Text
join_host_port host port =
    if has_byte colon host
    then open_bracket ∷ (host ++ close_bracket ∷ colon ∷ port)
    else host ++ colon ∷ port
