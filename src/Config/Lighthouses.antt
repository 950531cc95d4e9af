-- ===== src/Config/Lighthouses.antt =====
-- parseLighthouses and splitHostPortDefault of internal/config/config.go.
pub mod Address
pub mod Spec
pub mod RoundTrip
use nebula_mnemosina.Prelude.{
  ℕ, Bool, true, false, ◌&&◌, ◌||◌, List, [], ◌∷◌, ◌++◌, Option, none, some, ltb, if◌then◌else◌,
}
use nebula_mnemosina.Text.{
  Text, codes, is_empty, has_byte, count_byte, elem, cut, trim_space, trim_brackets,
}
use nebula_mnemosina.Errors.{Piece, lit, quoted, Error, errorf, Result, ok, err, ◌>>=◌, wrapping}
use nebula_mnemosina.Net.{split_host_port, join_host_port, colon}
use nebula_mnemosina.Model.{Lighthouse}

default_host_port : Text → Text → Result (Text × Text) → Result (Text × Text)
default_host_port value default_port (ok (host, port)) = ok (trim_brackets host, port)
default_host_port value default_port (err e) =
    if has_byte colon value && ltb 1 (count_byte colon value)
    then err (errorf (lit "IPv6 targets must use [host]:port syntax" ∷ []))
    else ok (value, default_port)

unfoldable pub split_host_port_default : Text → Text → Result (Text × Text)
unfolding default_host_port
split_host_port_default value default_port =
    default_host_port value default_port (split_host_port value)

-- The name, empty if none is given, and the target behind the first `=`.
unfoldable pub name_and_target : Text → Text × Text
name_and_target value = elim (cut b'=' value) [
  | none ↦ ([], value)
  | some (before, after) ↦ (trim_space before, trim_space after)
]

syntax_error : Text → Error
syntax_error value = errorf (
    lit "invalid lighthouse "
    ∷ quoted value
    ∷ lit ": expected name=user@host:port or user@host:port"
    ∷ [])

user_and_addr : Text → Text → Result (Text × Text)
unfolding syntax_error
user_and_addr value target = elim (cut b'@' target) [
  | none ↦ err (syntax_error value)
  | some (user, addr) ↦
      if is_empty user || is_empty addr then err (syntax_error value) else ok (user, addr)
]

make_lighthouse : Text → Text → Text × Text → Lighthouse
make_lighthouse name user (host, port) = record {
  name = if is_empty name then host else name;
  user = user;
  address = join_host_port host port;
}

parse_target : Text → Text → Text × Text → Result Lighthouse
unfolding make_lighthouse
parse_target value name (user, addr) = do
  found ←
      wrapping (lit "invalid lighthouse " ∷ quoted value ∷ [])
        (split_host_port_default addr (codes "4222"))
  ok (make_lighthouse name user found)

-- The body of the loop for one value that is trimmed and not empty, up to the check of the name.
unfoldable pub parse_entry : Text → Result Lighthouse
unfolding name_and_target user_and_addr parse_target
parse_entry value = do
  found ← user_and_addr value (name_and_target value).1
  parse_target value (name_and_target value).0 found

-- The loop; `seen` holds the names so far.
unfoldable pub parse_loop : List Text → List Text → List Lighthouse → Result (List Lighthouse)
parse_loop [] seen targets = ok targets
parse_loop (v ∷ vs) seen targets = elim (is_empty (trim_space v)) [
  | true ↦ parse_loop vs seen targets
  | false ↦ do
    l ← parse_entry (trim_space v)
    if elem l.name seen
        then err (errorf (lit "duplicate lighthouse name " ∷ quoted l.name ∷ []))
        else parse_loop vs (l.name ∷ seen) (targets ++ l ∷ [])
]

require_targets : List Lighthouse → Result (List Lighthouse)
require_targets [] = err (errorf (lit "at least one lighthouse must be configured" ∷ []))
require_targets (l ∷ ls) = ok (l ∷ ls)

unfoldable pub parse_lighthouses : List Text → Result (List Lighthouse)
unfolding parse_loop require_targets
parse_lighthouses values = do targets ← parse_loop values [] []; require_targets targets
