-- ===== src/Config/Lighthouses/RoundTrip.antt =====
-- A lighthouse written as name=user@address is read back as it was.
use mathlib.Core.List.{reverse, reverse-append, reverse-reverse}
use nebula_mnemosina.Prelude.{
  ℕ, Bool, false, List, [], ◌∷◌, ◌++◌, arith, ◌≡◌, ◌≢◌, refl, sym, subst, map,
}
use nebula_mnemosina.Text.{
  Text, Lacks, is_empty, is_space, is_bracket, trim_left, trim_both, trim_space, trim_brackets,
  codes,
}
use nebula_mnemosina.Text.Laws.{cut-append}
use nebula_mnemosina.Errors.{ok}
use nebula_mnemosina.Net.{join_host_port}
use nebula_mnemosina.Net.Laws.{IsHost, IsPort, split_host_port-join_host_port}
use nebula_mnemosina.Model.{Lighthouse, target}
use nebula_mnemosina.Config.Lighthouses.{
  parse_entry, parse_lighthouses, name_and_target, user_and_addr, parse_target, make_lighthouse,
  split_host_port_default, default_host_port,
}
use nebula_mnemosina.Config.Lighthouses.Spec.{entries, NodupNames, parse_lighthouses_iff}

-- No byte of the text is dropped by a trim.
abbrev pub Keeps : (ℕ → Bool) → Text → Type 0
Keeps drops [] = Unit
Keeps drops (c ∷ s) = (drops c ≡ false) × Keeps drops s

module _ (drops : ℕ → Bool) where
  Keeps-append : (s t : Text) → Keeps drops s → Keeps drops t → Keeps drops (s ++ t)
  Keeps-append [] t _ kt = kt
  Keeps-append (c ∷ s) t (kc, ks) kt = (kc, Keeps-append s t ks kt)

  Keeps-reverse : (s : Text) → Keeps drops s → Keeps drops (reverse s)
  Keeps-reverse [] _ = tt
  Keeps-reverse (c ∷ s) (kc, ks) =
      subst (Keeps drops) (sym (reverse-append (c ∷ []) s))
        (Keeps-append (reverse s) (c ∷ []) (Keeps-reverse s ks) (kc, tt))

  trim_left-Keeps : (s : Text) → Keeps drops s → trim_left drops s ≡ s
  unfolding trim_left
  trim_left-Keeps [] _ = refl
  trim_left-Keeps (c ∷ s) (kc, ks) = ground arith

  trim_both-Keeps : (s : Text) → Keeps drops s → trim_both drops s ≡ s
  unfolding trim_both
  trim_both-Keeps s k =
      rw (trim_left-Keeps s k, trim_left-Keeps (reverse s) (Keeps-reverse s k)) (reverse-reverse s)

Keeps-brackets : (h : Text) → IsHost h → Keeps is_bracket h
unfolding is_bracket
Keeps-brackets [] _ = tt
Keeps-brackets (c ∷ h) (o, cl) = (ground arith, Keeps-brackets h (o.1, cl.1))

pub trim_brackets-IsHost : (h : Text) → IsHost h → trim_brackets h ≡ h
unfolding trim_brackets
trim_brackets-IsHost h host = trim_both-Keeps is_bracket h (Keeps-brackets h host)

-- The parts of a lighthouse that can be written down: no white space, a name that is not empty
-- and holds no `=`, a user that is not empty and holds no `@`, a host and a port.
pub record IsWritable (l : Lighthouse) : Type 0 where
  pub host : Text
  pub port : Text
  pub host_ok : IsHost host
  pub port_ok : IsPort port
  pub address_eq : l.address ≡ join_host_port host port
  pub name_full : is_empty l.name ≡ false
  pub user_full : is_empty l.user ≡ false
  pub name_lacks : Lacks b'=' l.name
  pub user_lacks : Lacks b'@' l.user
  pub name_keeps : Keeps is_space l.name
  pub target_keeps : Keeps is_space (target l)

-- name=user@host:port
abbrev pub print_lighthouse : Lighthouse → Text
print_lighthouse l = l.name ++ b'=' ∷ target l

split_host_port_default-join_host_port :
    (h p d : Text)
    → IsHost h
    → IsPort p
    → split_host_port_default (join_host_port h p) d ≡ ok (h, p)
unfolding split_host_port_default
split_host_port_default-join_host_port h p d host port =
    rw (split_host_port-join_host_port h p host port, default_host_port)
      (rw (trim_brackets-IsHost h host))

trim_space-Keeps : (s : Text) → Keeps is_space s → trim_space s ≡ s
unfolding trim_space
trim_space-Keeps s k = trim_both-Keeps is_space s k

is_empty-join_host_port : (h p : Text) → is_empty (join_host_port h p) ≡ false
unfolding join_host_port
is_empty-join_host_port [] p = ground arith
is_empty-join_host_port (c ∷ h) p = ground arith

module _ (l : Lighthouse) (w : IsWritable l) where
  name_and_target-print : name_and_target (print_lighthouse l) ≡ (l.name, target l)
  unfolding name_and_target
  name_and_target-print = rw (
    cut-append b'=' l.name (target l) w.name_lacks,
    name_and_target,
    trim_space-Keeps l.name w.name_keeps,
    trim_space-Keeps (target l) w.target_keeps,
  )

  user_and_addr-target : (value : Text) → user_and_addr value (target l) ≡ ok (l.user, l.address)
  unfolding user_and_addr target
  user_and_addr-target value =
      rw (cut-append b'@' l.user l.address w.user_lacks, user_and_addr)
        (ground (arith, is_empty-join_host_port w.host w.port))

  parse_target-address : (value : Text) → parse_target value l.name (l.user, l.address) ≡ ok l
  unfolding parse_target make_lighthouse
  parse_target-address value = ground (
    arith,
    split_host_port_default-join_host_port w.host w.port (codes "4222") w.host_ok w.port_ok,
  )

  parse_entry-print : parse_entry (print_lighthouse l) ≡ ok l
  unfolding parse_entry
  parse_entry-print =
      rw (name_and_target-print, user_and_addr-target (print_lighthouse l))
        (parse_target-address (print_lighthouse l))

  print-Keeps : Keeps is_space (print_lighthouse l)
  print-Keeps =
      Keeps-append is_space l.name (b'=' ∷ target l) w.name_keeps
        ((unfold is_space in refl), w.target_keeps)

is_empty-append_cons : (s t : Text) (c : ℕ) → is_empty (s ++ c ∷ t) ≡ false
is_empty-append_cons [] t c = refl
is_empty-append_cons (d ∷ s) t c = refl

abbrev pub AllWritable : List Lighthouse → Type 0
AllWritable [] = Unit
AllWritable (l ∷ ls) = IsWritable l × AllWritable ls

entries-print : (ls : List Lighthouse) → AllWritable ls → entries (map print_lighthouse ls) ≡ ok ls
unfolding entries
entries-print [] _ = refl
entries-print (l ∷ ls) (w, ws) = ground (
  arith,
  trim_space-Keeps (print_lighthouse l) (print-Keeps l w),
  is_empty-append_cons l.name (target l) b'=',
  parse_entry-print l w,
  entries-print ls ws,
)

-- Lighthouses written one by one as name=user@host:port are read back, in order, if there is one,
-- no name is used twice, and the parts of each can be written down.
pub parse_lighthouses-print :
    (ls : List Lighthouse)
    → ls ≢ []
    → NodupNames ls
    → AllWritable ls
    → parse_lighthouses (map print_lighthouse ls) ≡ ok ls
parse_lighthouses-print ls n u w = (parse_lighthouses_iff _ ls).1 (entries-print ls w, n, u)
