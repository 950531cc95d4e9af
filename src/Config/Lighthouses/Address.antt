-- ===== src/Config/Lighthouses/Address.antt =====
-- The address of a lighthouse, and whether it can be split again (as /prometheus-sd does).
use nebula_mnemosina.Prelude.{false, [], ◌∷◌, ◌++◌, some, arith, ◌≡◌, ◌≢◌, ◌⊎◌, subst, inl, inr}
use nebula_mnemosina.Text.{Text, Lacks, cut, codes, is_empty}
use nebula_mnemosina.Text.Laws.{
  has_byte-Lacks, cut_absent, cut-append, cut_last_absent, cut_last-append, Lacks-append,
}
use nebula_mnemosina.Errors.{Error, ok, err, Result-cases}
use nebula_mnemosina.Net.{colon, open_bracket, close_bracket, join_host_port, split_host_port}
use nebula_mnemosina.Net.Laws.{IsHost, IsPort, split_host_port-join_host_port}
use nebula_mnemosina.Net.Sound.{split_host_port_sound}
use nebula_mnemosina.Model.{Lighthouse}
use nebula_mnemosina.Config.Lighthouses.{
  parse_entry, parse_target, user_and_addr, name_and_target, make_lighthouse,
  split_host_port_default,
}
use nebula_mnemosina.Config.Lighthouses.RoundTrip.{trim_brackets-IsHost}

-- The address is accepted as it stands, or holds no bracket.
abbrev pub IsPlain : Text → Type 0
IsPlain v =
    ((x : Text × Text) × (split_host_port v ≡ ok x))
    ⊎ (Lacks open_bracket v × Lacks close_bracket v)

absent_or_free : (v : Text) (e : Error) → IsPlain v → split_host_port v ≡ err e → IsHost v
absent_or_free v e (inl (x, k)) h = absurd (ground arith)
absent_or_free v e (inr free) h = free

split_host_port_default-IsPlain :
    (v d h p : Text)
    → IsPlain v
    → IsPort d
    → split_host_port_default v d ≡ ok (h, p)
    → IsHost h × IsPort p
unfolding split_host_port_default
split_host_port_default-IsPlain v d h p plain port e = elim (Result-cases (split_host_port v)) [
  | inl ((host, port'), k) ↦
      let (host_ok, port_ok) = split_host_port_sound v host port' k in
      let same : ◌≡◌ {A = Text × Text} (host, port') (h, p) =
        ground (arith, trim_brackets-IsHost host host_ok) in
      subst (λ (x : Text × Text). IsHost x.0 × IsPort x.1) same (host_ok, port_ok)
  | inr (failure, k) ↦
      let same : ◌≡◌ {A = Text × Text} (v, d) (h, p) = ground arith in
      subst (λ (x : Text × Text). IsHost x.0 × IsPort x.1) same
        (absent_or_free v failure plain k, port)
]

-- A value whose address part is accepted as it stands, or holds no bracket, yields an address that
-- splits again into a host and a port.
pub parse_entry-splits :
    (value user addr : Text) (l : Lighthouse)
    → cut b'@' (name_and_target value).1 ≡ some (user, addr)
    → IsPlain addr
    → parse_entry value ≡ ok l
    → (x : Text × Text) × (split_host_port l.address ≡ ok x)
unfolding parse_entry parse_target make_lighthouse user_and_addr
parse_entry-splits value user addr l found plain e =
    elim (Result-cases (split_host_port_default addr (codes "4222"))) [
      | inr (failure, k) ↦ absurd (ground arith)
      | inl ((h, p), k) ↦
          let (host, port) =
            split_host_port_default-IsPlain addr (codes "4222") h p plain (omega arith) k in
          let same : join_host_port h p ≡ l.address = ground arith in
          (
            (h, p),
            subst (λ a. split_host_port a ≡ ok (h, p)) same
                (split_host_port-join_host_port h p host port),
          )
    ]

stray_name :
    (user s : Text)
    → Lacks b'=' (user ++ b'@' ∷ open_bracket ∷ s)
    → name_and_target (user ++ b'@' ∷ open_bracket ∷ s) ≡ ([], user ++ b'@' ∷ open_bracket ∷ s)
unfolding name_and_target
stray_name user s h = rw (cut_absent b'=' _ h, name_and_target)

stray_user :
    (value user s : Text)
    → is_empty user ≡ false
    → Lacks b'@' user
    → user_and_addr value (user ++ b'@' ∷ open_bracket ∷ s) ≡ ok (user, open_bracket ∷ s)
unfolding user_and_addr
stray_user value user s full lacks =
    rw (cut-append b'@' user (open_bracket ∷ s) lacks, user_and_addr) (ground arith)

stray_default :
    (s : Text)
    → Lacks colon s
    → split_host_port_default (open_bracket ∷ s) (codes "4222")
      ≡ ok (open_bracket ∷ s, codes "4222")
unfolding split_host_port_default split_host_port
stray_default s plain =
    rw (cut_last_absent colon (open_bracket ∷ s) (ground arith), split_host_port)
      (ground (arith, has_byte-Lacks colon (open_bracket ∷ s)))

stray_join :
    (s : Text)
    → Lacks colon s
    → join_host_port (open_bracket ∷ s) (codes "4222") ≡ open_bracket ∷ (s ++ colon ∷ codes "4222")
unfolding join_host_port
stray_join s plain = ground (arith, has_byte-Lacks colon (open_bracket ∷ s))

stray_fails :
    (s : Text) (x : Text × Text)
    → Lacks colon s
    → Lacks close_bracket s
    → split_host_port (open_bracket ∷ (s ++ colon ∷ codes "4222")) ≢ ok x
unfolding split_host_port
stray_fails s x plain unclosed =
    rw (cut_last-append colon (open_bracket ∷ s) (codes "4222") (ground arith), split_host_port)
      (λ e. ground (
        arith,
        cut_absent close_bracket (s ++ colon ∷ codes "4222")
            (Lacks-append close_bracket s (colon ∷ codes "4222") unclosed (ground arith)),
      ))

-- A value user@[s is accepted and gives an address that never splits, if the user is not empty and
-- holds no `@`, nothing in the value is a `=`, and `s` holds neither a colon nor a closing bracket.
pub parse_entry_stray_bracket :
    (user s : Text)
    → is_empty user ≡ false
    → Lacks b'@' user
    → Lacks b'=' (user ++ b'@' ∷ open_bracket ∷ s)
    → Lacks colon s
    → Lacks close_bracket s
    → (l : Lighthouse) × (parse_entry (user ++ b'@' ∷ open_bracket ∷ s) ≡ ok l)
      × ((x : Text × Text) → split_host_port l.address ≢ ok x)
unfolding parse_entry parse_target make_lighthouse
parse_entry_stray_bracket user s full lacks no_name plain unclosed = (
  record {
    name = open_bracket ∷ s;
    user = user;
    address = join_host_port (open_bracket ∷ s) (codes "4222");
  },
  rw (
    stray_name user s no_name,
    stray_user (user ++ b'@' ∷ open_bracket ∷ s) user s full lacks,
    stray_default s plain,
  ),
  λ x. rw (stray_join s plain) (stray_fails s x plain unclosed),
)
