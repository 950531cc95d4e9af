-- ===== src/SshClient/Signer/Laws.antt =====
-- Normalised keys and loaded signers of internal/sshclient/client.go.
use mathlib.Core.List.{reverse, reverse_aux}
use nebula_mnemosina.Prelude.{
  ℕ, true, false, List, [], ◌∷◌, ◌++◌, ◌==◌, if◌then◌else◌, ◌≡◌, ◌≢◌, ◌↔◌, ◌⊎◌, inl, inr, refl,
  arith, Bool-cases,
}
use nebula_mnemosina.Text.{
  Text, is_empty, has_byte, is_space, trim_left, trim_both, trim_space, Lacks,
}
use nebula_mnemosina.Errors.{Piece, lit, Result, ok, err, ◌>>=◌, wrapping}
use nebula_mnemosina.Config.{SshConfig}
use nebula_mnemosina.SshClient.Signer.{
  Parsers, backslash, newline, has_escape, unescape, unescape_if, normalize_private_key,
  private_key, parse_key, load_signer,
}

-- A key on one line, as it stands in an environment variable: `\n` for each newline.
abbrev pub escape : Text → Text
escape [] = []
escape (c ∷ s) = if c == newline then backslash ∷ b'n' ∷ escape s else c ∷ escape s

escape-append : (s t : Text) → escape (s ++ t) ≡ escape s ++ escape t
escape-append [] t = refl
escape-append (c ∷ s) t = ground (arith, escape-append s t)

has_byte-escape : (s : Text) → has_byte newline (escape s) ≡ false
unfolding has_byte
has_byte-escape [] = refl
has_byte-escape (c ∷ s) = ground (arith, has_byte-escape s)

unescape_plain : (c : ℕ) (s : Text) → c ≢ backslash → unescape (c ∷ s) ≡ c ∷ unescape s
unfolding unescape
unescape_plain c [] h = refl
unescape_plain c (d ∷ s) h = ground arith

unescape_mark : (s : Text) → unescape (backslash ∷ b'n' ∷ s) ≡ newline ∷ unescape s
unfolding unescape
unescape_mark s = refl

unescape-escape : (s : Text) → Lacks backslash s → unescape (escape s) ≡ s
unescape-escape [] h = unfold unescape in refl
unescape-escape (c ∷ s) (h, hs) = elim (Bool-cases (c == newline)) [
  | inl e ↦ rw (e, unescape_mark (escape s), unescape-escape s hs) (ground (arith, e))
  | inr e ↦ rw (e, unescape_plain c (escape s) h, unescape-escape s hs) refl
]

has_escape-Lacks : (s : Text) → Lacks backslash s → has_escape s ≡ false
unfolding has_escape
has_escape-Lacks [] h = refl
has_escape-Lacks (c ∷ []) h = refl
has_escape-Lacks (c ∷ d ∷ s) (h, hs) = ground (arith, has_escape-Lacks (d ∷ s) hs)

-- Only a key of several lines has something to escape.
escape_same : (s : Text) → has_byte newline s ≡ false → escape s ≡ s
unfolding has_byte
escape_same [] h = refl
escape_same (c ∷ s) h = ground (arith, escape_same s)

has_escape_tail : (c : ℕ) (s : Text) → has_escape s ≡ true → has_escape (c ∷ s) ≡ true
unfolding has_escape
has_escape_tail c [] h = cc
has_escape_tail c (d ∷ s) h = ground arith

has_escape-escape : (s : Text) → has_byte newline s ≡ true → has_escape (escape s) ≡ true
unfolding has_byte
has_escape-escape [] h = cc
has_escape-escape (c ∷ s) h = elim (Bool-cases (c == newline)) [
  | inl e ↦ rw (e) (unfold has_escape in refl)
  | inr e ↦ rw (e) (has_escape_tail c (escape s) (has_escape-escape s (ground (arith, e))))
]

unescape_if-escape : (s : Text) → Lacks backslash s → unescape_if (escape s) ≡ s
unfolding unescape_if
unescape_if-escape s h = elim (Bool-cases (has_byte newline s)) [
  | inl e ↦ rw (has_escape-escape s e, has_byte-escape s, unescape-escape s h) refl
  | inr e ↦ rw (escape_same s e, has_escape-Lacks s h) refl
]

unescape_if_plain : (s : Text) → Lacks backslash s → unescape_if s ≡ s
unfolding unescape_if
unescape_if_plain s h = rw (has_escape-Lacks s h) refl

trim_left_kept : (c : ℕ) (s : Text) → is_space c ≡ false → trim_left is_space (c ∷ s) ≡ c ∷ s
unfolding trim_left
trim_left_kept c s h = rw h refl

reverse_aux_last : (s : Text) (z : ℕ) (r : Text) → reverse_aux (s ++ z ∷ []) r ≡ z ∷ reverse_aux s r
reverse_aux_last [] z r = refl
reverse_aux_last (c ∷ s) z r = reverse_aux_last s z (c ∷ r)

reverse_aux_twice :
    (s : Text) (done r : Text) → reverse_aux (reverse_aux s done) r ≡ reverse_aux done (s ++ r)
reverse_aux_twice [] done r = refl
reverse_aux_twice (c ∷ s) done r = reverse_aux_twice s (c ∷ done) r

trim_space_kept :
    (c : ℕ) (m : Text) (z : ℕ)
    → is_space c ≡ false
    → is_space z ≡ false
    → trim_space (c ∷ m ++ z ∷ []) ≡ c ∷ m ++ z ∷ []
unfolding trim_space trim_both
trim_space_kept c m z hc hz =
    rw
      (
        trim_left_kept c (m ++ z ∷ []) hc,
        reverse_aux_last (c ∷ m) z [],
        trim_left_kept z (reverse (c ∷ m)) hz,
      )
      (reverse_aux_twice (c ∷ m) [] (z ∷ []))

escape_ends :
    (c : ℕ) (m : Text) (z : ℕ)
    → is_space c ≡ false
    → is_space z ≡ false
    → escape (c ∷ m ++ z ∷ []) ≡ c ∷ escape m ++ z ∷ []
unfolding is_space
escape_ends c m z hc hz = ground (arith, escape-append m (z ∷ []))

-- A key as it stands, and the same key on one line, are the same key, with one newline behind it.
pub normalize_private_key-escape :
    (c : ℕ) (m : Text) (z : ℕ)
    → is_space c ≡ false
    → is_space z ≡ false
    → Lacks backslash (c ∷ m ++ z ∷ [])
    → let key = c ∷ m ++ z ∷ [] in
      (normalize_private_key (escape key) ≡ key ++ newline ∷ [])
      × (normalize_private_key key ≡ key ++ newline ∷ [])
unfolding normalize_private_key
normalize_private_key-escape c m z hc hz h = (
  rw
      (
        escape_ends c m z hc hz,
        trim_space_kept c (escape m) z hc hz,
        ← escape_ends c m z hc hz,
        unescape_if-escape _ h,
      )
      refl,
  rw (trim_space_kept c m z hc hz, unescape_if_plain _ h) refl,
)

wrapping_iff :
    {A : Type 0} (ps : List Piece) (r : Result A) (a : A) → (wrapping ps r ≡ ok a) ↔ (r ≡ ok a)
wrapping_iff ps (ok b) a = (λ h. h, λ h. h)
wrapping_iff ps (err e) a = ground arith

>>=-ok :
    {A B : Type 0} (r : Result A) (f : A → Result B) (b : B)
    → (r >>= f) ≡ ok b
    → (a : A) × (r ≡ ok a) × (f a ≡ ok b)
>>=-ok (ok a) f b h = (a, refl, h)
>>=-ok (err e) f b h = absurd (ground arith)

module _ {Signer : Type 0} (parsers : Parsers Signer) (cfg : SshConfig) where
  -- The private key of the options, or else what the key file holds.
  abbrev pub IsKey : Text → Type 0
  IsKey key =
      ((is_empty cfg.private_key ≡ false) × (key ≡ normalize_private_key cfg.private_key))
      ⊎ ((is_empty cfg.private_key ≡ true)
          × (is_empty cfg.key_file ≡ false)
          × (parsers.read_file cfg.key_file ≡ ok key))

  -- A passphrase, if there is one, is used.
  abbrev pub Parses : Text → Signer → Type 0
  Parses key signer =
      ((is_empty cfg.key_passphrase ≡ true) × (parsers.parse_private_key key ≡ ok signer))
      ⊎ ((is_empty cfg.key_passphrase ≡ false)
          × (parsers.parse_private_key_with_passphrase key cfg.key_passphrase ≡ ok signer))

  private_key_iff : (key : Text) → (private_key parsers cfg ≡ ok key) ↔ IsKey key
  unfolding private_key
  private_key_iff key =
      let file = wrapping_iff (lit "read ssh key file" ∷ []) (parsers.read_file cfg.key_file) key in
      elim (Bool-cases (is_empty cfg.private_key)) [
        | inl e ↦ elim (Bool-cases (is_empty cfg.key_file)) [
          | inl f ↦ rw (e, f) (ground arith)
          | inr f ↦ rw (e, f) (ground (arith, file))
        ]
        | inr e ↦ rw e (ground arith)
      ]

  parse_key_iff :
      (key : Text) (signer : Signer) → (parse_key parsers cfg key ≡ ok signer) ↔ Parses key signer
  unfolding parse_key
  parse_key_iff key signer =
      let plain =
        wrapping_iff (lit "parse ssh private key" ∷ []) (parsers.parse_private_key key) signer in
      let encrypted =
        wrapping_iff (lit "parse encrypted ssh private key" ∷ [])
          (parsers.parse_private_key_with_passphrase key cfg.key_passphrase) signer in
      elim (Bool-cases (is_empty cfg.key_passphrase)) [
        | inl e ↦ rw e (ground (arith, plain))
        | inr e ↦ rw e (ground (arith, encrypted))
      ]

  -- A signer is loaded exactly if there is a key and it parses: the private key of the options is
  -- used if it is not empty, else the key file, and the passphrase if it is not empty.
  pub load_signer_iff :
      (signer : Signer)
      → (load_signer parsers cfg ≡ ok signer) ↔ ((key : Text) × IsKey key × Parses key signer)
  unfolding load_signer
  load_signer_iff signer = (
    λ h.
        let (key, e, p) = >>=-ok (private_key parsers cfg) (parse_key parsers cfg) signer h in
        (key, (private_key_iff key).0 e, (parse_key_iff key signer).0 p),
    λ (key, is_key, parses).
        rw ((private_key_iff key).1 is_key) ((parse_key_iff key signer).1 parses),
  )
