-- ===== src/SshClient/Signer.antt =====
-- loadSigner and normalizePrivateKey of internal/sshclient/client.go. The parsers of
-- golang.org/x/crypto/ssh and os.ReadFile are parameters.
pub mod Laws
use nebula_mnemosina.Prelude.{
  ℕ, Bool, true, false, not, ◌&&◌, List, [], ◌∷◌, ◌++◌, ◌==◌, if◌then◌else◌,
}
use nebula_mnemosina.Text.{Text, is_empty, has_byte, trim_space}
use nebula_mnemosina.Errors.{lit, Result, ok, err, errorf, ◌>>=◌, wrapping}
use nebula_mnemosina.Config.{SshConfig}

-- ssh.ParsePrivateKey and ssh.ParsePrivateKeyWithPassphrase, and os.ReadFile.
pub record Parsers (Signer : Type 0) : Type 0 where
  pub parse_private_key : Text → Result Signer
  pub parse_private_key_with_passphrase : Text → Text → Result Signer
  pub read_file : Text → Result Text

abbrev pub backslash : ℕ
backslash = 92

abbrev pub newline : ℕ
newline = 10

-- The two bytes of the raw string `\n`.
abbrev pub is_escape : ℕ → ℕ → Bool
is_escape c d = (c == backslash) && (d == b'n')

-- strings.Contains(value, `\n`)
unfoldable pub has_escape : Text → Bool
has_escape [] = false
has_escape (c ∷ []) = false
has_escape (c ∷ d ∷ s) = elim (is_escape c d) [ true ↦ true | false ↦ has_escape (d ∷ s) ]

-- strings.ReplaceAll(value, `\n`, "\n")
unfoldable pub unescape : Text → Text
unescape [] = []
unescape (c ∷ []) = c ∷ []
unescape (c ∷ d ∷ s) = elim (is_escape c d) [
  | true ↦ newline ∷ unescape s
  | false ↦ c ∷ unescape (d ∷ s)
]

unfoldable pub unescape_if : Text → Text
unescape_if value =
    if has_escape value && not (has_byte newline value) then unescape value else value

unfoldable pub normalize_private_key : Text → Text
unfolding unescape_if
normalize_private_key value = unescape_if (trim_space value) ++ newline ∷ []

module _ {Signer : Type 0} (parsers : Parsers Signer) where
  -- The switch.
  unfoldable pub private_key : SshConfig → Result Text
  private_key cfg =
      if not (is_empty cfg.private_key)
      then ok (normalize_private_key cfg.private_key)
      else if not (is_empty cfg.key_file)
      then wrapping (lit "read ssh key file" ∷ []) (parsers.read_file cfg.key_file)
      else err (errorf (lit "ssh private key is required" ∷ []))

  unfoldable pub parse_key : SshConfig → Text → Result Signer
  parse_key cfg key =
      if not (is_empty cfg.key_passphrase)
      then wrapping (lit "parse encrypted ssh private key" ∷ [])
          (parsers.parse_private_key_with_passphrase key cfg.key_passphrase)
      else wrapping (lit "parse ssh private key" ∷ []) (parsers.parse_private_key key)

  unfoldable pub load_signer : SshConfig → Result Signer
  load_signer cfg = private_key cfg >>= parse_key cfg
