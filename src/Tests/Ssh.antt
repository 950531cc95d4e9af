-- ===== src/Tests/Ssh.antt =====
-- The SSH client.
use nebula_mnemosina.Prelude.{
  Bool, true, false, [], ◌∷◌, ◌++◌, none, some, ◌≡◌, ◌≢◌, ◌↔◌, ◌⊎◌, refl, arith,
}
use nebula_mnemosina.Text.{Text, is_space, codes, Lacks}
use nebula_mnemosina.Prelude.Int.{pos}
use nebula_mnemosina.Model.{Lighthouse, command_success}
use nebula_mnemosina.Config.{SshConfig}
use nebula_mnemosina.Errors.{lit, str, wrap, not_exist, foreign, Error, as_key_error, ok, err}
use nebula_mnemosina.Tests.KnownHosts.{check_text, toy, toy_AreKnownHosts, lines}
use nebula_mnemosina.SshClient.HostKeys.{
  Check, Disk, accepting, accept_new, by_answer, by_want, learn, append_known_host, open_append,
  write_string, new_check,
}
use nebula_mnemosina.SshClient.HostKeys.Answers.{is_unknown, Accepts, Refuses, accept_new_lem}
use nebula_mnemosina.SshClient.Signer.{
  Parsers, newline, normalize_private_key, private_key, parse_key, load_signer,
}
use nebula_mnemosina.SshClient.Signer.Laws.{escape, normalize_private_key-escape}
use nebula_mnemosina.SshClient.Client.{Client, shown, exited, Attempt}
use nebula_mnemosina.SshClient.Client.Laws.{IsOpen, result, run_success_iff}
use nebula_mnemosina.SshClient.HostKeys.Pinned.{calls, first_key_pinned}

abbrev st : Check Bool × Disk
st = (check_text [], record { content = some []; faults = none ∷ [] })

abbrev home : Text
home = codes "[home]:4222"

home-Lacks : Lacks 10 home
home-Lacks = ground arith

b-Lacks : Lacks 10 (codes "b")
b-Lacks = ground arith

home_unknown : is_unknown (st.0 home (codes "10.0.0.1:22") true) ≡ true
unfolding is_unknown as_key_error lines
home_unknown = refl

first_key_pinned_example :
    let first = accept_new toy home (codes "10.0.0.1:22") true st.0 st.1 in
    let later =
      calls toy
        (record { hostname = home; remote = []; key = false }
          ∷ record { hostname = codes "b"; remote = []; key = true }
          ∷ [])
        (first.0.1, first.1) in
    (first.0.0 ≡ none)
    × ((accept_new toy home (codes "10.0.0.1:22") true later.0 later.1).0.0 ≡ none)
    × ((a : Text) (k : Bool) → k ≢ true → (accept_new toy home a k later.0 later.1).0.0 ≢ none)
first_key_pinned_example =
    first_key_pinned toy (Lacks 10) toy_AreKnownHosts home (codes "10.0.0.1:22") true st
      (record { hostname = home; remote = []; key = false }
        ∷ record { hostname = codes "b"; remote = []; key = true }
        ∷ [])
      (tt, ([], refl, refl, refl)) home-Lacks (home-Lacks, (b-Lacks, tt)) home_unknown

accept_new_lem_example :
    Accepts toy home true [] st.0 st.1 (accept_new toy home [] true st.0 st.1)
    ⊎ Refuses toy home true st.0 (accept_new toy home [] true st.0 st.1)
accept_new_lem_example = accept_new_lem toy home true [] st.0 st.1

-- The file cannot be written: the key is refused, and a part of the line is left.
abbrev full_disk : Disk
full_disk = record { content = some []; faults = none ∷ some (3, foreign (codes "no space")) ∷ [] }

torn_line : accept_new toy (codes "b") [] true (check_text []) full_disk ≡ (
  (
    some (wrap (lit "append known host " ∷ str (codes "b") ∷ []) (foreign (codes "no space"))),
    check_text [],
  ),
  record { content = some (codes "1b\n"); faults = [] },
)
unfolding accept_new by_answer by_want learn append_known_host open_append write_string new_check
    lines as_key_error
torn_line = refl

normalize_private_key-escape_example :
    let key = b'k' ∷ (codes "e\n") ++ b'y' ∷ [] in
    (normalize_private_key (escape key) ≡ key ++ newline ∷ [])
    × (normalize_private_key key ≡ key ++ newline ∷ [])
unfolding is_space
normalize_private_key-escape_example =
    normalize_private_key-escape b'k' (codes "e\n") b'y' refl refl (ground arith)

abbrev parsers : Parsers Text
parsers = record {
  parse_private_key = λ key. ok key;
  parse_private_key_with_passphrase = λ key passphrase. ok passphrase;
  read_file = λ path. err not_exist;
}

abbrev cfg : SshConfig
cfg = record {
  key_file = [];
  private_key = codes "key";
  key_passphrase = codes "open";
  known_hosts_path = [];
  host_key_mode = codes "strict";
  timeout = pos 10;
}

signer_parsed : load_signer parsers cfg ≡ ok (codes "open")
unfolding load_signer private_key parse_key
signer_parsed = refl

abbrev client : Client Text Bool
client = record { signer = []; host_keys = accepting (check_text []); timeout = pos 10 }

abbrev lighthouse : Lighthouse
lighthouse = record { name = codes "a"; user = codes "root"; address = home }

abbrev exits : Attempt Bool
exits = record {
  started_at = pos 1;
  dialled = none;
  handshake = shown [] true none;
  session = none;
  ending = exited (codes "out") none;
  finished_at = pos 2;
}

abbrev failed : Error → Error
failed e = wrap (lit "ssh: handshake failed" ∷ []) e

run_success_iff_example :
    (command_success (result toy failed client lighthouse (codes "true") exits st.1) ≡ true) ↔ (
      IsOpen toy failed client lighthouse (codes "true") exits st.1
      × ((output : Text) × (exits.ending ≡ exited output none)))
run_success_iff_example = run_success_iff toy failed client lighthouse (codes "true") exits st.1
