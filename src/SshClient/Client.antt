-- ===== src/SshClient/Client.antt =====
-- New and Run of internal/sshclient/client.go. What the network, the server and the clock do in one
-- run is given as an `Attempt`; the deadline of the context shows in it as the errors that it makes.
pub mod Laws
use nebula_mnemosina.Prelude.{List, [], ◌∷◌, Option, none, some}
use nebula_mnemosina.Text.{Text}
use nebula_mnemosina.Time.{Time, Duration}
use nebula_mnemosina.Errors.{lit, quoted, Error, wrap, Result, ok, err}
use nebula_mnemosina.Model.{Lighthouse, CommandResult}
use nebula_mnemosina.Config.{SshConfig}
use nebula_mnemosina.SshClient.Signer.{Parsers, load_signer}
use nebula_mnemosina.SshClient.HostKeys.{
  KnownHosts, Disk, Io, HostKeys, pure, ◌>>=◌, host_key_callback, verify,
}

pub record Client (Signer Key : Type 0) : Type 0 where
  pub signer : Signer
  pub host_keys : HostKeys Key
  pub timeout : Duration

-- ssh.NewClientConn: it fails before the server shows its key; or the server shows a key from a
-- remote address, and `after` tells how the rest of it goes if the callback accepts the key.
pub data Handshake (Key : Type 0) : Type 0 where
  broken : (failure : Error) → Handshake Key
  shown : (remote : Text) (key : Key) (after : Option Error) → Handshake Key

-- The branch that `select` takes, with the output until then.
pub data Ending : Type 0 where
  exited : (output : Text) (failure : Option Error) → Ending
  context_done : (output : Text) (failure : Error) → Ending

pub record Attempt (Key : Type 0) : Type 0 where
  pub started_at : Time
  pub dialled : Option Error
  pub handshake : Handshake Key
  pub session : Option Error
  pub ending : Ending
  pub finished_at : Time

module _ {Signer Key : Type 0} (parsers : Parsers Signer) (known : KnownHosts Key) where
  abbrev pub loaded : Result Signer → Io Signer
  loaded r d = (r, d)

  unfoldable pub new : SshConfig → Io (Client Signer Key)
  new cfg = do
    signer ← loaded (load_signer parsers cfg)
    callback ← host_key_callback known cfg.host_key_mode cfg.known_hosts_path
    pure (record { signer = signer; host_keys = callback; timeout = cfg.timeout })

unfoldable pub finish : Text → CommandResult → Ending → CommandResult
finish command r (exited output none) = record r { output = output }
finish command r (exited output (some e)) = record r {
  output = output;
  error = some (wrap (lit "run " ∷ quoted command ∷ []) e);
}
finish command r (context_done output e) = record r { output = output; error = some e }

module _ {Key : Type 0} where
  abbrev pub blank : Text → Attempt Key → CommandResult
  blank command a = record {
    command = command;
    started_at = a.started_at;
    finished_at = a.finished_at;
    output = [];
    error = none;
  }

  unfoldable pub open_session : Text → CommandResult → Attempt Key → Option Error → CommandResult
  unfolding finish
  open_session command r a (some e) = record r {
    error = some (wrap (lit "open ssh session" ∷ []) e);
  }
  open_session command r a none = finish command r a.ending

  -- What follows ssh.NewClientConn, by its error.
  unfoldable pub open_client : Text → CommandResult → Attempt Key → Option Error → CommandResult
  unfolding open_session
  open_client command r a (some e) = record r { error = some (wrap (lit "open ssh client" ∷ []) e) }
  open_client command r a none = open_session command r a a.session

-- The error of NewClientConn, by the callback's answer and by what comes after it.
abbrev pub handshake_error : (Error → Error) → Option Error → Option Error → Option Error
handshake_error failed (some e) after = some (failed e)
handshake_error failed none after = after

-- `handshake_failed` is the error that NewClientConn makes of an error of the callback.
module _ {Signer Key : Type 0} (known : KnownHosts Key) (handshake_failed : Error → Error) where
  unfoldable pub connect :
      Client Signer Key
      → Lighthouse
      → Text
      → Attempt Key
      → Handshake Key
      → Disk
      → (CommandResult × Client Signer Key) × Disk
  unfolding open_client
  connect c lighthouse command a (broken e) d =
      ((open_client command (blank command a) a (some e), c), d)
  connect c lighthouse command a (shown remote key after) d =
      let ((answer, callback), d') = verify known c.host_keys lighthouse.address remote key d in
      (
        (
          open_client command (blank command a) a (handshake_error handshake_failed answer after),
          record c { host_keys = callback },
        ),
        d',
      )

  unfoldable pub dial :
      Client Signer Key
      → Lighthouse
      → Text
      → Attempt Key
      → Option Error
      → Disk
      → (CommandResult × Client Signer Key) × Disk
  unfolding connect
  dial c lighthouse command a (some e) d =
      ((record (blank command a) { error = some (wrap (lit "dial ssh" ∷ []) e) }, c), d)
  dial c lighthouse command a none d = connect c lighthouse command a a.handshake d

  unfoldable pub run :
      Client Signer Key
      → Lighthouse
      → Text
      → Attempt Key
      → Disk
      → (CommandResult × Client Signer Key) × Disk
  unfolding dial
  run c lighthouse command a d = dial c lighthouse command a a.dialled d
