-- ===== src/SshClient/Client/Laws.antt =====
-- The results of Run of internal/sshclient/client.go.
use nebula_mnemosina.Prelude.{
  true, [], Option, none, some, ◌≡◌, ◌↔◌, ◌⊎◌, inl, inr, refl, sym, ap, ◌∙◌, arith,
}
use nebula_mnemosina.Text.{Text}
use nebula_mnemosina.Errors.{Error}
use nebula_mnemosina.Model.{Lighthouse, CommandResult, is_none, command_success}
use nebula_mnemosina.SshClient.HostKeys.{KnownHosts, Disk, verify}
use nebula_mnemosina.SshClient.Client.{
  Client, Handshake, broken, shown, Ending, exited, context_done, Attempt, blank, finish,
  open_session, open_client, handshake_error, connect, dial, run,
}

handshake_error_iff :
    (failed : Error → Error) (answer after : Option Error)
    → (handshake_error failed answer after ≡ none) ↔ ((answer ≡ none) × (after ≡ none))
handshake_error_iff failed none after = ground arith
handshake_error_iff failed (some e) after = ground arith

module _ {Signer Key : Type 0} (known : KnownHosts Key) (handshake_failed : Error → Error)
    (c : Client Signer Key) (lighthouse : Lighthouse) (command : Text) (a : Attempt Key)
    (d : Disk) where
  -- The server showed a key that the callback accepts for the lighthouse's address.
  abbrev pub IsVerified : Option Error → Type 0
  IsVerified after =
      (remote : Text) × (key : Key) × (a.handshake ≡ shown remote key after)
      × ((verify known c.host_keys lighthouse.address remote key d).0.0 ≡ none)

  -- A session is open on a connection to a verified server.
  abbrev pub IsOpen : Type 0
  IsOpen = (a.dialled ≡ none) × IsVerified none × (a.session ≡ none)

  abbrev pub result : CommandResult
  result = (run known handshake_failed c lighthouse command a d).0.0

  -- A result without output, with an error.
  abbrev pub IsFailed : CommandResult → Type 0
  IsFailed r = (r.output ≡ []) × ((e : Error) × (r.error ≡ some e))

  abbrev pub Runs : CommandResult → Type 0
  Runs r = (IsOpen × (r ≡ finish command (blank command a) a.ending)) ⊎ ((IsOpen → ⊥) × IsFailed r)

  finish_success_iff :
      (e : Ending)
      → (command_success (finish command (blank command a) e) ≡ true)
        ↔ ((output : Text) × (e ≡ exited output none))
  unfolding finish command_success is_none
  finish_success_iff (exited output none) = (λ s. (output, refl), λ s. refl)
  finish_success_iff (exited output (some e)) =
      ((λ s. absurd (ground arith)), λ (o, s). absurd (ground arith))
  finish_success_iff (context_done output e) =
      ((λ s. absurd (ground arith)), λ (o, s). absurd (ground arith))

  failed_no_success :
      (r : CommandResult) {e : Error} → r.error ≡ some e → command_success r ≡ true → ⊥
  unfolding command_success is_none
  failed_no_success r h s = ground (arith, ap is_none h)

  open_session_lem :
      (session : Option Error)
      → a.session ≡ session
      → let r = open_session command (blank command a) a session in
        ((a.session ≡ none) × (r ≡ finish command (blank command a) a.ending))
        ⊎ ((a.session ≡ none → ⊥) × IsFailed r)
  unfolding open_session
  open_session_lem none h = inl (h, refl)
  open_session_lem (some e) h = inr (λ n. absurd (ground (arith, h)), (refl, (_, refl)))

  open_client_lem :
      (answer : Option Error)
      → a.dialled ≡ none
      → (answer ≡ none) ↔ IsVerified none
      → Runs (open_client command (blank command a) a answer)
  unfolding open_client
  open_client_lem none h (to, back) = elim (open_session_lem a.session refl) [
    | inl (s, r) ↦ inl ((h, to refl, s), r)
    | inr (closed, failed) ↦ inr (λ (_, _, s). closed s, failed)
  ]
  open_client_lem (some e) h (to, back) =
      inr (λ (_, v, _). absurd (ground (arith, back v)), (refl, (_, refl)))

  connect_lem :
      (h : Handshake Key)
      → a.dialled ≡ none
      → a.handshake ≡ h
      → Runs (connect known handshake_failed c lighthouse command a h d).0.0
  unfolding connect
  connect_lem (broken e) dialled h =
      open_client_lem (some e) dialled
        ((λ n. absurd (ground (arith, n))), λ (r, k, s, v). absurd (ground (arith, h, s)))
  connect_lem (shown remote key after) dialled h = open_client_lem _ dialled (
    λ n.
        let (accepted, rest) = (handshake_error_iff handshake_failed _ after).0 n in
        (remote, key, h ∙ ap (shown remote key) rest, accepted),
    λ (r, k, s, v).
        let same : shown remote key after ≡ shown r k none = sym h ∙ s in
        let remotes : r ≡ remote = ground (arith, same) in
        let keys : k ≡ key = ground (arith, same) in
        let ends : after ≡ none = ground (arith, same) in
        (handshake_error_iff handshake_failed _ after).1 (
          ap (λ r. (verify known c.host_keys lighthouse.address r key d).0.0) (sym remotes)
              ∙ ap (λ k. (verify known c.host_keys lighthouse.address r k d).0.0) (sym keys)
              ∙ v,
          ends,
        ),
  )

  dial_lem :
      (dialled : Option Error)
      → a.dialled ≡ dialled
      → Runs (dial known handshake_failed c lighthouse command a dialled d).0.0
  unfolding dial
  dial_lem none h = connect_lem a.handshake h refl
  dial_lem (some e) h = inr (λ (x, _, _). absurd (ground (arith, h, x)), (refl, (_, refl)))

  -- A command runs, and its result has the ending of its run, if the dialling succeeds, the server
  -- shows a key that the callback accepts for the lighthouse's address and the handshake and the
  -- session succeed. Else the result has an error, and no output.
  pub run_outcome : Runs result
  unfolding run
  run_outcome = dial_lem a.dialled refl

  -- A command succeeds exactly if the dialling, the handshake and the session succeed, the callback
  -- accepts the key that the server shows for the lighthouse's address, and the command exits without an
  -- error while the context lasts.
  pub run_success_iff :
      (command_success result ≡ true)
      ↔ (IsOpen × ((output : Text) × (a.ending ≡ exited output none)))
  run_success_iff = elim run_outcome [
    | inl (opened, r) ↦
        let (to, back) = finish_success_iff a.ending in
        (
          λ s. (opened, to (sym (ap command_success r) ∙ s)),
          λ (_, e). ap command_success r ∙ back e,
        )
    | inr (closed, (_, (e, failed))) ↦
        (λ s. absurd (failed_no_success result failed s), λ (opened, _). absurd (closed opened))
  ]
