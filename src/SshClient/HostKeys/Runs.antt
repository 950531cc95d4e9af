-- ===== src/SshClient/HostKeys/Runs.antt =====
-- The operations on the known_hosts file of internal/sshclient/client.go, while none of them fails.
use nebula_mnemosina.Prelude.{
  ℕ, Bool, true, List, [], ◌∷◌, ◌++◌, Option, none, some, take, ◌==◌, ◌≡◌, refl, ap, ◌∙◌,
}
use nebula_mnemosina.Text.{Text}
use nebula_mnemosina.Errors.{Piece, lit, str, Error, ok}
use nebula_mnemosina.SshClient.HostKeys.{
  Check, KnownHosts, Disk, Io, continue, wrap_error, wrapping, attempt, operation, untouched,
  exists, add_text, open_append, write_string, load_content, new_check, append_known_host, learn,
}
use nebula_mnemosina.SshClient.HostKeys.Answers.{entry}

-- The text is empty or ends with a newline.
abbrev pub ends_line : Text → Bool
ends_line [] = true
ends_line (c ∷ []) = c == 10
ends_line (c ∷ d ∷ s) = ends_line (d ∷ s)

abbrev pub NoFaults : List (Option (ℕ × Error)) → Type 0
NoFaults [] = Unit
NoFaults (none ∷ faults) = NoFaults faults
NoFaults (some x ∷ faults) = ⊥

operation_runs :
    {A : Type 0} (torn : ℕ → Disk → Disk) (m : Io A) (d : Disk)
    → NoFaults d.faults
    → (faults : List (Option (ℕ × Error))) × (operation torn m d
        ≡ m (record { content = d.content; faults = faults }))
      × NoFaults faults
unfolding operation
operation_runs torn m d = go d.faults refl
  where
    go :
        (f : List (Option (ℕ × Error)))
        → d.faults ≡ f
        → NoFaults f
        → (faults : List (Option (ℕ × Error))) × (attempt f torn m d
            ≡ m (record { content = d.content; faults = faults }))
          × NoFaults faults
    go [] e h = ([], rw (← e), tt)
    go (none ∷ faults) e h = (faults, refl, h)
    go (some x ∷ faults) e h = absurd h

pub ends_line-append : (s t : Text) → ends_line (s ++ (t ++ 10 ∷ [])) ≡ true
ends_line-append [] [] = refl
ends_line-append [] (c ∷ []) = refl
ends_line-append [] (c ∷ d ∷ t) = ends_line-append [] (d ∷ t)
ends_line-append (c ∷ []) [] = refl
ends_line-append (c ∷ []) (d ∷ t) = ends_line-append [] (d ∷ t)
ends_line-append (c ∷ d ∷ s) t = ends_line-append (d ∷ s) t

module _ {Key : Type 0} (known : KnownHosts Key) where
  -- The current check is that of the file, which ends with a whole line; and nothing fails.
  abbrev pub IsSynced : Check Key × Disk → Type 0
  IsSynced st =
      NoFaults st.1.faults
      × ((text : Text) × (st.1.content ≡ some text)
          × (ends_line text ≡ true)
          × (known.load text ≡ ok st.0))

  abbrev pub file : Text → List (Option (ℕ × Error)) → Disk
  file text faults = record { content = some text; faults = faults }

  append_runs :
      (hostname : Text) (key : Key) (text : Text) (faults : List (Option (ℕ × Error)))
      → NoFaults faults
      → (after : List (Option (ℕ × Error))) × (append_known_host known hostname key
            (file text faults)
          ≡ (ok tt, file (text ++ entry known hostname key) after))
        × NoFaults after
  unfolding append_known_host open_append write_string
  append_runs hostname key text faults nf =
      let ps : List Piece = lit "open known_hosts for append" ∷ [] in
      let ws : List Piece = lit "append known host " ∷ str hostname ∷ [] in
      let text' = entry known hostname key in
      let (f, opened, nf1) =
        operation_runs untouched (λ d. (exists d.content, d)) (file text faults) nf in
      let (g, wrote, nf2) =
        operation_runs (λ n d. record d { content = add_text (take n text') d.content })
          (λ d. (ok tt, record d { content = add_text text' d.content })) (file text f) nf1 in
      (
        g,
        ap (λ r. continue (wrap_error ps r.0) (λ u. wrapping ws (write_string text')) r.1) opened
            ∙ ap (λ r. (wrap_error ws r.0, r.1)) wrote,
        nf2,
      )

  pub learn_runs :
      (hostname : Text) (key : Key) (text : Text) (faults : List (Option (ℕ × Error)))
      → NoFaults faults
      → {check : Check Key} → known.load (text ++ entry known hostname key) ≡ ok check
      → (after : List (Option (ℕ × Error))) × (learn known hostname key (file text faults)
          ≡ (ok check, file (text ++ entry known hostname key) after))
        × NoFaults after
  unfolding learn new_check
  learn_runs hostname key text faults nf {check} loaded =
      let ps : List Piece = lit "reload known_hosts after learning " ∷ str hostname ∷ [] in
      let text' = text ++ entry known hostname key in
      let (f, appended, nf1) = append_runs hostname key text faults nf in
      let (g, ran, nf2) =
        operation_runs untouched (λ d. (load_content known d.content, d)) (file text' f) nf1 in
      (
        g,
        ap (λ r. continue r.0 (λ u. wrapping ps (new_check known)) r.1) appended
            ∙ ap (λ r. (wrap_error ps r.0, r.1)) ran
            ∙ ap (λ r. (wrap_error ps r, file text' g)) loaded,
        nf2,
      )
