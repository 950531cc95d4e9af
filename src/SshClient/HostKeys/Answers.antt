-- ===== src/SshClient/HostKeys/Answers.antt =====
-- The accept-new callback of internal/sshclient/client.go, call by call.
use nebula_mnemosina.Prelude.{
  ℕ, zero, suc, Bool, true, false, List, [], ◌∷◌, ◌++◌, Option, none, some, ◌≡◌, ◌↔◌, ◌⊎◌, inl, inr,
  refl, sym, ap, ◌∙◌, arith, ◌==◌,
}
use nebula_mnemosina.Text.{Text}
use nebula_mnemosina.Errors.{Piece, lit, str, Error, as_key_error, Result, ok, err, Result-cases}
use nebula_mnemosina.SshClient.HostKeys.{
  Check, KnownHosts, Disk, Io, continue, ◌>>=◌, wrap_error, wrapping, attempt, operation, untouched,
  exists, add_text, open_append, write_string, load_content, new_check, append_known_host, learn,
  by_want, by_answer, accept_new,
}

wrap_error-ok :
    {A : Type 0} (ps : List Piece) (r : Result A) {a : A} → wrap_error ps r ≡ ok a → r ≡ ok a
wrap_error-ok ps (ok a) h = h
wrap_error-ok ps (err e) h = absurd (ground arith)

>>=-eq-ok :
    {A B : Type 0} (m : Io A) (f : A → Io B) (d : Disk) {b : B}
    → ((m >>= f) d).0 ≡ ok b
    → (a : A) × ((m d).0 ≡ ok a) × ((m >>= f) d ≡ f a (m d).1)
>>=-eq-ok {B} m f d {b} h = go (m d).0 (m d).1 h
  where
    go :
        (r : Result _) (d' : Disk)
        → (continue r f d').0 ≡ ok b
        → (a : _) × (r ≡ ok a) × (continue r f d' ≡ f a d')
    go (ok a) d' h = (a, refl, refl)
    go (err e) d' h = absurd (ground arith)

-- An operation that succeeds is done.
operation_ok :
    {A : Type 0} (torn : ℕ → Disk → Disk) (m : Io A) (d : Disk) {a : A}
    → (operation torn m d).0 ≡ ok a
    → (faults : List (Option (ℕ × Error))) × (operation torn m d
        ≡ m (record { content = d.content; faults = faults }))
unfolding operation
operation_ok torn m d {a} h = go d.faults refl h
  where
    go :
        (f : List (Option (ℕ × Error)))
        → d.faults ≡ f
        → (attempt f torn m d).0 ≡ ok a
        → (faults : List (Option (ℕ × Error))) × (attempt f torn m d
            ≡ m (record { content = d.content; faults = faults }))
    go [] e h = ([], rw (← e))
    go (none ∷ faults) e h = (faults, refl)
    go (some x ∷ faults) e h = absurd (ground arith)

exists-ok : (c : Option Text) {u : Unit {0}} → exists c ≡ ok u → (text : Text) × (c ≡ some text)
exists-ok (some text) h = (text, refl)
exists-ok none h = absurd (ground arith)

-- The answer for a host that is not known: a KeyError without a key that was expected.
unfoldable pub is_unknown : Option Error → Bool
is_unknown none = false
is_unknown (some e) = elim (as_key_error e) [ none ↦ false | some n ↦ n == 0 ]

pub is_unknown_iff : (e : Error) → (is_unknown (some e) ≡ true) ↔ (as_key_error e ≡ some 0)
unfolding is_unknown
is_unknown_iff e = ground arith

module _ {Key : Type 0} (known : KnownHosts Key) (hostname : Text) (key : Key) where
  abbrev pub entry : Text
  entry = known.line hostname key ++ 10 ∷ []

  -- A key that is appended stands behind what the file held.
  append_known_host_ok :
      (d : Disk) {u : Unit {0}}
      → (append_known_host known hostname key d).0 ≡ ok u
      → (text : Text) × (d.content ≡ some text)
        × ((append_known_host known hostname key d).1.content ≡ some (text ++ entry))
  unfolding append_known_host open_append write_string
  append_known_host_ok d h =
      let ps : List Piece = lit "open known_hosts for append" ∷ [] in
      let ws : List Piece = lit "append known host " ∷ str hostname ∷ [] in
      let (u, opened, go) =
        >>=-eq-ok (wrapping ps open_append) (λ u. wrapping ws (write_string entry)) d h in
      let (f, ran) = operation_ok untouched _ d (wrap_error-ok ps _ opened) in
      let (text, held) =
        exists-ok d.content (sym (ap (λ r. r.0) ran) ∙ wrap_error-ok ps _ opened) in
      let after = (open_append d).1 in
      let (g, wrote) =
        operation_ok _ _ after
          (wrap_error-ok ws (write_string entry after).0 (sym (ap (λ r. r.0) go) ∙ h)) in
      (
        text,
        held,
        ap (λ r. r.1.content) go
            ∙ ap (λ r. r.1.content) wrote
            ∙ ap (λ r. add_text entry r.1.content) ran
            ∙ ap (add_text entry) held,
      )

  learn_ok :
      (d : Disk) {check : Check Key}
      → (learn known hostname key d).0 ≡ ok check
      → (text : Text) × (d.content ≡ some text)
        × ((learn known hostname key d).1.content ≡ some (text ++ entry))
        × (known.load (text ++ entry) ≡ ok check)
  unfolding learn new_check
  learn_ok d h =
      let ps : List Piece = lit "reload known_hosts after learning " ∷ str hostname ∷ [] in
      let (u, appended, go) =
        >>=-eq-ok (append_known_host known hostname key) (λ u. wrapping ps (new_check known)) d h in
      let (text, held, now) = append_known_host_ok d appended in
      let after = (append_known_host known hostname key d).1 in
      let loaded = wrap_error-ok ps (new_check known after).0 (sym (ap (λ r. r.0) go) ∙ h) in
      let (f, ran) = operation_ok untouched _ after loaded in
      (
        text,
        held,
        ap (λ r. r.1.content) go ∙ ap (λ r. r.1.content) ran ∙ now,
        sym (ap (load_content known) now) ∙ sym (ap (λ r. r.0) ran) ∙ loaded,
      )

  -- A call that accepts the key: the current check knows it, and nothing changes; or the host was
  -- not known, the file has the line of the key behind what it held, and the current check is that
  -- of the new file.
  abbrev pub Accepts : Text → Check Key → Disk → (Option Error × Check Key) × Disk → Type 0
  Accepts remote current d r =
      (r.0.0 ≡ none)
      × (((current hostname remote key ≡ none) × (r.0.1 ≡ current) × (r.1 ≡ d))
          ⊎ (is_unknown (current hostname remote key) ≡ true)
            × (text : Text) × (d.content ≡ some text)
            × (r.1.content ≡ some (text ++ entry))
            × (known.load (text ++ entry) ≡ ok r.0.1))

  -- A call that refuses the key leaves the current check alone.
  abbrev pub Refuses : Check Key → (Option Error × Check Key) × Disk → Type 0
  Refuses current r = ((e : Error) × (r.0.0 ≡ some e)) × (r.0.1 ≡ current)

  by_want_lem :
      (remote : Text) (current : Check Key) (d : Disk) (e : Error) (want : Option ℕ)
      → current hostname remote key ≡ some e
      → as_key_error e ≡ want
      → let r = by_want known hostname key current e want d in
        Accepts remote current d r ⊎ Refuses current r
  unfolding by_want
  by_want_lem remote current d e none h w = inr ((e, refl), refl)
  by_want_lem remote current d e (some (suc n)) h w = inr ((_, refl), refl)
  by_want_lem remote current d e (some zero) h w =
      elim (Result-cases (learn known hostname key d).0) [
        | inl (check, l) ↦
            let (text, held, now, loaded) = learn_ok d l in
            rw l (inl (refl, inr (rw h ((is_unknown_iff e).1 w), text, held, now, loaded)))
        | inr (x, l) ↦ rw l (inr ((x, refl), refl))
      ]

  by_answer_lem :
      (remote : Text) (current : Check Key) (d : Disk) (answer : Option Error)
      → current hostname remote key ≡ answer
      → let r = by_answer known hostname key current answer d in
        Accepts remote current d r ⊎ Refuses current r
  unfolding by_answer
  by_answer_lem remote current d none h = inl (refl, inl (h, refl, refl))
  by_answer_lem remote current d (some e) h = by_want_lem remote current d e (as_key_error e) h refl

  -- Whatever fails, a call of the callback accepts the key or refuses it. If it accepts, the check
  -- knew the key, and nothing changed; or the host was unknown, and the file now holds the line of
  -- the key behind what it held, and the check is the one loaded from it. If it refuses, the check
  -- stays as it was.
  pub accept_new_lem :
      (remote : Text) (current : Check Key) (d : Disk)
      → let r = accept_new known hostname remote key current d in
        Accepts remote current d r ⊎ Refuses current r
  unfolding accept_new
  accept_new_lem remote current d =
      by_answer_lem remote current d (current hostname remote key) refl
