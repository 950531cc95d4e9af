-- ===== src/SshClient/HostKeys/Pinned.antt =====
-- The accept-new callback of internal/sshclient/client.go, over many calls.
use nebula_mnemosina.Prelude.{
  ℕ, zero, suc, Bool, true, false, not, List, [], ◌∷◌, ◌++◌, Option, none, some, ◌≡◌, ◌≢◌, inl, inr,
  refl, ap, ◌∙◌, arith, Bool-cases,
}
use nebula_mnemosina.Text.{Text}
use nebula_mnemosina.Errors.{Error, as_key_error, ok}
use nebula_mnemosina.SshClient.HostKeys.{
  Check, KnownHosts, Disk, learn, reloaded, by_want, by_answer, accept_new,
}
use nebula_mnemosina.SshClient.HostKeys.Answers.{is_unknown, is_unknown_iff, entry}
use nebula_mnemosina.SshClient.HostKeys.Runs.{
  ends_line, ends_line-append, IsSynced, file, learn_runs,
}

-- An answer that neither accepts nor says that the host is unknown.
unfoldable pub is_refusal : Option Error → Bool
is_refusal none = false
is_refusal (some e) = not (is_unknown (some e))

-- What the documentation of knownhosts says of a file with a new line for an unknown host: it is
-- valid, the key of the line is accepted for the host, every other key is refused for it, and
-- nothing changes for a host that was known. `Plain` holds of host names without wildcards,
-- markers or separators.
pub record AreKnownHosts {Key : Type 0} (known : KnownHosts Key) (Plain : Text → Type 0)
    : Type 0 where
  pub learned :
      (text : Text) (check : Check Key) (hostname remote : Text) (key : Key)
      → Plain hostname
      → ends_line text ≡ true
      → known.load text ≡ ok check
      → is_unknown (check hostname remote key) ≡ true
      → (check' : Check Key) × (known.load (text ++ entry known hostname key) ≡ ok check')
        × (check' hostname remote key ≡ none)
        × ((r : Text) (k : Key) → k ≢ key → is_refusal (check' hostname r k) ≡ true)
        × ((h r : Text) (k : Key) → is_unknown (check h r k) ≡ false → check' h r k ≡ check h r k)

-- A connection: the name it goes to, the remote address, and the key that the server shows.
pub record Call (Key : Type 0) : Type 0 where
  pub hostname : Text
  pub remote : Text
  pub key : Key

-- The state behind a sequence of calls of the callback.
unfoldable pub calls :
    {Key : Type 0} → KnownHosts Key → List (Call Key) → Check Key × Disk → Check Key × Disk
calls known [] st = st
calls known (c ∷ cs) st =
    let r = accept_new known c.hostname c.remote c.key st.0 st.1 in calls known cs (r.0.1, r.1)

module _ {Key : Type 0} (known : KnownHosts Key) (Plain : Text → Type 0)
    (laws : AreKnownHosts known Plain) where
  -- A call for a host that is known, one way or the other: its answer, and no change.
  kept :
      (hostname remote : Text) (key : Key) (current : Check Key) (d : Disk)
      → is_unknown (current hostname remote key) ≡ false
      → ((accept_new known hostname remote key current d).0.1 ≡ current)
        × ((accept_new known hostname remote key current d).1 ≡ d)
        × ((accept_new known hostname remote key current d).0.0 ≡ none
            → current hostname remote key ≡ none)
  unfolding accept_new by_answer by_want
  kept hostname remote key current d h = go (current hostname remote key) h
    where
      go_want :
          (e : Error) (want : Option ℕ)
          → as_key_error e ≡ want
          → is_unknown (some e) ≡ false
          → let r = by_want known hostname key current e want d in
            (r.0.1 ≡ current) × (r.1 ≡ d) × (r.0.0 ≡ none → ◌≡◌ {A = Option Error} (some e) none)
      go_want e none w u = (refl, refl, λ h. h)
      go_want e (some (suc n)) w u = (refl, refl, λ h. absurd (ground arith))
      go_want e (some zero) w u = absurd (ground (arith, is_unknown_iff e))

      go :
          (answer : Option Error)
          → is_unknown answer ≡ false
          → let r = by_answer known hostname key current answer d in
            (r.0.1 ≡ current) × (r.1 ≡ d) × (r.0.0 ≡ none → answer ≡ none)
      go none u = (refl, refl, λ h. h)
      go (some e) u = go_want e (as_key_error e) refl u

  unknown_learns :
      (hostname remote : Text) (key : Key) (current : Check Key) (d : Disk)
      → is_unknown (current hostname remote key) ≡ true
      → accept_new known hostname remote key current d
        ≡ (reloaded known current (learn known hostname key d).0, (learn known hostname key d).1)
  unfolding accept_new by_answer by_want
  unknown_learns hostname remote key current d h = go (current hostname remote key) h
    where
      go_want :
          (e : Error) (want : Option ℕ)
          → as_key_error e ≡ want
          → is_unknown (some e) ≡ true
          → by_want known hostname key current e want d ≡ (
            reloaded known current (learn known hostname key d).0,
            (learn known hostname key d).1,
          )
      go_want e none w u = absurd (ground (arith, is_unknown_iff e))
      go_want e (some (suc n)) w u = absurd (ground (arith, is_unknown_iff e))
      go_want e (some zero) w u = refl

      go :
          (answer : Option Error)
          → is_unknown answer ≡ true
          → by_answer known hostname key current answer d ≡ (
            reloaded known current (learn known hostname key d).0,
            (learn known hostname key d).1,
          )
      go none u = absurd (unfold is_unknown in ground arith)
      go (some e) u = go_want e (as_key_error e) refl u

  -- A call for a host that is not known accepts and learns the key.
  learns :
      (hostname remote : Text) (key : Key) (st : Check Key × Disk)
      → Plain hostname
      → IsSynced known st
      → is_unknown (st.0 hostname remote key) ≡ true
      → let r = accept_new known hostname remote key st.0 st.1 in
        IsSynced known (r.0.1, r.1)
        × (r.0.0 ≡ none)
        × (r.0.1 hostname remote key ≡ none)
        × ((a : Text) (k : Key) → k ≢ key → is_refusal (r.0.1 hostname a k) ≡ true)
        × ((h a : Text) (k : Key) → is_unknown (st.0 h a k) ≡ false → r.0.1 h a k ≡ st.0 h a k)
  learns hostname remote key (current, d) plain (nf, (text, held, whole, loaded)) u =
      let (check', loads, accepted, refused, others) =
        laws.learned text current hostname remote key plain whole loaded u in
      let (f, ran, nf') = learn_runs known hostname key text d.faults nf loads in
      let same : d ≡ file known text d.faults =
        ap (λ c. record { content = c; faults = d.faults }) held in
      let step : accept_new known hostname remote key current d
          ≡ ((none, check'), file known (text ++ entry known hostname key) f) =
        unknown_learns hostname remote key current d u
        ∙ ap
            (λ d. (
              reloaded known current (learn known hostname key d).0,
              (learn known hostname key d).1,
            ))
            same
        ∙ ap (λ r. (reloaded known current r.0, r.1)) ran in
      rw step (
        (nf', (_, refl, ends_line-append text (known.line hostname key), loads)),
        refl,
        accepted,
        refused,
        others,
      )

  abbrev pub ArePlain : List (Call Key) → Type 0
  ArePlain [] = Unit
  ArePlain (c ∷ cs) = Plain c.hostname × ArePlain cs

  refusal-known : (answer : Option Error) → is_refusal answer ≡ true → is_unknown answer ≡ false
  unfolding is_refusal
  refusal-known none h = absurd (ground arith)
  refusal-known (some e) h = ground arith

  refusal_not_none : {answer : Option Error} → answer ≡ none → is_refusal answer ≡ true → ⊥
  unfolding is_refusal
  refusal_not_none {answer} e h = absurd (ground (arith, ap is_refusal e))

  none-known : {answer : Option Error} → answer ≡ none → is_unknown answer ≡ false
  unfolding is_unknown
  none-known h = rw h refl

  module _ (hostname remote : Text) (key : Key) where
    abbrev pub IsPinned : Check Key × Disk → Type 0
    IsPinned st =
        IsSynced known st
        × (st.0 hostname remote key ≡ none)
        × ((a : Text) (k : Key) → k ≢ key → is_refusal (st.0 hostname a k) ≡ true)

    call-IsPinned :
        (c : Call Key) (st : Check Key × Disk)
        → Plain c.hostname
        → IsPinned st
        → let r = accept_new known c.hostname c.remote c.key st.0 st.1 in IsPinned (r.0.1, r.1)
    call-IsPinned c st plain (synced, accepted, refused) =
        elim (Bool-cases (is_unknown (st.0 c.hostname c.remote c.key))) [
          | inl u ↦
              let (synced', _, _, _, others) = learns c.hostname c.remote c.key st plain synced u in
              (
                synced',
                others hostname remote key (none-known accepted) ∙ accepted,
                λ a k ne.
                    let r = refused a k ne in
                    ap is_refusal (others hostname a k (refusal-known _ r)) ∙ r,
              )
          | inr u ↦
              let (same, disk, _) = kept c.hostname c.remote c.key st.0 st.1 u in
              rw (same, disk) (synced, accepted, refused)
        ]

    calls-IsPinned :
        (cs : List (Call Key)) (st : Check Key × Disk)
        → ArePlain cs
        → IsPinned st
        → IsPinned (calls known cs st)
    unfolding calls
    calls-IsPinned [] st plain h = h
    calls-IsPinned (c ∷ cs) st (p, ps) h = calls-IsPinned cs _ ps (call-IsPinned c st p h)

    accepts_known :
        (current : Check Key) (d : Disk)
        → current hostname remote key ≡ none
        → (accept_new known hostname remote key current d).0.0 ≡ none
    unfolding accept_new by_answer
    accepts_known current d h = rw h refl

    -- The first key that an unknown host shows is accepted and stays the only one: whatever
    -- connections follow, that key is accepted from that host and remote address, and any other is
    -- refused from that host. The check is that of the file, which ends with a whole line, no
    -- operation on the file fails, the host names are plain, and knownhosts reads a file with a
    -- new line as documented.
    pub first_key_pinned :
        (st : Check Key × Disk) (cs : List (Call Key))
        → IsSynced known st
        → Plain hostname
        → ArePlain cs
        → is_unknown (st.0 hostname remote key) ≡ true
        → let first = accept_new known hostname remote key st.0 st.1 in
          let later = calls known cs (first.0.1, first.1) in
          (first.0.0 ≡ none)
          × ((accept_new known hostname remote key later.0 later.1).0.0 ≡ none)
          × ((a : Text) (k : Key)
              → k ≢ key
              → (accept_new known hostname a k later.0 later.1).0.0 ≢ none)
    first_key_pinned st cs synced plain plains u =
        let (synced', answer, accepted, refused, _) =
          learns hostname remote key st plain synced u in
        let (_, accepts, refuses) = calls-IsPinned cs _ plains (synced', accepted, refused) in
        (
          answer,
          accepts_known _ _ accepts,
          λ a k ne h.
              let r = refuses a k ne in
              let (_, _, back) = kept hostname a k _ _ (refusal-known _ r) in
              refusal_not_none (back h) r,
        )
