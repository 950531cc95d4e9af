-- ===== src/Storage/Save/Total.antt =====
-- The loops of SavePollResult succeed: their rows break no constraint of the schema.
use nebula_mnemosina.Prelude.{
  ℕ, suc, String, true, false, List, [], ◌∷◌, Option, none, some, ◌≡◌, refl, sym, subst, inl, inr,
  Bool-cases,
}
use nebula_mnemosina.Text.{Text, is_empty}
use nebula_mnemosina.Time.{is_zero}
use nebula_mnemosina.Errors.{Piece, lit, str, quoted, number}
use nebula_mnemosina.Model.{
  Slice, CommandResult, Certificate, HostmapEntry, LighthouseAddrEntry, LighthouseAddrmapEntry,
  PollResult,
}
use nebula_mnemosina.Db.{Query, ◌>>=◌, ◌>>◌, wrapping}
use nebula_mnemosina.Db.Params.{InsertRelaySnapshotParams}
use nebula_mnemosina.Db.PollRuns.{
  given, is_source, hostmap_valid, addrmap_valid, insert_raw_command_payload, insert_hostmap_entry,
  insert_lighthouse_addrmap_entry, insert_relay_snapshot,
}
use nebula_mnemosina.Storage.{timestamptz}
use nebula_mnemosina.Storage.Save.{
  Marshal, command_params, insert_commands, hostmap_params, with_cert, raw_of,
  insert_hostmap_entries, empty_addrmap_params, addrmap_params, insert_reporters, insert_addrs,
  insert_lighthouse_addrmap, insert_relays,
}
use nebula_mnemosina.Storage.Save.Valid.{
  Safe, then-Safe, wrapping-Safe, first-Safe, pure-Safe, given-non_nil, insert_raw-Safe,
  insert_hostmap-Safe, insert_addrmap-Safe, insert_relay-Safe, AllStarted, AllKept, AllGiven,
  timestamptz-valid,
}

module _ (id : ℕ) (result : PollResult) (started : is_zero result.started_at ≡ false) where
  pub insert_commands-Safe :
      (cs : List CommandResult) → AllStarted cs → Safe id (insert_commands id result cs)
  unfolding insert_commands
  insert_commands-Safe [] _ = pure-Safe id
  insert_commands-Safe (c ∷ cs) (h, hs) =
      first-Safe id (lit "insert raw command " ∷ quoted c.command ∷ [])
        (insert_raw_command_payload (command_params id result c)) (insert_commands id result cs)
        (unfold command_params in
          insert_raw-Safe (command_params id result c) (timestamptz-valid c.started_at h))
        (insert_commands-Safe cs hs)

  hostmap_params-valid :
      (source : String) (i : ℕ) (e : HostmapEntry) (c : Option Certificate) (raw : Text)
      → is_source source ≡ true
      → hostmap_valid (with_cert c (hostmap_params id result source i e (some raw))) ≡ true
  unfolding hostmap_valid with_cert hostmap_params
  hostmap_params-valid source i e none raw k = rw (
    k,
    timestamptz-valid result.started_at started,
    given-non_nil e.vpn_addrs,
    given-non_nil e.remote_addrs,
    given-non_nil e.current_relays_to_me,
    given-non_nil e.current_relays_through_me,
  )
  hostmap_params-valid source i e (some c) raw k = rw (
    k,
    timestamptz-valid result.started_at started,
    given-non_nil e.vpn_addrs,
    given-non_nil e.remote_addrs,
    given-non_nil e.current_relays_to_me,
    given-non_nil e.current_relays_through_me,
    given-non_nil c.details.groups,
    given-non_nil c.details.networks,
    given-non_nil c.details.unsafe_networks,
  )

  hostmap_params-run :
      (source : String) (i : ℕ) (e : HostmapEntry) (c : Option Certificate) (raw : Slice ℕ)
      → (with_cert c (hostmap_params id result source i e raw)).poll_run_id ≡ id
  unfolding with_cert hostmap_params
  hostmap_params-run source i e none raw = refl
  hostmap_params-run source i e (some c) raw = refl

  module _ (marshal : Marshal) where
    raw_of_lem :
        (source : String) (e : HostmapEntry) (raw : Slice ℕ) (k : Slice ℕ → Query (Unit {0}))
        (c : ℕ) (cs : List ℕ)
        → raw ≡ some (c ∷ cs)
        → raw_of marshal source e raw >>= k ≡ k (some (c ∷ cs))
    unfolding raw_of
    raw_of_lem source e raw k c cs h = rw h refl

    pub insert_hostmap_entries-Safe :
        (source : String) (i : ℕ) (es : List HostmapEntry)
        → AllKept es
        → is_source source ≡ true
        → Safe id (insert_hostmap_entries marshal id result source i es)
    unfolding insert_hostmap_entries
    insert_hostmap_entries-Safe source i [] _ k = pure-Safe id
    insert_hostmap_entries-Safe source i (e ∷ es) ((c, cs, full), kept) k =
        let ps : List Piece = lit "insert " ∷ lit source ∷ lit " entry " ∷ number i ∷ [] in
        let more = insert_hostmap_entries marshal id result source (suc i) es in
        let x = c ∷ cs in
        let same =
          raw_of_lem source e e.raw
            (λ raw.
              wrapping ps
                (insert_hostmap_entry (with_cert e.cert (hostmap_params id result source i e raw)))
              >> more)
            c cs full in
        let p = with_cert e.cert (hostmap_params id result source i e (some x)) in
        subst (λ q. Safe id q) (sym same)
          (first-Safe id ps (insert_hostmap_entry p) more
            (subst (λ n. Safe n (insert_hostmap_entry p))
              (hostmap_params-run source i e e.cert (some x))
              (insert_hostmap-Safe p (hostmap_params-valid source i e e.cert x k)))
            (insert_hostmap_entries-Safe source (suc i) es kept k))

  insert_reporters-Safe :
      (e : LighthouseAddrmapEntry) (addrs : List (Text × LighthouseAddrEntry))
      → given e.raw ≡ true
      → Safe id (insert_reporters id result e addrs)
  unfolding insert_reporters
  insert_reporters-Safe e [] k = pure-Safe id
  insert_reporters-Safe e ((reporter, a) ∷ rest) k =
      first-Safe id
        (lit "insert lighthouse addrmap " ∷ str e.vpn_addr ∷ lit " reporter " ∷ str reporter ∷ [])
        (insert_lighthouse_addrmap_entry (addrmap_params id result e reporter a))
        (insert_reporters id result e rest)
        (unfold addrmap_params addrmap_valid in
          insert_addrmap-Safe (addrmap_params id result e reporter a) (
            rw (
              timestamptz-valid result.started_at started,
              given-non_nil a.learned,
              given-non_nil a.reported,
              given-non_nil a.relay,
              k,
            )))
        (insert_reporters-Safe e rest k)

  insert_addrs-Safe :
      (e : LighthouseAddrmapEntry) (addrs : List (Text × LighthouseAddrEntry))
      → given e.raw ≡ true
      → Safe id (insert_addrs id result e addrs)
  unfolding insert_addrs
  insert_addrs-Safe e [] k =
      wrapping-Safe id (lit "insert empty lighthouse addrmap " ∷ str e.vpn_addr ∷ [])
        (insert_lighthouse_addrmap_entry (empty_addrmap_params id result e))
        (unfold empty_addrmap_params addrmap_valid in
          insert_addrmap-Safe (empty_addrmap_params id result e)
            (rw (timestamptz-valid result.started_at started, k)))
  insert_addrs-Safe e (a ∷ rest) k = insert_reporters-Safe e (a ∷ rest) k

  pub insert_lighthouse_addrmap-Safe :
      (es : List LighthouseAddrmapEntry)
      → AllGiven es
      → Safe id (insert_lighthouse_addrmap id result es)
  unfolding insert_lighthouse_addrmap
  insert_lighthouse_addrmap-Safe [] _ = pure-Safe id
  insert_lighthouse_addrmap-Safe (e ∷ es) (k, ks) =
      then-Safe id (insert_addrs id result e e.addrs) (insert_lighthouse_addrmap id result es)
        (insert_addrs-Safe e e.addrs k) (insert_lighthouse_addrmap-Safe es ks)

  relay_params : InsertRelaySnapshotParams
  relay_params = record {
    poll_run_id = id;
    observed_at = timestamptz result.started_at;
    lighthouse_name = result.lighthouse.name;
    relays = some result.relays;
  }

  pub insert_relays-Safe : Safe id (insert_relays id result)
  unfolding insert_relays relay_params
  insert_relays-Safe = elim (Bool-cases (is_empty result.relays)) [
    | inl e ↦ rw e (pure-Safe id)
    | inr e ↦ rw e (
        wrapping-Safe id (lit "insert relay snapshot" ∷ []) (insert_relay_snapshot relay_params)
          (insert_relay-Safe relay_params (timestamptz-valid result.started_at started) refl))
  ]
