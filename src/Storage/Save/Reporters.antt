-- ===== src/Storage/Save/Reporters.antt =====
-- The rows of the lighthouse address map and of the relays that SavePollResult adds.
use native.Mathlib.Numerals.{unary_clauses}
use nebula_mnemosina.Prelude.{
  ℕ, List, [], ◌∷◌, ◌++◌, append-nil, some, ◌≡◌, ◌∙◌, if◌then◌else◌, inl, inr, Bool-cases,
}
use nebula_mnemosina.Text.{Text, is_empty}
use nebula_mnemosina.Errors.{lit, str, ok}
use nebula_mnemosina.Model.{LighthouseAddrEntry, LighthouseAddrmapEntry, PollResult}
use nebula_mnemosina.Db.{Session, AddrmapRow, RelaySnapshot}
use nebula_mnemosina.Db.Params.{InsertLighthouseAddrmapEntryParams, InsertRelaySnapshotParams}
use nebula_mnemosina.Db.PollRuns.{
  addrmap_row, relay_row, insert_lighthouse_addrmap_entry, insert_relay_snapshot,
}
use nebula_mnemosina.Db.PollRuns.Laws.{checked_ok}
use nebula_mnemosina.Storage.{timestamptz}
use nebula_mnemosina.Storage.Save.{
  empty_addrmap_params, addrmap_params, insert_reporters, insert_addrs, insert_lighthouse_addrmap,
  insert_relays,
}
use nebula_mnemosina.Storage.Save.Rows.{
  Added, add, Adds, nothing, pure-Adds, then-Adds, first-Adds, wrapping-Adds,
}

insert_addrmap_lem :
    (p : InsertLighthouseAddrmapEntryParams) (s : Session)
    → (insert_lighthouse_addrmap_entry p s).0 ≡ ok tt
    → Adds (insert_lighthouse_addrmap_entry p) s (record nothing { addrmap = addrmap_row p ∷ [] })
unfolding insert_lighthouse_addrmap_entry
insert_addrmap_lem p s h =
    let (faults, _, ran) = checked_ok _ _ s h in (faults, ran ∙ simp (append-nil, unary_clauses))

insert_relay_lem :
    (p : InsertRelaySnapshotParams) (s : Session)
    → (insert_relay_snapshot p s).0 ≡ ok tt
    → Adds (insert_relay_snapshot p) s (record nothing { relays = relay_row p ∷ [] })
unfolding insert_relay_snapshot
insert_relay_lem p s h =
    let (faults, _, ran) = checked_ok _ _ s h in (faults, ran ∙ simp (append-nil, unary_clauses))

module _ (run_id : ℕ) (result : PollResult) where
  -- One row for each reporter.
  abbrev pub reporter_rows :
      LighthouseAddrmapEntry → List (Text × LighthouseAddrEntry) → List AddrmapRow
  reporter_rows entry [] = []
  reporter_rows entry ((reporter, addrs) ∷ rest) =
      addrmap_row (addrmap_params run_id result entry reporter addrs) ∷ reporter_rows entry rest

  -- An entry with no reporter has one row without.
  abbrev pub entry_rows :
      LighthouseAddrmapEntry → List (Text × LighthouseAddrEntry) → List AddrmapRow
  entry_rows entry [] = addrmap_row (empty_addrmap_params run_id result entry) ∷ []
  entry_rows entry (a ∷ rest) = reporter_rows entry (a ∷ rest)

  abbrev pub addrmap_rows : List LighthouseAddrmapEntry → List AddrmapRow
  addrmap_rows [] = []
  addrmap_rows (entry ∷ entries) = entry_rows entry entry.addrs ++ addrmap_rows entries

  insert_reporters_lem :
      (entry : LighthouseAddrmapEntry) (addrs : List (Text × LighthouseAddrEntry)) (s : Session)
      → (insert_reporters run_id result entry addrs s).0 ≡ ok tt
      → Adds
          (insert_reporters run_id result entry addrs)
          s
          (record nothing { addrmap = reporter_rows entry addrs })
  unfolding insert_reporters
  insert_reporters_lem entry [] s h = pure-Adds s
  insert_reporters_lem entry ((reporter, addrs) ∷ rest) s h =
      let p = addrmap_params run_id result entry reporter addrs in
      let first : Added = record nothing { addrmap = addrmap_row p ∷ [] } in
      first-Adds
        (lit "insert lighthouse addrmap "
          ∷ str entry.vpn_addr
          ∷ lit " reporter "
          ∷ str reporter
          ∷ [])
        (insert_lighthouse_addrmap_entry p) (insert_reporters run_id result entry rest) s first
        (record nothing { addrmap = reporter_rows entry rest }) (insert_addrmap_lem p s)
        (λ f. insert_reporters_lem entry rest (add first f s)) h

  insert_addrs_lem :
      (entry : LighthouseAddrmapEntry) (addrs : List (Text × LighthouseAddrEntry)) (s : Session)
      → (insert_addrs run_id result entry addrs s).0 ≡ ok tt
      → Adds
          (insert_addrs run_id result entry addrs)
          s
          (record nothing { addrmap = entry_rows entry addrs })
  unfolding insert_addrs
  insert_addrs_lem entry [] s h =
      let p = empty_addrmap_params run_id result entry in
      wrapping-Adds (lit "insert empty lighthouse addrmap " ∷ str entry.vpn_addr ∷ [])
        (insert_lighthouse_addrmap_entry p) s (record nothing { addrmap = addrmap_row p ∷ [] })
        (insert_addrmap_lem p s) h
  insert_addrs_lem entry (a ∷ rest) s h = insert_reporters_lem entry (a ∷ rest) s h

  pub insert_lighthouse_addrmap_lem :
      (entries : List LighthouseAddrmapEntry) (s : Session)
      → (insert_lighthouse_addrmap run_id result entries s).0 ≡ ok tt
      → Adds
          (insert_lighthouse_addrmap run_id result entries)
          s
          (record nothing { addrmap = addrmap_rows entries })
  unfolding insert_lighthouse_addrmap
  insert_lighthouse_addrmap_lem [] s h = pure-Adds s
  insert_lighthouse_addrmap_lem (entry ∷ entries) s h =
      let first : Added = record nothing { addrmap = entry_rows entry entry.addrs } in
      then-Adds (insert_addrs run_id result entry entry.addrs)
        (insert_lighthouse_addrmap run_id result entries) s first
        (record nothing { addrmap = addrmap_rows entries }) (insert_addrs_lem entry entry.addrs s)
        (λ f. insert_lighthouse_addrmap_lem entries (add first f s)) h

  abbrev pub relay_params : InsertRelaySnapshotParams
  relay_params = record {
    poll_run_id = run_id;
    observed_at = timestamptz result.started_at;
    lighthouse_name = result.lighthouse.name;
    relays = some result.relays;
  }

  -- One row if there is an output.
  abbrev pub relay_rows : List RelaySnapshot
  relay_rows = if is_empty result.relays then [] else relay_row relay_params ∷ []

  pub insert_relays_lem :
      (s : Session)
      → (insert_relays run_id result s).0 ≡ ok tt
      → Adds (insert_relays run_id result) s (record nothing { relays = relay_rows })
  unfolding insert_relays
  insert_relays_lem s h = elim (Bool-cases (is_empty result.relays)) [
    | inl e ↦ rw e (pure-Adds s)
    | inr e ↦ rw e (
        wrapping-Adds (lit "insert relay snapshot" ∷ []) (insert_relay_snapshot relay_params) s
          (record nothing { relays = relay_row relay_params ∷ [] })
          (insert_relay_lem relay_params s) (rw e at h))
  ]
