-- ===== src/Storage/Save/Loops.antt =====
-- The rows of the commands and of the hostmap entries that SavePollResult adds.
use native.Mathlib.Numerals.{unary_clauses}
use nebula_mnemosina.Prelude.{
  ℕ, suc, ◌+◌, String, List, [], ◌∷◌, append-nil, none, some, ◌≡◌, refl, sym, ap, ◌∙◌, arith,
}
use nebula_mnemosina.Text.{Text}
use nebula_mnemosina.Errors.{lit, quoted, number, Result, ok, err}
use nebula_mnemosina.Model.{Slice, CommandResult, HostmapEntry, PollResult}
use nebula_mnemosina.Db.{Session, Query, RawCommandPayload, HostmapRow, ◌>>=◌, ◌>>◌, wrapping}
use nebula_mnemosina.Db.Params.{InsertRawCommandPayloadParams, InsertHostmapEntryParams}
use nebula_mnemosina.Db.PollRuns.{
  raw_row, hostmap_row, insert_raw_command_payload, insert_hostmap_entry,
}
use nebula_mnemosina.Db.PollRuns.Laws.{checked_ok}
use nebula_mnemosina.Storage.Save.{
  Marshal, command_params, insert_commands, hostmap_params, with_cert, raw_of, marshalled,
  insert_hostmap_entries,
}
use nebula_mnemosina.Storage.Save.Rows.{Added, add, Adds, nothing, pure-Adds, first-Adds}

insert_raw_lem :
    (p : InsertRawCommandPayloadParams) (s : Session)
    → (insert_raw_command_payload p s).0 ≡ ok tt
    → Adds (insert_raw_command_payload p) s (record nothing { raw = raw_row s.next_payload p ∷ [] })
unfolding insert_raw_command_payload
insert_raw_lem p s h =
    let (faults, _, ran) = checked_ok _ _ s h in (faults, ran ∙ simp (append-nil, unary_clauses))

insert_hostmap_lem :
    (p : InsertHostmapEntryParams) (s : Session)
    → (insert_hostmap_entry p s).0 ≡ ok tt
    → Adds (insert_hostmap_entry p) s (record nothing { hostmap = hostmap_row p ∷ [] })
unfolding insert_hostmap_entry
insert_hostmap_lem p s h =
    let (faults, _, ran) = checked_ok _ _ s h in (faults, ran ∙ simp (append-nil, unary_clauses))

module _ (run_id : ℕ) (result : PollResult) where
  -- One row for each command, with consecutive ids.
  abbrev pub command_rows : ℕ → List CommandResult → List RawCommandPayload
  command_rows next [] = []
  command_rows next (c ∷ cs) =
      raw_row next (command_params run_id result c) ∷ command_rows (next + 1) cs

  pub insert_commands_lem :
      (cs : List CommandResult) (s : Session)
      → (insert_commands run_id result cs s).0 ≡ ok tt
      → Adds
          (insert_commands run_id result cs)
          s
          (record nothing { raw = command_rows s.next_payload cs })
  unfolding insert_commands
  insert_commands_lem [] s h = pure-Adds s
  insert_commands_lem (c ∷ cs) s h =
      let p = command_params run_id result c in
      let first : Added = record nothing { raw = raw_row s.next_payload p ∷ [] } in
      first-Adds (lit "insert raw command " ∷ quoted c.command ∷ []) (insert_raw_command_payload p)
        (insert_commands run_id result cs) s first
        (record nothing { raw = command_rows (s.next_payload + 1) cs }) (insert_raw_lem p s)
        (λ f. insert_commands_lem cs (add first f s)) h

  -- The bytes kept of an entry: its own, or what json.Marshal makes of it.
  abbrev raw_text : Result Text → Slice ℕ
  raw_text (ok encoded) = some encoded
  raw_text (err e) = none

  abbrev pub raw_bytes : Marshal → HostmapEntry → Slice ℕ → Slice ℕ
  raw_bytes marshal entry none = raw_text (marshal entry)
  raw_bytes marshal entry (some []) = raw_text (marshal entry)
  raw_bytes marshal entry (some (c ∷ raw)) = some (c ∷ raw)

  marshalled_lem :
      (source : String) (r : Result Text) (k : Slice ℕ → Query (Unit {0})) (s : Session)
      → ((marshalled source r >>= k) s).0 ≡ ok tt
      → (marshalled source r >>= k) s ≡ k (raw_text r) s
  unfolding marshalled
  marshalled_lem source (ok encoded) k s h = refl
  marshalled_lem source (err e) k s h = absurd (ground arith)

  raw_of_lem :
      (marshal : Marshal) (source : String) (entry : HostmapEntry) (raw : Slice ℕ)
      (k : Slice ℕ → Query (Unit {0})) (s : Session)
      → ((raw_of marshal source entry raw >>= k) s).0 ≡ ok tt
      → (raw_of marshal source entry raw >>= k) s ≡ k (raw_bytes marshal entry raw) s
  unfolding raw_of
  raw_of_lem marshal source entry none k s h = marshalled_lem source (marshal entry) k s h
  raw_of_lem marshal source entry (some []) k s h = marshalled_lem source (marshal entry) k s h
  raw_of_lem marshal source entry (some (c ∷ raw)) k s h = refl

  -- One row for each entry, indexed from `i`.
  abbrev pub entry_params : Marshal → String → ℕ → HostmapEntry → InsertHostmapEntryParams
  entry_params marshal source i entry =
      with_cert entry.cert
        (hostmap_params run_id result source i entry (raw_bytes marshal entry entry.raw))

  abbrev pub hostmap_rows : Marshal → String → ℕ → List HostmapEntry → List HostmapRow
  hostmap_rows marshal source i [] = []
  hostmap_rows marshal source i (entry ∷ entries) =
      hostmap_row (entry_params marshal source i entry)
      ∷ hostmap_rows marshal source (suc i) entries

  pub insert_hostmap_entries_lem :
      (marshal : Marshal) (source : String) (i : ℕ) (entries : List HostmapEntry) (s : Session)
      → (insert_hostmap_entries marshal run_id result source i entries s).0 ≡ ok tt
      → Adds
          (insert_hostmap_entries marshal run_id result source i entries)
          s
          (record nothing { hostmap = hostmap_rows marshal source i entries })
  unfolding insert_hostmap_entries
  insert_hostmap_entries_lem marshal source i [] s h = pure-Adds s
  insert_hostmap_entries_lem marshal source i (entry ∷ entries) s h =
      let p = entry_params marshal source i entry in
      let first : Added = record nothing { hostmap = hostmap_row p ∷ [] } in
      let go =
        raw_of_lem marshal source entry entry.raw
          (λ raw.
            wrapping (lit "insert " ∷ lit source ∷ lit " entry " ∷ number i ∷ []) (
              insert_hostmap_entry
                (with_cert entry.cert (hostmap_params run_id result source i entry raw)))
            >> insert_hostmap_entries marshal run_id result source (suc i) entries)
          s h in
      let (faults, ran) =
        first-Adds (lit "insert " ∷ lit source ∷ lit " entry " ∷ number i ∷ [])
          (insert_hostmap_entry p)
          (insert_hostmap_entries marshal run_id result source (suc i) entries) s first
          (record nothing { hostmap = hostmap_rows marshal source (suc i) entries })
          (insert_hostmap_lem p s)
          (λ f. insert_hostmap_entries_lem marshal source (suc i) entries (add first f s))
          (sym (ap (λ r. r.0) go) ∙ h) in
      (faults, go ∙ ran)
