-- ===== src/Storage/Save/References.antt =====
-- SavePollResult of internal/storage/storage.go and the keys of the tables.
use nebula_mnemosina.Prelude.{
  ℕ, suc, ◌+◌, String, true, false, ◌||◌, List, [], ◌∷◌, ◌++◌, Option, none, some, ◌==◌, ◌≡◌, inl,
  inr, refl, sym, ◌∙◌, ap, subst, arith, Bool-cases,
}
use nebula_mnemosina.Text.{Text, is_empty}
use nebula_mnemosina.Model.{
  Certificate, PollResult, CommandResult, HostmapEntry, LighthouseAddrmapEntry, LighthouseAddrEntry,
}
use nebula_mnemosina.Db.{PollRun, Tables, Session}
use nebula_mnemosina.Db.Params.{CompletePollRunParams, InsertHostmapEntryParams}
use nebula_mnemosina.Db.Select.{count_if, has_key}
use nebula_mnemosina.Db.Select.All.{All, All-imp, All-append}
use nebula_mnemosina.Db.PollRuns.{has_run, completed, new_run}
use nebula_mnemosina.Db.Select.Keys.{HasKeys, count_if-append}
use nebula_mnemosina.Db.Retention.{run_id}
use nebula_mnemosina.Storage.Save.{
  Marshal, command_params, addrmap_params, empty_addrmap_params, hostmap_params, complete_params,
  with_cert, save_poll_result,
}
use nebula_mnemosina.Storage.Save.Loops.{command_rows, hostmap_rows, raw_bytes}
use nebula_mnemosina.Storage.Save.Reporters.{reporter_rows, entry_rows, addrmap_rows, relay_rows}
use nebula_mnemosina.Storage.Save.Body.{create_params, finished_run, saved_tables}
use nebula_mnemosina.Storage.Save.Exact.{save_poll_result_exact}
use nebula_mnemosina.Storage.Expire.References.{IsReferring}

has_key-append :
    (k : ℕ) (runs more : List PollRun)
    → has_key run_id k (runs ++ more) ≡ (has_key run_id k runs || has_key run_id k more)
unfolding has_key
has_key-append k [] more = refl
has_key-append k (r ∷ runs) more = ground (arith, has_key-append k runs more)

-- No run has an id that is not taken.
count_fresh :
    (id : ℕ) (runs : List PollRun) → has_run id runs ≡ false → count_if (λ r. r.id == id) runs ≡ 0
unfolding has_run count_if
count_fresh id [] h = refl
count_fresh id (r ∷ runs) h = ground (arith, count_fresh id runs)

with_cert_run :
    (cert : Option Certificate) (p : InsertHostmapEntryParams)
    → (with_cert cert p).poll_run_id ≡ p.poll_run_id
unfolding with_cert
with_cert_run none p = refl
with_cert_run (some cert) p = refl

module _ (run_id' : ℕ) (result : PollResult) where
  commands_of :
      (next : ℕ) (cs : List CommandResult)
      → All (λ c. c.poll_run_id ≡ run_id') (command_rows run_id' result next cs)
  unfolding command_params
  commands_of next [] = tt
  commands_of next (c ∷ cs) = (refl, commands_of (next + 1) cs)

  hostmap_of :
      (marshal : Marshal) (source : String) (i : ℕ) (entries : List HostmapEntry)
      → All (λ c. c.poll_run_id ≡ run_id') (hostmap_rows run_id' result marshal source i entries)
  unfolding hostmap_params
  hostmap_of marshal source i [] = tt
  hostmap_of marshal source i (e ∷ entries) = (
    with_cert_run e.cert
        (hostmap_params run_id' result source i e (raw_bytes run_id' result marshal e e.raw)),
    hostmap_of marshal source (suc i) entries,
  )

  reporters_of :
      (entry : LighthouseAddrmapEntry) (addrs : List (Text × LighthouseAddrEntry))
      → All (λ c. c.poll_run_id ≡ run_id') (reporter_rows run_id' result entry addrs)
  unfolding addrmap_params
  reporters_of entry [] = tt
  reporters_of entry (a ∷ rest) = (refl, reporters_of entry rest)

  entry_of :
      (entry : LighthouseAddrmapEntry) (addrs : List (Text × LighthouseAddrEntry))
      → All (λ c. c.poll_run_id ≡ run_id') (entry_rows run_id' result entry addrs)
  unfolding empty_addrmap_params
  entry_of entry [] = (refl, tt)
  entry_of entry (a ∷ rest) = reporters_of entry (a ∷ rest)

  addrmap_of :
      (entries : List LighthouseAddrmapEntry)
      → All (λ c. c.poll_run_id ≡ run_id') (addrmap_rows run_id' result entries)
  addrmap_of [] = tt
  addrmap_of (entry ∷ entries) =
      All-append (λ c. c.poll_run_id ≡ run_id') (entry_rows run_id' result entry entry.addrs)
        (addrmap_rows run_id' result entries) (entry_of entry entry.addrs) (addrmap_of entries)

  relays_of : All (λ c. c.poll_run_id ≡ run_id') (relay_rows run_id' result)
  relays_of = elim (Bool-cases (is_empty result.relays)) [
    | inl e ↦ rw e tt
    | inr e ↦ rw e (refl, tt)
  ]

completed_id : (p : CompletePollRunParams) (r : PollRun) → (completed p r).id ≡ r.id
completed_id p r = elim (Bool-cases (r.id == p.id)) [ inl e ↦ rw e refl | inr e ↦ rw e refl ]

-- A run with a new id behind the others.
module _ (runs : List PollRun) (run : PollRun) (id : ℕ) (same : run.id ≡ id) where
  Found : ℕ → Type 0
  Found k = has_key run_id k (runs ++ run ∷ []) ≡ true

  Found-old : (k : ℕ) → has_key run_id k runs ≡ true → Found k
  unfolding Found
  Found-old k h = has_key-append k runs (run ∷ []) ∙ ap (λ b. b || has_key run_id k (run ∷ [])) h

  Found-new : (k : ℕ) → k ≡ id → Found k
  unfolding Found has_key
  Found-new k e = has_key-append k runs (run ∷ []) ∙ ground (arith, e, same)

  rows_found :
      {A : Type 0} (ref : A → ℕ) (old new : List A)
      → All (λ c. has_key run_id (ref c) runs ≡ true) old
      → All (λ c. ref c ≡ id) new
      → All (λ c. has_key run_id (ref c) (runs ++ run ∷ []) ≡ true) (old ++ new)
  unfolding Found
  rows_found ref old new h k =
      All-append (λ c. has_key run_id (ref c) (runs ++ run ∷ []) ≡ true) old new
        (All-imp (λ c. Found-old (ref c)) old h) (All-imp (λ c. Found-new (ref c)) new k)

  run-HasKeys : has_run id runs ≡ false → HasKeys run_id runs → HasKeys run_id (runs ++ run ∷ [])
  run-HasKeys fresh keys k =
      let many = count_if-append (λ r. r.id == k) runs run in
      let before = keys k in
      let none_yet = count_fresh id runs fresh in
      elim (Bool-cases (run.id == k)) [
        | inl e ↦
            let at : k ≡ id = ground (arith, e, same) in
            let zero_count = ap (λ k. count_if (λ r. r.id == k) runs) at ∙ none_yet in
            ground (arith, many, e, zero_count)
        | inr e ↦ ground (arith, many, e, before)
      ]

-- The primary and the foreign keys of the tables.
abbrev pub AreKeyed : Tables → Type 0
AreKeyed t = HasKeys run_id t.poll_runs × IsReferring t

module _ (marshal : Marshal) (result : PollResult) (s : Session) where
  saved_tables-AreKeyed :
      has_run s.next_run s.tables.poll_runs ≡ false
      → AreKeyed s.tables
      → AreKeyed (saved_tables marshal result s)
  saved_tables-AreKeyed fresh (keys, (raw, hostmap, addrmap, relays)) =
      let id = s.next_run in
      let run = finished_run marshal result id in
      let same : run.id ≡ id =
        completed_id (complete_params id result) (new_run id (create_params marshal result)) in
      (
        run-HasKeys s.tables.poll_runs run id same fresh keys,
        (
          rows_found s.tables.poll_runs run id same (λ c. c.poll_run_id)
              s.tables.raw_command_payloads _ raw
              (commands_of id result s.next_payload result.commands),
          rows_found s.tables.poll_runs run id same (λ c. c.poll_run_id) s.tables.hostmap_entries _
              hostmap
              (All-append (λ c. c.poll_run_id ≡ id)
                (hostmap_rows id result marshal "hostmap" 0 result.hostmap)
                (hostmap_rows id result marshal "pending" 0 result.pending)
                (hostmap_of id result marshal "hostmap" 0 result.hostmap)
                (hostmap_of id result marshal "pending" 0 result.pending)),
          rows_found s.tables.poll_runs run id same (λ c. c.poll_run_id)
              s.tables.lighthouse_addrmap_entries _ addrmap (addrmap_of id result result.addrmap),
          rows_found s.tables.poll_runs run id same (λ c. c.poll_run_id) s.tables.relay_snapshots _
              relays (relays_of id result),
        ),
      )

  -- A save, whether it succeeds or fails, keeps run ids unique and every row of the other tables
  -- of a run that exists, if this held and no earlier run has the next id.
  pub save_poll_result-AreKeyed :
      has_run s.next_run s.tables.poll_runs ≡ false
      → AreKeyed s.tables
      → AreKeyed (save_poll_result marshal result s).1.tables
  save_poll_result-AreKeyed fresh keyed = elim (save_poll_result_exact marshal result s fresh) [
    | inl (_, e) ↦ subst AreKeyed (sym e) (saved_tables-AreKeyed fresh keyed)
    | inr (_, _, inl e) ↦ subst AreKeyed (sym e) keyed
    | inr (_, _, inr (_, e)) ↦ subst AreKeyed (sym e) (saved_tables-AreKeyed fresh keyed)
  ]
