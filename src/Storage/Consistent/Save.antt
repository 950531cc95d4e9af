-- ===== src/Storage/Consistent/Save.antt =====
-- SavePollResult and the deletions of internal/storage/storage.go, on consistent tables.
use nebula_mnemosina.Prelude.{
  ap, sym, Option, subst, ℕ, suc, String, ◌<◌, List, [], ◌∷◌, none, some, inl, inr, arith,
  Bool-cases,
}
use nebula_mnemosina.Text.{Text, is_empty}
use nebula_mnemosina.Time.{Time}
use nebula_mnemosina.Errors.{Result, ok, err}
use nebula_mnemosina.Model.{
  Slice, CommandResult, HostmapEntry, LighthouseAddrEntry, LighthouseAddrmapEntry, PollResult,
}
use nebula_mnemosina.Db.{Fault, statement_cases, Session, Query}
use nebula_mnemosina.Db.Select.All.{All-imp}
use nebula_mnemosina.Storage.Save.{
  Marshal, insert_commands, marshalled, raw_of, insert_hostmap_entries, insert_reporters,
  insert_addrs, insert_lighthouse_addrmap, insert_relays, save_body, in_transaction,
  commit_or_rollback, save_poll_result,
}
use nebula_mnemosina.Storage.Expire.{
  delete_listed, delete_expired_poll_runs, delete_expired_payloads,
}
use nebula_mnemosina.Storage.Consistent.{
  IsConsistent, Follows, Keeps, pure-Keeps, fail-Keeps, wrapping-Keeps, >>=-Keeps, >>-Keeps,
  statement-Keeps,
}
use nebula_mnemosina.Storage.Consistent.Statements.{
  create_poll_run-Keeps, complete_poll_run-Keeps, insert_raw_command_payload-Keeps,
  insert_hostmap_entry-Keeps, insert_lighthouse_addrmap_entry-Keeps, insert_relay_snapshot-Keeps,
  list_expired_poll_run_ids-Keeps, delete_poll_runs-Keeps,
  delete_expired_raw_command_payloads-Keeps,
}

module _ (run_id : ℕ) (result : PollResult) where
  insert_commands-Keeps : (cs : List CommandResult) → Keeps (insert_commands run_id result cs)
  unfolding insert_commands
  insert_commands-Keeps [] = pure-Keeps tt
  insert_commands-Keeps (c ∷ cs) =
      >>-Keeps _ _ (wrapping-Keeps _ _ (insert_raw_command_payload-Keeps _))
        (insert_commands-Keeps cs)

  marshalled-Keeps : (source : String) (r : Result Text) → Keeps (marshalled source r)
  unfolding marshalled
  marshalled-Keeps source (ok encoded) = pure-Keeps (some encoded)
  marshalled-Keeps source (err e) = wrapping-Keeps _ _ (fail-Keeps e)

  raw_of-Keeps :
      (marshal : Marshal) (source : String) (entry : HostmapEntry) (raw : Slice ℕ)
      → Keeps (raw_of marshal source entry raw)
  unfolding raw_of
  raw_of-Keeps marshal source entry none = marshalled-Keeps source (marshal entry)
  raw_of-Keeps marshal source entry (some []) = marshalled-Keeps source (marshal entry)
  raw_of-Keeps marshal source entry (some (c ∷ raw)) = pure-Keeps (some (c ∷ raw))

  insert_hostmap_entries-Keeps :
      (marshal : Marshal) (source : String) (i : ℕ) (entries : List HostmapEntry)
      → Keeps (insert_hostmap_entries marshal run_id result source i entries)
  unfolding insert_hostmap_entries
  insert_hostmap_entries-Keeps marshal source i [] = pure-Keeps tt
  insert_hostmap_entries-Keeps marshal source i (e ∷ entries) =
      >>=-Keeps _ _ (raw_of-Keeps marshal source e e.raw) (λ raw.
        >>-Keeps _ _ (wrapping-Keeps _ _ (insert_hostmap_entry-Keeps _))
          (insert_hostmap_entries-Keeps marshal source (suc i) entries))

  insert_reporters-Keeps :
      (entry : LighthouseAddrmapEntry) (addrs : List (Text × LighthouseAddrEntry))
      → Keeps (insert_reporters run_id result entry addrs)
  unfolding insert_reporters
  insert_reporters-Keeps entry [] = pure-Keeps tt
  insert_reporters-Keeps entry (a ∷ rest) =
      >>-Keeps _ _ (wrapping-Keeps _ _ (insert_lighthouse_addrmap_entry-Keeps _))
        (insert_reporters-Keeps entry rest)

  insert_addrs-Keeps :
      (entry : LighthouseAddrmapEntry) (addrs : List (Text × LighthouseAddrEntry))
      → Keeps (insert_addrs run_id result entry addrs)
  unfolding insert_addrs
  insert_addrs-Keeps entry [] = wrapping-Keeps _ _ (insert_lighthouse_addrmap_entry-Keeps _)
  insert_addrs-Keeps entry (a ∷ rest) = insert_reporters-Keeps entry (a ∷ rest)

  insert_lighthouse_addrmap-Keeps :
      (entries : List LighthouseAddrmapEntry)
      → Keeps (insert_lighthouse_addrmap run_id result entries)
  unfolding insert_lighthouse_addrmap
  insert_lighthouse_addrmap-Keeps [] = pure-Keeps tt
  insert_lighthouse_addrmap-Keeps (entry ∷ entries) =
      >>-Keeps _ _ (insert_addrs-Keeps entry entry.addrs) (insert_lighthouse_addrmap-Keeps entries)

  insert_relays-Keeps : Keeps (insert_relays run_id result)
  unfolding insert_relays
  insert_relays-Keeps = elim (Bool-cases (is_empty result.relays)) [
    | inl e ↦ rw e (pure-Keeps tt)
    | inr e ↦ rw e (wrapping-Keeps _ _ (insert_relay_snapshot-Keeps _))
  ]

save_body-Keeps : (marshal : Marshal) (result : PollResult) → Keeps (save_body marshal result)
unfolding save_body
save_body-Keeps marshal result = >>=-Keeps _ _ (wrapping-Keeps _ _ (create_poll_run-Keeps _)) (λ id.
    >>-Keeps _ _ (insert_commands-Keeps id result result.commands) (
      >>-Keeps _ _ (insert_hostmap_entries-Keeps id result marshal "hostmap" 0 result.hostmap) (
        >>-Keeps _ _ (insert_hostmap_entries-Keeps id result marshal "pending" 0 result.pending) (
          >>-Keeps _ _ (insert_lighthouse_addrmap-Keeps id result result.addrmap) (
            >>-Keeps _ _ (insert_relays-Keeps id result)
              (wrapping-Keeps _ _ (complete_poll_run-Keeps _)))))))

in_transaction-Keeps : (body : Query (Unit {0})) → Keeps body → Keeps (in_transaction body)
unfolding in_transaction
in_transaction-Keeps body keep =
    >>-Keeps _ _ (wrapping-Keeps _ _ (statement-Keeps _ (pure-Keeps tt))) keep

-- A rollback puts consistent tables back, and leaves the sequences where they are.
restored :
    (s t : Session) (f : List (Option Fault))
    → IsConsistent s
    → Follows s t
    → Follows s (record t { tables = s.tables; faults = f })
restored s t f (below, keys, payloads, unique, refs) (a, b, k) = (
  a,
  b,
  (
    All-imp (λ r (lt : r.id < s.next_run). omega arith) s.tables.poll_runs below,
    keys,
    All-imp (λ r (lt : r.id < s.next_payload). omega arith) s.tables.raw_command_payloads payloads,
    unique,
    refs,
  ),
)

commit_or_rollback-Follows :
    (s t : Session) (r : Result (Unit {0}))
    → IsConsistent s
    → Follows s t
    → Follows s (commit_or_rollback s.tables r t).1
unfolding commit_or_rollback
commit_or_rollback-Follows s t (err e) h k = restored s t t.faults h k
commit_or_rollback-Follows s t (ok u) h k =
    let (f, outcome) =
      statement_cases (λ x. (ok tt, record x { tables = t.tables }))
        (record t { tables = s.tables }) in
    elim outcome [
      | inl done ↦ subst (Follows s) (sym (ap (λ r. r.1) done)) k
      | inr (inl (e, done)) ↦ subst (Follows s) (sym (ap (λ r. r.1) done)) (restored s t f h k)
      | inr (inr (e, done)) ↦ subst (Follows s) (sym (ap (λ r. r.1) done)) k
    ]

pub save_poll_result-Keeps :
    (marshal : Marshal) (result : PollResult) → Keeps (save_poll_result marshal result)
unfolding save_poll_result
save_poll_result-Keeps marshal result = record {
  follows = λ s h.
      let ran = in_transaction (save_body marshal result) s in
      let keep = in_transaction-Keeps (save_body marshal result) (save_body-Keeps marshal result) in
      commit_or_rollback-Follows s ran.1 ran.0 h (keep.follows s h);
}

delete_listed-Keeps : (ids : List ℕ) → Keeps (delete_listed ids)
unfolding delete_listed
delete_listed-Keeps [] = pure-Keeps 0
delete_listed-Keeps (id ∷ ids) = wrapping-Keeps _ _ (delete_poll_runs-Keeps (id ∷ ids))

pub delete_expired_poll_runs-Keeps :
    (cutoff : Time) (n : ℕ) → Keeps (delete_expired_poll_runs cutoff n)
unfolding delete_expired_poll_runs
delete_expired_poll_runs-Keeps cutoff n =
    >>=-Keeps _ _ (wrapping-Keeps _ _ (list_expired_poll_run_ids-Keeps _)) delete_listed-Keeps

pub delete_expired_payloads-Keeps :
    (cutoff : Time) (n : ℕ) → Keeps (delete_expired_payloads cutoff n)
unfolding delete_expired_payloads
delete_expired_payloads-Keeps cutoff n =
    wrapping-Keeps _ _ (delete_expired_raw_command_payloads-Keeps _)
