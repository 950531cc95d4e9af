-- ===== src/Storage/Consistent/Statements.antt =====
-- The statements of internal/db that write, on consistent tables.
use nebula_mnemosina.Prelude.{
  ℕ, ◌≤◌, Bool, true, not, ◌&&◌, List, ◌==◌, ◌≡◌, inl, inr, refl, sym, subst, arith, Bool-cases,
}
use nebula_mnemosina.Db.{PollRun, RawCommandPayload}
use nebula_mnemosina.Db.Params.{
  CreatePollRunParams, CompletePollRunParams, InsertRawCommandPayloadParams,
  InsertHostmapEntryParams, InsertLighthouseAddrmapEntryParams, InsertRelaySnapshotParams,
  DeleteExpiredRawCommandPayloadsParams, ListExpiredPollRunIdsParams,
}
use nebula_mnemosina.Db.Select.{select, has_key}
use nebula_mnemosina.Db.Select.Keys.{select-HasKeys}
use nebula_mnemosina.Db.PollRuns.{
  completed, new_run, raw_row, hostmap_row, addrmap_row, relay_row, create_poll_run,
  complete_poll_run, insert_raw_command_payload, insert_hostmap_entry,
  insert_lighthouse_addrmap_entry, insert_relay_snapshot,
}
use nebula_mnemosina.Db.Retention.{
  run_id, payload_id, is_any, gone_payload, list_expired_poll_run_ids, delete_poll_runs,
  delete_expired_raw_command_payloads,
}
use nebula_mnemosina.Storage.Expire.References.{without_runs-IsReferring}
use nebula_mnemosina.Storage.Consistent.{Keeps, stays, statement-Keeps, checked-Keeps}
use nebula_mnemosina.Storage.Consistent.Rows.{
  append-HasKeys, append_below, count_key-map, below-map, Refer-more, Refer-append, Refer-map,
  select_below,
}

pub create_poll_run-Keeps : (p : CreatePollRunParams) → Keeps (create_poll_run p)
unfolding create_poll_run
create_poll_run-Keeps p =
    checked-Keeps _ _ (λ s valid (below, keys, payloads, unique, (raw, hostmap, addrmap, relays)).
      let runs = s.tables.poll_runs in
      let run = new_run s.next_run p in
      (
        omega arith,
        omega arith,
        (
          append_below run_id s.next_run runs run refl below,
          append-HasKeys run_id s.next_run runs run refl below keys,
          payloads,
          unique,
          (
            Refer-append (λ c. c.poll_run_id) runs run _ raw,
            Refer-append (λ c. c.poll_run_id) runs run _ hostmap,
            Refer-append (λ c. c.poll_run_id) runs run _ addrmap,
            Refer-append (λ c. c.poll_run_id) runs run _ relays,
          ),
        ),
      ))

completed_id : (p : CompletePollRunParams) (r : PollRun) → (completed p r).id ≡ r.id
completed_id p r = elim (Bool-cases (r.id == p.id)) [ inl e ↦ rw e refl | inr e ↦ rw e refl ]

pub complete_poll_run-Keeps : (p : CompletePollRunParams) → Keeps (complete_poll_run p)
unfolding complete_poll_run
complete_poll_run-Keeps p =
    checked-Keeps _ _ (λ s valid (below, keys, payloads, unique, (raw, hostmap, addrmap, relays)).
      let runs = s.tables.poll_runs in
      let same = completed_id p in
      (
        omega arith,
        omega arith,
        (
          below-map (completed p) same s.next_run runs below,
          λ k. subst (λ n. n ≤ 1) (sym (count_key-map (completed p) same k runs)) (keys k),
          payloads,
          unique,
          (
            Refer-map (λ c. c.poll_run_id) (completed p) same runs _ raw,
            Refer-map (λ c. c.poll_run_id) (completed p) same runs _ hostmap,
            Refer-map (λ c. c.poll_run_id) (completed p) same runs _ addrmap,
            Refer-map (λ c. c.poll_run_id) (completed p) same runs _ relays,
          ),
        ),
      ))

-- What the checks before a row say of its run.
checked_run : (a b : Bool) → (a && b) ≡ true → a ≡ true
checked_run a b h = ground arith

pub insert_raw_command_payload-Keeps :
    (p : InsertRawCommandPayloadParams) → Keeps (insert_raw_command_payload p)
unfolding insert_raw_command_payload
insert_raw_command_payload-Keeps p =
    checked-Keeps _ _ (λ s valid (below, keys, payloads, unique, (raw, hostmap, addrmap, relays)).
      let rows = s.tables.raw_command_payloads in
      let row = raw_row s.next_payload p in
      (
        omega arith,
        omega arith,
        (
          below,
          keys,
          append_below payload_id s.next_payload rows row refl payloads,
          append-HasKeys payload_id s.next_payload rows row refl payloads unique,
          (
            Refer-more (λ c. c.poll_run_id) s.tables.poll_runs rows row (checked_run _ _ valid) raw,
            hostmap,
            addrmap,
            relays,
          ),
        ),
      ))

pub insert_hostmap_entry-Keeps : (p : InsertHostmapEntryParams) → Keeps (insert_hostmap_entry p)
unfolding insert_hostmap_entry
insert_hostmap_entry-Keeps p =
    checked-Keeps _ _ (λ s valid (below, keys, payloads, unique, (raw, hostmap, addrmap, relays)).
      let found = checked_run _ _ valid in
      let more =
        Refer-more (λ c. c.poll_run_id) s.tables.poll_runs s.tables.hostmap_entries (hostmap_row p)
          found hostmap in
      (omega arith, omega arith, (below, keys, payloads, unique, (raw, more, addrmap, relays))))

pub insert_lighthouse_addrmap_entry-Keeps :
    (p : InsertLighthouseAddrmapEntryParams) → Keeps (insert_lighthouse_addrmap_entry p)
unfolding insert_lighthouse_addrmap_entry
insert_lighthouse_addrmap_entry-Keeps p =
    checked-Keeps _ _ (λ s valid (below, keys, payloads, unique, (raw, hostmap, addrmap, relays)).
      let found = checked_run _ _ valid in
      let more =
        Refer-more (λ c. c.poll_run_id) s.tables.poll_runs s.tables.lighthouse_addrmap_entries
          (addrmap_row p) found addrmap in
      (omega arith, omega arith, (below, keys, payloads, unique, (raw, hostmap, more, relays))))

pub insert_relay_snapshot-Keeps : (p : InsertRelaySnapshotParams) → Keeps (insert_relay_snapshot p)
unfolding insert_relay_snapshot
insert_relay_snapshot-Keeps p =
    checked-Keeps _ _ (λ s valid (below, keys, payloads, unique, (raw, hostmap, addrmap, relays)).
      let found = checked_run _ _ valid in
      let more =
        Refer-more (λ c. c.poll_run_id) s.tables.poll_runs s.tables.relay_snapshots (relay_row p)
          found relays in
      (omega arith, omega arith, (below, keys, payloads, unique, (raw, hostmap, addrmap, more))))

pub list_expired_poll_run_ids-Keeps :
    (p : ListExpiredPollRunIdsParams) → Keeps (list_expired_poll_run_ids p)
unfolding list_expired_poll_run_ids
list_expired_poll_run_ids-Keeps p = statement-Keeps _ (record { follows = stays })

pub delete_poll_runs-Keeps : (ids : List ℕ) → Keeps (delete_poll_runs ids)
unfolding delete_poll_runs
delete_poll_runs-Keeps ids = statement-Keeps _ (record {
  follows = λ s (below, keys, payloads, unique, refs).
      let gone = is_any ids in
      let left : RawCommandPayload → Bool =
        λ c. not (has_key run_id c.poll_run_id (select gone s.tables.poll_runs)) in
      (
        omega arith,
        omega arith,
        (
          select_below _ (λ r. not (gone r)) s.tables.poll_runs below,
          select-HasKeys run_id (λ r. not (gone r)) s.tables.poll_runs keys,
          select_below _ left s.tables.raw_command_payloads payloads,
          select-HasKeys payload_id left s.tables.raw_command_payloads unique,
          without_runs-IsReferring gone s.tables refs,
        ),
      );
})

pub delete_expired_raw_command_payloads-Keeps :
    (p : DeleteExpiredRawCommandPayloadsParams) → Keeps (delete_expired_raw_command_payloads p)
unfolding delete_expired_raw_command_payloads
delete_expired_raw_command_payloads-Keeps p = statement-Keeps _ (record {
  follows = λ s (below, keys, payloads, unique, (raw, hostmap, addrmap, relays)).
      let rows = s.tables.raw_command_payloads in
      let left : RawCommandPayload → Bool = λ r. not (gone_payload p rows r) in
      (
        omega arith,
        omega arith,
        (
          below,
          keys,
          select_below _ left rows payloads,
          select-HasKeys payload_id left rows unique,
          (select_below _ left rows raw, hostmap, addrmap, relays),
        ),
      );
})
