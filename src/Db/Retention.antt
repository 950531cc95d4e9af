-- ===== src/Db/Retention.antt =====
-- The statements of internal/db/retention.sql.go. Deleting a poll run deletes the rows that refer to
-- it (ON DELETE CASCADE); a comparison with NULL holds of no row.
use nebula_mnemosina.Prelude.{ℕ, Bool, ◌&&◌, not, List, map, take}
use nebula_mnemosina.Time.{Time, earlier, micros}
use nebula_mnemosina.Errors.{ok}
use nebula_mnemosina.Db.{Nullable, PollRun, RawCommandPayload, Tables, Query, statement}
use nebula_mnemosina.Db.Params.{DeleteExpiredRawCommandPayloadsParams, ListExpiredPollRunIdsParams}
use nebula_mnemosina.Db.Select.{select, count_if, order_by, has_key}

-- `t < $1`, a parameter that is a timestamptz
abbrev pub is_before : Time → Nullable Time → Bool
is_before t cutoff = cutoff.valid && earlier t (micros cutoff.value)

abbrev pub run_id : PollRun → ℕ
run_id r = r.id

abbrev pub payload_id : RawCommandPayload → ℕ
payload_id r = r.id

abbrev pub expired_run : Nullable Time → PollRun → Bool
expired_run cutoff r = is_before r.started_at cutoff

abbrev pub expired_payload : Nullable Time → RawCommandPayload → Bool
expired_payload cutoff r = is_before r.observed_at cutoff

-- ORDER BY started_at
abbrev pub started_before : PollRun → PollRun → Bool
started_before a b = earlier a.started_at b.started_at

-- ORDER BY observed_at
abbrev pub observed_before : RawCommandPayload → RawCommandPayload → Bool
observed_before a b = earlier a.observed_at b.observed_at

unfoldable pub list_expired_poll_run_ids : ListExpiredPollRunIdsParams → Query (List ℕ)
list_expired_poll_run_ids p = statement (λ s. (
  ok (
      map run_id (
        take p.limit
          (order_by started_before (select (expired_run p.started_at) s.tables.poll_runs)))),
  s,
))

-- id = ANY($1)
abbrev pub is_any : List ℕ → PollRun → Bool
is_any ids r = has_key (λ (k : ℕ). k) r.id ids

-- The tables without the runs that `gone` holds of, and without the rows that refer to them.
abbrev pub without_runs : (PollRun → Bool) → Tables → Tables
without_runs gone t =
    let runs = select gone t.poll_runs in
    record {
      poll_runs = select (λ r. not (gone r)) t.poll_runs;
      raw_command_payloads =
          select (λ c. not (has_key run_id c.poll_run_id runs)) t.raw_command_payloads;
      hostmap_entries = select (λ c. not (has_key run_id c.poll_run_id runs)) t.hostmap_entries;
      lighthouse_addrmap_entries =
          select (λ c. not (has_key run_id c.poll_run_id runs)) t.lighthouse_addrmap_entries;
      relay_snapshots = select (λ c. not (has_key run_id c.poll_run_id runs)) t.relay_snapshots;
    }

-- The rows that go by the cascade are not counted.
unfoldable pub delete_poll_runs : List ℕ → Query ℕ
delete_poll_runs ids = statement (λ s. (
  ok (count_if (is_any ids) s.tables.poll_runs),
  record s { tables = without_runs (is_any ids) s.tables },
))

-- The rows that DELETE FROM raw_command_payloads removes.
abbrev pub gone_payload :
    DeleteExpiredRawCommandPayloadsParams → List RawCommandPayload → RawCommandPayload → Bool
gone_payload p rows r =
    expired_payload p.cutoff r
    && has_key payload_id r.id
        (take p.batch_size (order_by observed_before (select (expired_payload p.cutoff) rows)))

unfoldable pub delete_expired_raw_command_payloads : DeleteExpiredRawCommandPayloadsParams → Query ℕ
delete_expired_raw_command_payloads p = statement (λ s.
    let rows = s.tables.raw_command_payloads in
    (
      ok (count_if (gone_payload p rows) rows),
      record s {
        tables = record s.tables {
          raw_command_payloads = select (λ r. not (gone_payload p rows r)) rows;
        };
      },
    ))
