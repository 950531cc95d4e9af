-- ===== src/Tests/Expiring.antt =====
-- Expired rows and the latest polls, in a database of two runs.
use nebula_mnemosina.Prelude.{ℕ, Bool, true, false, [], ◌∷◌, none, ◌≡◌, refl, arith}
use nebula_mnemosina.Prelude.Int.{pos}
use nebula_mnemosina.Text.{Text, codes, text_eq}
use nebula_mnemosina.Time.{Time, micros}
use nebula_mnemosina.Errors.{ok}
use nebula_mnemosina.Db.{PollRun, RawCommandPayload, Session, statement, no_rows_at_all}
use nebula_mnemosina.Db.Select.{select, count_if, place, order_by, has_key, distinct_on}
use nebula_mnemosina.Db.Retention.{list_expired_poll_run_ids, delete_poll_runs}
use nebula_mnemosina.Db.Peers.{newer, same_lighthouse, succeeded, latest_poll}
use nebula_mnemosina.Db.Select.All.{All}
use nebula_mnemosina.Db.Peers.Latest.{latest_poll_newest}
use nebula_mnemosina.Storage.{timestamptz}
use nebula_mnemosina.Storage.Expire.{delete_listed, delete_expired_poll_runs}
use nebula_mnemosina.Storage.Expire.IsBatch.{RunKeys}
use nebula_mnemosina.Storage.Expire.References.{IsReferring}

abbrev pub poll_run : ℕ → Time → PollRun
poll_run id started_at = record {
  id = id;
  started_at = started_at;
  finished_at = none;
  lighthouse_name = codes "west";
  ssh_target = codes "root@w:22";
  success = true;
  duration_ms = pos 1;
  error = none;
  nebula_version = none;
  device_name = none;
  device_cidrs = [];
  command_count = pos 0;
}

abbrev pub payload : ℕ → ℕ → RawCommandPayload
payload id poll_run_id = record {
  id = id;
  poll_run_id = poll_run_id;
  observed_at = pos 3_000;
  lighthouse_name = codes "west";
  command = codes "version";
  success = true;
  duration_ms = pos 1;
  output = [];
  error = none;
}

-- A run that is expired at 5500 ns, with a payload, and a later one.
abbrev pub two_runs : Session
two_runs = record {
  tables = record no_rows_at_all {
    poll_runs = poll_run 1 (pos 3_000) ∷ poll_run 2 (pos 9_000) ∷ [];
    raw_command_payloads = payload 1 1 ∷ payload 2 2 ∷ [];
  };
  next_run = 3;
  next_payload = 3;
  faults = [];
}

two_runs_keys : RunKeys two_runs
unfolding count_if
two_runs_keys k = ground arith

one_deleted : (delete_expired_poll_runs (pos 5_500) 1000 two_runs).0 ≡ ok 1
unfolding micros delete_expired_poll_runs delete_listed list_expired_poll_run_ids delete_poll_runs
    statement timestamptz select count_if order_by place has_key
one_deleted = refl

two_runs_refer : IsReferring two_runs.tables
unfolding has_key
two_runs_refer = ((refl, (refl, tt)), tt, tt, tt)

abbrev pub collate : Text → Text → Bool
collate s t = false

latest_poll_newest_example :
    All
      (λ p.
        (succeeded p ≡ true)
        × All
            (λ r. succeeded r ≡ true → same_lighthouse p r ≡ true → newer r p ≡ false)
            two_runs.tables.poll_runs)
      (latest_poll two_runs.tables.poll_runs)
latest_poll_newest_example = latest_poll_newest two_runs.tables.poll_runs

latest_is_second : latest_poll two_runs.tables.poll_runs ≡ poll_run 2 (pos 9_000) ∷ []
unfolding latest_poll distinct_on order_by place select text_eq
latest_is_second = refl
