-- ===== src/Tests/History.antt =====
-- Saves and prunes of one database, one behind the other.
use nebula_mnemosina.Prelude.{true, not, ◌==◌, ◌<◌, ◌*◌, [], Option, none, refl, arith}
use nebula_mnemosina.Prelude.Int.{pos}
use nebula_mnemosina.Text.{codes}
use nebula_mnemosina.Time.{before_by, micros}
use nebula_mnemosina.Errors.{Error, ok}
use nebula_mnemosina.Metrics.{no_metrics}
use nebula_mnemosina.Db.{Session, no_rows_at_all}
use nebula_mnemosina.Db.Select.{count_if, has_key}
use nebula_mnemosina.Storage.{timestamptz}
use nebula_mnemosina.Storage.Save.{Marshal, save_poll_result}
use nebula_mnemosina.Storage.Save.Exact.{IsAllOrNothing}
use nebula_mnemosina.Storage.Save.Body.{saved_tables}
use nebula_mnemosina.Storage.Expire.{delete_expired_poll_runs}
use nebula_mnemosina.Storage.Expire.IsBatch.{expired_runs, expired_payloads}
use nebula_mnemosina.Storage.Consistent.{IsConsistent}
use nebula_mnemosina.Storage.Consistent.Reach.{
  save, delete_runs, Reached, here, next, without_rows, Reached-IsConsistent, no_rows-IsConsistent,
  Reached-save_poll_result,
}
use nebula_mnemosina.Retention.{World, Pruner, prune}
use nebula_mnemosina.Retention.Ends.{Ends}
use nebula_mnemosina.Retention.Stored.{Drop, IsDropping, stored}
use nebula_mnemosina.Retention.Stored.Phases.{IsPruned, prune-Ends}
use nebula_mnemosina.Tests.Polling.{polled}
use nebula_mnemosina.Tests.Expiring.{two_runs}

abbrev pub marshal : Marshal
marshal e = ok (codes "{}")

abbrev pub new_database : Session
new_database = record { tables = no_rows_at_all; next_run = 4; next_payload = 9; faults = [] }

-- A poll is saved, and expired runs are deleted.
abbrev saved : Session
saved = (save_poll_result marshal polled new_database).1

abbrev deleted : Session
deleted = (delete_expired_poll_runs (pos 5_500) 1000 saved).1

saved_deleted : Reached marshal new_database deleted
saved_deleted = next (next here (save polled new_database)) (delete_runs (pos 5_500) 1000 saved)

Reached-IsConsistent_example : IsConsistent deleted
Reached-IsConsistent_example =
    Reached-IsConsistent marshal (no_rows-IsConsistent 4 9 []) saved_deleted

Reached-save_poll_result_example :
    IsAllOrNothing deleted.tables
      (saved_tables marshal polled deleted)
      (save_poll_result marshal polled deleted).0
      (save_poll_result marshal polled deleted).1.tables
Reached-save_poll_result_example =
    Reached-save_poll_result marshal new_database deleted refl saved_deleted polled

two_runs-IsConsistent : IsConsistent two_runs
unfolding count_if has_key
two_runs-IsConsistent = (
  (omega arith, (omega arith, tt)),
  λ k. ground arith,
  (omega arith, (omega arith, tt)),
  λ k. ground arith,
  ((refl, (refl, tt)), tt, tt, tt),
)

abbrev pruner : Pruner
pruner = record {
  cfg = record { period = pos 10_000; raw_period = pos 8_000; interval = pos 1 };
  timescale = true;
}

-- A chunk of payloads goes that has the first of them.
abbrev drop : Drop
drop table cutoff s = (
  ok 1,
  record s {
    tables = without_rows (λ c. not (c.id == 1)) (λ h. true) (λ a. true) (λ r. true) s.tables;
  },
)

drop-IsDropping : IsDropping drop
drop-IsDropping table cutoff s =
    (λ c. not (c.id == 1), λ h. true, λ a. true, λ r. true, s.faults, refl)

abbrev context_error : Session → Option Error
context_error s = none

few_runs : expired_runs (before_by (pos 15_000) pruner.cfg.period) two_runs < 1000 * 2
unfolding expired_runs count_if timestamptz before_by micros
few_runs = omega arith

few_payloads : expired_payloads (before_by (pos 15_000) pruner.cfg.raw_period) two_runs < 1000 * 2
unfolding expired_payloads count_if timestamptz before_by micros
few_payloads = omega arith

abbrev before : World Session
before = record { store = two_runs; metrics = no_metrics }

prune-Ends_example :
    Ends
      (IsPruned pruner (pos 15_000) two_runs.tables.poll_runs)
      (prune (stored context_error drop) pruner 2 (pos 15_000) before)
prune-Ends_example =
    prune-Ends context_error drop drop-IsDropping pruner 2 (pos 15_000) before two_runs-IsConsistent
      few_runs few_payloads
