-- ===== src/Retention/Stored.antt =====
-- The pruner of internal/retention/retention.go on the store of internal/storage/storage.go. The
-- context and drop_chunks are parameters; chunks that are dropped are rows of the hypertables.
pub mod Phases
use nebula_mnemosina.Prelude.{
  ℕ, ◌*◌, ◌<◌, ◌≤◌, String, Bool, true, false, not, List, [], ◌∷◌, Option, none, some, ◌≡◌, inl,
  inr, refl, sym, ◌∙◌, ap, subst, arith, Bool-cases,
}
use nebula_mnemosina.Prelude.Int.{pos, ltb_ℤ}
use nebula_mnemosina.Time.{Time, before_by}
use nebula_mnemosina.Errors.{Error, Result, ok}
use nebula_mnemosina.Db.{
  Fault, PollRun, RawCommandPayload, HostmapRow, AddrmapRow, RelaySnapshot, Session,
}
use nebula_mnemosina.Db.Select.{select, count_if, has_key}
use nebula_mnemosina.Db.Select.Keys.{HasKeys, count_if-le}
use nebula_mnemosina.Db.Retention.{run_id, expired_run, expired_payload}
use nebula_mnemosina.Storage.{timestamptz}
use nebula_mnemosina.Storage.Expire.{delete_expired_poll_runs, delete_expired_payloads}
use nebula_mnemosina.Storage.Expire.Batches.{listed_run, delete_expired_poll_runs-eq}
use nebula_mnemosina.Storage.Expire.IsBatch.{
  expired_runs, expired_payloads, delete_expired_payloads-eq, delete_expired_poll_runs-IsBatch,
  delete_expired_payloads-IsBatch, delete_expired_poll_runs-keeps,
}
use nebula_mnemosina.Storage.Peers.{drop_table_chunks}
use nebula_mnemosina.Storage.Consistent.{IsConsistent}
use nebula_mnemosina.Storage.Consistent.Save.{
  delete_expired_poll_runs-Keeps, delete_expired_payloads-Keeps,
}
use nebula_mnemosina.Storage.Consistent.Reach.{without_rows, without_rows-IsConsistent}
use nebula_mnemosina.Retention.{
  Store, Pruner, World, Outcome, returned, drop_chunks, drop_all, delete_batches, prune_raw,
  run_tables, prune_runs, prune,
}
use nebula_mnemosina.Retention.Laws.{IsBatch}
use nebula_mnemosina.Retention.Ends.{
  prune_raw-Ends, prune_runs-Ends, Ends, Ends-imp, and_then-Ends, observe_run-Ends,
  drop_chunks-Ends, drop_all-Ends, delete_batches-Ends,
}

abbrev pub Drop : Type 0
Drop = String → Time → Session → Result ℕ × Session

-- What TimescaleDB says of drop_chunks: it removes rows of hypertables, and nothing else.
abbrev pub IsDropping : Drop → Type 0
IsDropping drop =
    (table : String) (cutoff : Time) (s : Session)
    → (raw : RawCommandPayload → Bool) × (hostmap : HostmapRow → Bool) × (addrmap : AddrmapRow
        → Bool)
      × (relays : RelaySnapshot → Bool) × (faults : List (Option Fault)) × ((drop table cutoff s).1
          ≡ record s { tables = without_rows raw hostmap addrmap relays s.tables; faults = faults })

unfoldable pub stored : (Session → Option Error) → Drop → Store Session
stored context_error drop = record {
  context_error = context_error;
  drop_chunks = drop_table_chunks drop;
  delete_expired_poll_runs = delete_expired_poll_runs;
  delete_expired_raw_command_payloads = delete_expired_payloads;
}

-- Dropping chunks removes no run, and makes no payload expire.
pub drop-keeps :
    (drop : Drop)
    → IsDropping drop
    → (table : String) (cutoff raw_cutoff : Time) (s : Session) → IsConsistent s
    → let s' = (drop_table_chunks drop table cutoff s).1 in
      IsConsistent s'
      × (s'.tables.poll_runs ≡ s.tables.poll_runs)
      × (expired_payloads raw_cutoff s' ≤ expired_payloads raw_cutoff s)
unfolding drop_table_chunks expired_payloads without_rows
drop-keeps drop law table cutoff raw_cutoff s h =
    let (raw, hostmap, addrmap, relays, faults, eq) = law table cutoff s in
    let fewer =
      count_if-le (expired_payload (timestamptz raw_cutoff)) raw s.tables.raw_command_payloads in
    (
      subst IsConsistent (sym eq)
          (without_rows-IsConsistent raw hostmap addrmap relays (record s { faults = faults }) h),
      ap (λ t. t.tables.poll_runs) eq,
      omega (
        arith,
        ap (λ t. count_if (expired_payload (timestamptz raw_cutoff)) t.tables.raw_command_payloads)
            eq,
        fewer,
      ),
    )
