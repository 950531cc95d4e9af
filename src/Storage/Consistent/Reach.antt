-- ===== src/Storage/Consistent/Reach.antt =====
-- Any sequence of the operations of internal/storage/storage.go, whatever fails in them.
use nebula_mnemosina.Prelude.{
  ℕ, ◌<◌, Bool, false, List, [], ◌∷◌, Option, ◌≡◌, refl, sym, subst, arith,
}
use nebula_mnemosina.Time.{Time}
use nebula_mnemosina.Model.{PollResult}
use nebula_mnemosina.Db.{
  Fault, PollRun, RawCommandPayload, HostmapRow, AddrmapRow, RelaySnapshot, Tables, Session,
  no_rows_at_all,
}
use nebula_mnemosina.Db.Select.{select, count_if}
use nebula_mnemosina.Db.Select.All.{All}
use nebula_mnemosina.Db.Select.Keys.{select-HasKeys}
use nebula_mnemosina.Db.PollRuns.{has_run}
use nebula_mnemosina.Db.Retention.{run_id, payload_id}
use nebula_mnemosina.Storage.Save.{Marshal, save_poll_result}
use nebula_mnemosina.Storage.Save.Body.{saved_tables}
use nebula_mnemosina.Storage.Save.Exact.{IsAllOrNothing, save_poll_result_exact}
use nebula_mnemosina.Storage.Expire.{delete_expired_poll_runs, delete_expired_payloads}
use nebula_mnemosina.Storage.Consistent.{IsConsistent}
use nebula_mnemosina.Storage.Consistent.Rows.{select_below}
use nebula_mnemosina.Storage.Consistent.Save.{
  save_poll_result-Keeps, delete_expired_poll_runs-Keeps, delete_expired_payloads-Keeps,
}

-- The tables without some rows of the hypertables, as drop_chunks leaves them.
unfoldable pub without_rows :
    (RawCommandPayload → Bool)
    → (HostmapRow → Bool)
    → (AddrmapRow → Bool)
    → (RelaySnapshot → Bool)
    → Tables
    → Tables
without_rows raw hostmap addrmap relays t = record t {
  raw_command_payloads = select raw t.raw_command_payloads;
  hostmap_entries = select hostmap t.hostmap_entries;
  lighthouse_addrmap_entries = select addrmap t.lighthouse_addrmap_entries;
  relay_snapshots = select relays t.relay_snapshots;
}

-- A call of the store, with any arguments and any faults in its statements.
pub data Call (marshal : Marshal) : Session → Session → Type 0 where
  save : (result : PollResult) (s : Session) → Call marshal s (save_poll_result marshal result s).1
  delete_runs :
      (cutoff : Time) (n : ℕ) (s : Session) → Call marshal s (delete_expired_poll_runs cutoff n s).1
  delete_payloads :
      (cutoff : Time) (n : ℕ) (s : Session) → Call marshal s (delete_expired_payloads cutoff n s).1
  chunks_dropped :
      (raw : RawCommandPayload → Bool) (hostmap : HostmapRow → Bool) (addrmap : AddrmapRow → Bool)
      (relays : RelaySnapshot → Bool) (s : Session)
      → Call marshal s (record s { tables = without_rows raw hostmap addrmap relays s.tables })
  will_fail :
      (faults : List (Option Fault)) (s : Session) → Call marshal s (record s { faults = faults })

pub data Reached (marshal : Marshal) (s : Session) : Session → Type 0 where
  here : Reached marshal s s
  next : {t u : Session} → Reached marshal s t → Call marshal t u → Reached marshal s u

pub without_rows-IsConsistent :
    (raw : RawCommandPayload → Bool) (hostmap : HostmapRow → Bool) (addrmap : AddrmapRow → Bool)
    (relays : RelaySnapshot → Bool) (s : Session)
    → IsConsistent s
    → IsConsistent (record s { tables = without_rows raw hostmap addrmap relays s.tables })
unfolding without_rows
without_rows-IsConsistent raw hostmap addrmap relays s
      (below, keys, payloads, unique, (r, h, a, l)) =
    (
      below,
      keys,
      select_below (λ c. payload_id c < s.next_payload) raw s.tables.raw_command_payloads payloads,
      select-HasKeys payload_id raw s.tables.raw_command_payloads unique,
      (
        select_below _ raw s.tables.raw_command_payloads r,
        select_below _ hostmap s.tables.hostmap_entries h,
        select_below _ addrmap s.tables.lighthouse_addrmap_entries a,
        select_below _ relays s.tables.relay_snapshots l,
      ),
    )

Call-IsConsistent :
    (marshal : Marshal) {s t : Session} → Call marshal s t → IsConsistent s → IsConsistent t
Call-IsConsistent marshal (save result s) h =
    ((save_poll_result-Keeps marshal result).follows s h).2
Call-IsConsistent marshal (delete_runs cutoff n s) h =
    ((delete_expired_poll_runs-Keeps cutoff n).follows s h).2
Call-IsConsistent marshal (delete_payloads cutoff n s) h =
    ((delete_expired_payloads-Keeps cutoff n).follows s h).2
Call-IsConsistent marshal (chunks_dropped raw hostmap addrmap relays s) h =
    without_rows-IsConsistent raw hostmap addrmap relays s h
Call-IsConsistent marshal (will_fail faults s) h = h

-- However the calls of the store follow one another and whatever fails in them, the ids of runs and
-- payloads stay unique and below the next of their sequence, and every row of the other tables is of
-- a run that exists, if this held at the start.
pub Reached-IsConsistent :
    (marshal : Marshal) {s t : Session} → IsConsistent s → Reached marshal s t → IsConsistent t
Reached-IsConsistent marshal h here = h
Reached-IsConsistent marshal h (next before step) =
    Call-IsConsistent marshal step (Reached-IsConsistent marshal h before)

pub no_rows-IsConsistent :
    (next_run next_payload : ℕ) (faults : List (Option Fault))
    → IsConsistent (record {
      tables = no_rows_at_all;
      next_run = next_run;
      next_payload = next_payload;
      faults = faults;
    })
unfolding count_if
no_rows-IsConsistent next_run next_payload faults =
    (tt, λ k. omega arith, tt, λ k. omega arith, (tt, tt, tt, tt))

pub unused :
    (id : ℕ) (runs : List PollRun) → All (λ r. run_id r < id) runs → has_run id runs ≡ false
unfolding has_run
unused id [] h = refl
unused id (r ∷ runs) (h, hs) = ground (arith, h, unused id runs hs)

-- In every state that the calls of the store reach from empty tables, whatever failed in them, a save
-- either succeeds and adds exactly the rows of the result under the next id, or fails and changes no
-- table, unless the error is one that Commit reported: then it changes no table or adds exactly these
-- rows.
pub Reached-save_poll_result :
    (marshal : Marshal) (s t : Session)
    → s.tables ≡ no_rows_at_all
    → Reached marshal s t
    → (result : PollResult)
    → IsAllOrNothing t.tables
        (saved_tables marshal result t)
        (save_poll_result marshal result t).0
        (save_poll_result marshal result t).1.tables
Reached-save_poll_result marshal s t empty reach result =
    let start : IsConsistent s =
      subst (λ t. IsConsistent (record s { tables = t })) (sym empty)
        (no_rows-IsConsistent s.next_run s.next_payload s.faults) in
    let now = Reached-IsConsistent marshal start reach in
    save_poll_result_exact marshal result t (unused t.next_run t.tables.poll_runs now.0)
