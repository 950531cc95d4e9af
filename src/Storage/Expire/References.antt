-- ===== src/Storage/Expire/References.antt =====
-- The deletions of internal/storage/storage.go and the foreign keys.
use nebula_mnemosina.Prelude.{
  ℕ, Bool, true, not, List, [], ◌∷◌, ◌≡◌, inl, inr, sym, subst, arith, Bool-cases,
}
use nebula_mnemosina.Time.{Time}
use nebula_mnemosina.Errors.{ok}
use nebula_mnemosina.Db.{PollRun, Tables, Session}
use nebula_mnemosina.Db.Select.{select, has_key}
use nebula_mnemosina.Db.Select.All.{All, All-imp, All-select}
use nebula_mnemosina.Db.Retention.{run_id, without_runs}
use nebula_mnemosina.Storage.Expire.{delete_expired_poll_runs}
use nebula_mnemosina.Storage.Expire.Batches.{listed_run, delete_expired_poll_runs-eq}
use nebula_mnemosina.Storage.Expire.IsBatch.{RunKeys}

-- The foreign keys: every row of the other tables is of a run that exists.
abbrev pub IsReferring : Tables → Type 0
IsReferring t =
    All (λ c. has_key run_id c.poll_run_id t.poll_runs ≡ true) t.raw_command_payloads
    × All (λ c. has_key run_id c.poll_run_id t.poll_runs ≡ true) t.hostmap_entries
    × All (λ c. has_key run_id c.poll_run_id t.poll_runs ≡ true) t.lighthouse_addrmap_entries
    × All (λ c. has_key run_id c.poll_run_id t.poll_runs ≡ true) t.relay_snapshots

-- A run that exists and is not among those that go stays.
stays :
    (gone : PollRun → Bool) (k : ℕ) (runs : List PollRun)
    → has_key run_id k runs ≡ true
    → not (has_key run_id k (select gone runs)) ≡ true
    → has_key run_id k (select (λ r. not (gone r)) runs) ≡ true
unfolding has_key select
stays gone k [] h n = absurd (ground arith)
stays gone k (r ∷ runs) h n = elim (Bool-cases (gone r)) [
  | inl e ↦ ground (arith, e, stays gone k runs)
  | inr e ↦ ground (arith, e, stays gone k runs)
]

rows_stay :
    {A : Type 0} (ref : A → ℕ) (gone : PollRun → Bool) (runs : List PollRun) (rows : List A)
    → All (λ c. has_key run_id (ref c) runs ≡ true) rows
    → All
        (λ c. has_key run_id (ref c) (select (λ r. not (gone r)) runs) ≡ true)
        (select (λ c. not (has_key run_id (ref c) (select gone runs))) rows)
rows_stay ref gone runs rows h =
    All-imp (λ c (n, e). stays gone (ref c) runs e n) _
      (All-select _ (λ c. not (has_key run_id (ref c) (select gone runs))) rows h)

pub without_runs-IsReferring :
    (gone : PollRun → Bool) (t : Tables) → IsReferring t → IsReferring (without_runs gone t)
without_runs-IsReferring gone t (raw, hostmap, addrmap, relays) = (
  rows_stay (λ c. c.poll_run_id) gone t.poll_runs t.raw_command_payloads raw,
  rows_stay (λ c. c.poll_run_id) gone t.poll_runs t.hostmap_entries hostmap,
  rows_stay (λ c. c.poll_run_id) gone t.poll_runs t.lighthouse_addrmap_entries addrmap,
  rows_stay (λ c. c.poll_run_id) gone t.poll_runs t.relay_snapshots relays,
)

-- A batch of expired runs whose deletion succeeds keeps the foreign keys, if they held and run ids
-- are unique: with a run go all the rows that refer to it.
pub delete_expired_poll_runs-IsReferring :
    (cutoff : Time) (n : ℕ) (s : Session) {d : ℕ}
    → RunKeys s
    → IsReferring s.tables
    → (delete_expired_poll_runs cutoff n s).0 ≡ ok d
    → IsReferring (delete_expired_poll_runs cutoff n s).1.tables
delete_expired_poll_runs-IsReferring cutoff n s keys refs h =
    let (_, tables) = delete_expired_poll_runs-eq cutoff n s keys h in
    subst IsReferring (sym tables)
      (without_runs-IsReferring (listed_run cutoff n s keys) s.tables refs)
