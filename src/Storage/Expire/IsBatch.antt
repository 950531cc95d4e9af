-- ===== src/Storage/Expire/IsBatch.antt =====
-- The deletions of internal/storage/storage.go, as the batches of the pruner's contract.
use nebula_mnemosina.Prelude.{ℕ, Bool, not, List, [], ◌∷◌, ◌≡◌, refl, sym, ◌∙◌, ap, arith, subst}
use nebula_mnemosina.Time.{Time}
use nebula_mnemosina.Errors.{ok_inj, Piece, lit, ok}
use nebula_mnemosina.Db.{PollRun, Session, wrap_result-ok, statement_ok}
use nebula_mnemosina.Db.Params.{DeleteExpiredRawCommandPayloadsParams}
use nebula_mnemosina.Db.Select.{select, count_if}
use nebula_mnemosina.Db.Select.Keys.{HasKeys, select-HasKeys}
use nebula_mnemosina.Db.Select.Batch.{batch_lem, batch-count, batch_only, select-keeps, batch-gone}
use nebula_mnemosina.Db.Retention.{
  run_id, payload_id, expired_run, expired_payload, started_before, observed_before, gone_payload,
  delete_expired_raw_command_payloads,
}
use nebula_mnemosina.Storage.{timestamptz}
use nebula_mnemosina.Storage.Expire.{delete_expired_poll_runs, delete_expired_payloads}
use nebula_mnemosina.Storage.Expire.Batches.{listed_run, delete_expired_poll_runs-eq}
use nebula_mnemosina.Retention.Laws.{IsBatch}

-- Runs, and payloads, have unique ids: the primary keys of the tables.
abbrev pub RunKeys : Session → Type 0
RunKeys s = HasKeys run_id s.tables.poll_runs

abbrev pub PayloadKeys : Session → Type 0
PayloadKeys s = HasKeys payload_id s.tables.raw_command_payloads

unfoldable pub expired_runs : Time → Session → ℕ
expired_runs cutoff s = count_if (expired_run (timestamptz cutoff)) s.tables.poll_runs

unfoldable pub expired_payloads : Time → Session → ℕ
expired_payloads cutoff s =
    count_if (expired_payload (timestamptz cutoff)) s.tables.raw_command_payloads

-- DeleteExpiredPollRuns does what the pruner expects of a batch, for the runs started before the
-- cutoff, while run ids are unique: when it succeeds, the number it returns and the expired runs
-- that are left add up to those that were there, it deleted as many as it may or none is left, at
-- most the batch size, and ids stay unique.
pub delete_expired_poll_runs-IsBatch :
    (cutoff : Time) → IsBatch RunKeys (expired_runs cutoff) (delete_expired_poll_runs cutoff)
unfolding expired_runs
delete_expired_poll_runs-IsBatch cutoff = record {
  deleted = λ n s {d} keys h.
      let (count, tables) = delete_expired_poll_runs-eq cutoff n s keys h in
      let rs = s.tables.poll_runs in
      let expired = expired_run (timestamptz cutoff) in
      let left = select (λ r. not (listed_run cutoff n s keys r)) rs in
      let rows : (delete_expired_poll_runs cutoff n s).1.tables.poll_runs ≡ left =
        ap (λ t. t.poll_runs) tables in
      let (sum, full, le) =
        batch_lem run_id expired started_before n rs keys (listed_run cutoff n s keys)
          (λ r. refl) in
      let d_eq = count ∙ batch-gone run_id expired started_before n rs keys in
      let left_eq = ap (λ rows. count_if expired rows) rows in
      (
        subst (λ rows. HasKeys run_id rows) (sym rows)
            (select-HasKeys run_id (λ r. not (listed_run cutoff n s keys r)) rs keys),
        omega arith,
        omega arith,
        omega arith,
      );
}

pub delete_expired_payloads-eq :
    (cutoff : Time) (n : ℕ) (s : Session) {d : ℕ}
    → (delete_expired_payloads cutoff n s).0 ≡ ok d
    → let rows = s.tables.raw_command_payloads in
      let gone = gone_payload (record { cutoff = timestamptz cutoff; batch_size = n }) rows in
      (d ≡ count_if gone rows)
      × ((delete_expired_payloads cutoff n s).1.tables
          ≡ record s.tables { raw_command_payloads = select (λ r. not (gone r)) rows })
unfolding delete_expired_payloads delete_expired_raw_command_payloads
delete_expired_payloads-eq cutoff n s {d} h =
    let ps : List Piece = lit "delete expired raw command payloads" ∷ [] in
    let p : DeleteExpiredRawCommandPayloadsParams = record {
      cutoff = timestamptz cutoff;
      batch_size = n;
    } in
    let e = wrap_result-ok ps (delete_expired_raw_command_payloads p s).0 h in
    let (f, ran) = statement_ok _ s e in
    (ok_inj (sym e ∙ ap (λ r. r.0) ran), ap (λ r. r.1.tables) ran)

-- DeleteExpiredRawCommandPayloads does what the pruner expects of a batch, for the payloads
-- observed before the cutoff, while payload ids are unique: when it succeeds, the number it
-- returns and the expired payloads that are left add up to those that were there, it deleted as
-- many as it may or none is left, at most the batch size, and ids stay unique.
pub delete_expired_payloads-IsBatch :
    (cutoff : Time) → IsBatch PayloadKeys (expired_payloads cutoff) (delete_expired_payloads cutoff)
unfolding expired_payloads
delete_expired_payloads-IsBatch cutoff = record {
  deleted = λ n s {d} keys h.
      let (count, tables) = delete_expired_payloads-eq cutoff n s h in
      let rs = s.tables.raw_command_payloads in
      let expired = expired_payload (timestamptz cutoff) in
      let gone = gone_payload (record { cutoff = timestamptz cutoff; batch_size = n }) rs in
      let left = select (λ r. not (gone r)) rs in
      let rows : (delete_expired_payloads cutoff n s).1.tables.raw_command_payloads ≡ left =
        ap (λ t. t.raw_command_payloads) tables in
      let (sum, full, le) =
        batch_lem payload_id expired observed_before n rs keys gone (λ r. ground arith) in
      let d_eq = count ∙ batch-count payload_id expired observed_before n rs keys in
      let left_eq = ap (λ rows. count_if expired rows) rows in
      (
        subst (λ rows. HasKeys payload_id rows) (sym rows)
            (select-HasKeys payload_id (λ r. not (gone r)) rs keys),
        omega arith,
        omega arith,
        omega arith,
      );
}

-- A batch that succeeds leaves every run that did not start before the cutoff, in order, if run
-- ids are unique.
pub delete_expired_poll_runs-keeps :
    (cutoff : Time) (n : ℕ) (s : Session) {d : ℕ}
    → RunKeys s
    → (delete_expired_poll_runs cutoff n s).0 ≡ ok d
    → let live : PollRun → Bool = λ r. not (expired_run (timestamptz cutoff) r) in
      select live (delete_expired_poll_runs cutoff n s).1.tables.poll_runs
      ≡ select live s.tables.poll_runs
delete_expired_poll_runs-keeps cutoff n s keys h =
    let (count, tables) = delete_expired_poll_runs-eq cutoff n s keys h in
    let expired = expired_run (timestamptz cutoff) in
    ap (λ t. select (λ r. not (expired r)) t.poll_runs) tables
    ∙ select-keeps expired (listed_run cutoff n s keys) s.tables.poll_runs
        (batch_only run_id expired started_before n s.tables.poll_runs keys)
