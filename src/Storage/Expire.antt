-- ===== src/Storage/Expire.antt =====
-- DeleteExpiredPollRuns and DeleteExpiredRawCommandPayloads of internal/storage/storage.go.
pub mod Batches
pub mod IsBatch
pub mod References
use nebula_mnemosina.Prelude.{ℕ, List, [], ◌∷◌}
use nebula_mnemosina.Time.{Time}
use nebula_mnemosina.Errors.{Piece, lit}
use nebula_mnemosina.Db.{Query, pure, ◌>>=◌, wrapping}
use nebula_mnemosina.Db.Retention.{
  list_expired_poll_run_ids, delete_poll_runs, delete_expired_raw_command_payloads,
}
use nebula_mnemosina.Storage.{timestamptz}

-- `if len(ids) == 0 { return 0, nil }` and what follows it.
unfoldable pub delete_listed : List ℕ → Query ℕ
delete_listed [] = pure 0
delete_listed (id ∷ ids) =
    wrapping (lit "delete expired poll runs" ∷ []) (delete_poll_runs (id ∷ ids))

unfoldable pub delete_expired_poll_runs : Time → ℕ → Query ℕ
delete_expired_poll_runs cutoff batch_size = do
  ids ←
      wrapping (lit "list expired poll runs" ∷ [])
        (list_expired_poll_run_ids (record { started_at = timestamptz cutoff; limit = batch_size }))
  delete_listed ids

unfoldable pub delete_expired_payloads : Time → ℕ → Query ℕ
delete_expired_payloads cutoff batch_size =
    wrapping (lit "delete expired raw command payloads" ∷ []) (
      delete_expired_raw_command_payloads
        (record { cutoff = timestamptz cutoff; batch_size = batch_size }))
