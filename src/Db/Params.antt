-- ===== src/Db/Params.antt =====
-- The parameter records of internal/db/poll_runs.sql.go and internal/db/retention.sql.go.
use nebula_mnemosina.Prelude.{ℕ, String, Bool}
use nebula_mnemosina.Prelude.Int.{ℤ}
use nebula_mnemosina.Text.{Text}
use nebula_mnemosina.Time.{Time}
use nebula_mnemosina.Model.{Slice}
use nebula_mnemosina.Db.{Nullable}

pub record CreatePollRunParams : Type 0 where
  pub started_at : Nullable Time
  pub lighthouse_name : Text
  pub ssh_target : Text

pub record CompletePollRunParams : Type 0 where
  pub id : ℕ
  pub finished_at : Nullable Time
  pub success : Bool
  pub duration_ms : ℤ
  pub error : Nullable Text
  pub nebula_version : Nullable Text
  pub device_name : Nullable Text
  pub device_cidrs : Slice Text
  pub command_count : ℤ

pub record InsertRawCommandPayloadParams : Type 0 where
  pub poll_run_id : ℕ
  pub observed_at : Nullable Time
  pub lighthouse_name : Text
  pub command : Text
  pub success : Bool
  pub duration_ms : ℤ
  pub output : Text
  pub error : Nullable Text

pub record InsertHostmapEntryParams : Type 0 where
  pub poll_run_id : ℕ
  pub observed_at : Nullable Time
  pub lighthouse_name : Text
  pub source : String
  pub entry_index : ℤ
  pub vpn_addrs : Slice Text
  pub primary_vpn_addr : Nullable Text
  pub local_index : ℤ
  pub remote_index : ℤ
  pub remote_addrs : Slice Text
  pub message_counter : ℤ
  pub current_remote : Text
  pub current_relays_to_me : Slice Text
  pub current_relays_through_me : Slice Text
  pub cert_curve : Nullable Text
  pub cert_name : Nullable Text
  pub cert_fingerprint : Nullable Text
  pub cert_public_key : Nullable Text
  pub cert_signature : Nullable Text
  pub cert_version : Nullable ℤ
  pub cert_groups : Slice Text
  pub cert_is_ca : Nullable Bool
  pub cert_issuer : Nullable Text
  pub cert_networks : Slice Text
  pub cert_unsafe_networks : Slice Text
  pub cert_not_before : Nullable Time
  pub cert_not_after : Nullable Time
  pub raw : Slice ℕ

pub record InsertLighthouseAddrmapEntryParams : Type 0 where
  pub poll_run_id : ℕ
  pub observed_at : Nullable Time
  pub lighthouse_name : Text
  pub vpn_addr : Text
  pub reporter_vpn_addr : Nullable Text
  pub learned_addrs : Slice Text
  pub reported_addrs : Slice Text
  pub relay_vpn_addrs : Slice Text
  pub raw : Slice ℕ

pub record InsertRelaySnapshotParams : Type 0 where
  pub poll_run_id : ℕ
  pub observed_at : Nullable Time
  pub lighthouse_name : Text
  pub relays : Slice ℕ

pub record DeleteExpiredRawCommandPayloadsParams : Type 0 where
  pub cutoff : Nullable Time
  pub batch_size : ℕ

pub record ListExpiredPollRunIdsParams : Type 0 where
  pub started_at : Nullable Time
  pub limit : ℕ
