-- ===== src/Db/Views.antt =====
-- The materialized views of db/migrations/views/001_grafana_views.sql: their rows, as in
-- internal/db/models.go; Queries has what each selects. The functions of PostgreSQL that they call,
-- and the type of a float, are parameters.
pub mod Queries
pub mod Refresh
pub mod Keys
pub mod Latest
pub mod Health
pub mod Disagreement
use text.Mathlib.Text.{◌==◌ as str_eq}
use nebula_mnemosina.Prelude.{
  ℕ, Bool, true, false, ◌||◌, ◌&&◌, not, List, [], ◌∷◌, ◌++◌, Option, none, some, ◌==◌, map, length,
  ltb, if◌then◌else◌,
}
use nebula_mnemosina.Prelude.Int.{ℤ, ltb_ℤ}
use nebula_mnemosina.Prelude.Eq.{Eq, int_eq, option_eq, pair_eq}
use nebula_mnemosina.Text.{Text}
use nebula_mnemosina.Text.Laws.{texts_eq}
use nebula_mnemosina.Time.{Time, earlier}
use nebula_mnemosina.Db.{PollRun, HostmapRow, AddrmapRow, Tables}
use nebula_mnemosina.Db.Select.{select, count_if, order_by, distinct_on, same_by, group_by}
use nebula_mnemosina.Db.Peers.{coalesce, peer_key}

-- date_bin on five minutes, percentile_cont(0.95), the text of an array, and the collation.
pub record Functions (F : Type 0) : Type 0 where
  pub date_bin : Time → Time
  pub percentile : List ℤ → F
  pub array_text : List Text → Text
  pub collate : Text → Text → Bool

pub record MnemoCurrentPeer : Type 0 where
  pub observed_at : Time
  pub lighthouse_name : Text
  pub peer_key : Option Text
  pub primary_vpn_addr : Option Text
  pub vpn_addrs : List Text
  pub cert_name : Option Text
  pub cert_fingerprint : Option Text
  pub cert_groups : List Text
  pub cert_networks : List Text
  pub cert_unsafe_networks : List Text
  pub cert_not_before : Option Time
  pub cert_not_after : Option Time
  pub current_remote : Text
  pub remote_addrs : List Text
  pub message_counter : ℤ
  pub local_index : ℤ
  pub remote_index : ℤ
  pub nebula_version : Option Text

pub record MnemoCurrentLighthouseAddrmap : Type 0 where
  pub observed_at : Time
  pub lighthouse_name : Text
  pub vpn_addr : Text
  pub reporter_vpn_addr : Option Text
  pub learned_addrs : List Text
  pub reported_addrs : List Text
  pub relay_vpn_addrs : List Text

pub record MnemoPollHealth5m (F : Type 0) : Type 0 where
  pub bucket : Time
  pub lighthouse_name : Text
  pub polls : ℕ
  pub successful_polls : ℕ
  pub failed_polls : ℕ
  pub p95_duration_ms : F
  pub latest_poll_at : Option Time

pub record MnemoPeerCertInventory : Type 0 where
  pub observed_at : Time
  pub peer_key : Option Text
  pub primary_vpn_addr : Option Text
  pub vpn_addrs : List Text
  pub cert_name : Option Text
  pub cert_fingerprint : Option Text
  pub cert_public_key : Option Text
  pub cert_groups : List Text
  pub cert_networks : List Text
  pub cert_unsafe_networks : List Text
  pub cert_not_before : Option Time
  pub cert_not_after : Option Time

pub record MnemoLighthouseDisagreement : Type 0 where
  pub vpn_addr : Text
  pub lighthouses_reporting : ℕ
  pub distinct_learned_sets : ℕ
  pub learned_by_lighthouse : List Text
  pub latest_observed_at : Option Time
