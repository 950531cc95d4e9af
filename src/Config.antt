-- ===== src/Config.antt =====
-- internal/config/config.go: the records of the command line. Kong's tags (defaults, help,
-- environment names) are read by that library alone and are not modelled.
pub mod Lighthouses
pub mod Validate
pub mod Parse
use nebula_mnemosina.Prelude.{ℕ, Bool, List}
use nebula_mnemosina.Prelude.Int.{ℤ}
use nebula_mnemosina.Text.{Text}
use nebula_mnemosina.Time.{Duration}
use nebula_mnemosina.Model.{Lighthouse}

-- A float64: not a number, an infinity, or `num / 2 ^ scale` with a sign.
pub data Float : Type 0 where
  nan : Float
  infinite : (negative : Bool) → Float
  finite : (negative : Bool) (num scale : ℕ) → Float

pub record SshConfig : Type 0 where
  pub key_file : Text
  pub private_key : Text
  pub key_passphrase : Text
  pub known_hosts_path : Text
  pub host_key_mode : Text
  pub timeout : Duration

pub record HttpConfig : Type 0 where
  pub enabled : Bool
  pub address : Text

pub record PrometheusSdConfig : Type 0 where
  pub port : ℤ
  pub metrics_path : Text

pub record RetentionConfig : Type 0 where
  pub period : Duration
  pub raw_period : Duration
  pub interval : Duration

pub record OtelConfig : Type 0 where
  pub enabled : Bool
  pub service_name : Text
  pub endpoint : Text
  pub sample_ratio : Float

pub record Cli : Type 0 where
  pub database_url : Text
  pub database_enable_timescale : Bool
  pub migrate : Bool
  pub refresh_views : Bool
  pub data_dir : Text
  pub lighthouses : List Text
  pub poll_interval : Duration
  pub poll_timeout : Duration
  pub poll_jitter : Duration
  pub once : Bool
  pub debug : Bool
  pub log_level : Text
  pub ssh : SshConfig
  pub http : HttpConfig
  pub otel : OtelConfig
  pub prometheus_sd : PrometheusSdConfig
  pub retention : RetentionConfig

-- Go's embedded struct `CLI` is the field `cli`.
pub record Config : Type 0 where
  pub cli : Cli
  pub lighthouse_targets : List Lighthouse
