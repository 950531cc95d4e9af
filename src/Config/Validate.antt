-- ===== src/Config/Validate.antt =====
-- validatePrometheusSD and validateRetention of internal/config/config.go, and the checks that
-- Parse makes in its own body.
use nebula_mnemosina.Prelude.{
  ◌^◌, ◌≤◌, Bool, true, false, ◌&&◌, ◌||◌, not, [], ◌∷◌, ◌≡◌, refl, arith, ◌↔◌, ◌⊎◌, inl, inr,
  Bool-cases, ltb, if◌then◌else◌,
}
use nebula_mnemosina.Prelude.Int.{pos, ltb_ℤ, ◌≤ℤ◌}
use nebula_mnemosina.Text.{codes, has_prefix, is_empty}
use nebula_mnemosina.Errors.{lit, errorf, Result, ok, err}
use nebula_mnemosina.Config.{
  Float, nan, infinite, finite, SshConfig, PrometheusSdConfig, RetentionConfig,
}

-- `ltb_ℤ a b` is Go's `a < b`.
unfoldable pub validate_prometheus_sd : PrometheusSdConfig → Result (Unit {0})
validate_prometheus_sd cfg =
    if not (ltb_ℤ (pos 0) cfg.port) || ltb_ℤ (pos 65535) cfg.port
    then err (errorf (lit "--prometheus-sd-port must be between 1 and 65535" ∷ []))
    else if not (has_prefix cfg.metrics_path (codes "/"))
    then err (errorf (lit "--prometheus-sd-metrics-path must start with /" ∷ []))
    else ok tt

unfoldable pub validate_retention : RetentionConfig → Result (Unit {0})
validate_retention cfg =
    if ltb_ℤ cfg.period (pos 0)
    then err (errorf (lit "--retention-period must not be negative" ∷ []))
    else if ltb_ℤ cfg.raw_period (pos 0)
    then err (errorf (lit "--retention-raw-period must not be negative" ∷ []))
    else if (ltb_ℤ (pos 0) cfg.period || ltb_ℤ (pos 0) cfg.raw_period)
        && not (ltb_ℤ (pos 0) cfg.interval)
    then err (errorf (lit "--retention-interval must be positive when retention is enabled" ∷ []))
    else ok tt

unfoldable pub require_key : SshConfig → Result (Unit {0})
require_key cfg =
    if is_empty cfg.key_file && is_empty cfg.private_key
    then err (errorf (lit "either --ssh-key-file or MNEMO_SSH_PRIVATE_KEY must be provided" ∷ []))
    else ok tt

-- `r < 0` on a float64; every comparison with NaN is false.
unfoldable pub below_zero : Float → Bool
below_zero nan = false
below_zero (infinite negative) = negative
below_zero (finite negative num scale) = negative && ltb 0 num

-- `r > 1`
unfoldable pub above_one : Float → Bool
above_one nan = false
above_one (infinite negative) = not negative
above_one (finite negative num scale) = not negative && ltb (2 ^ scale) num

unfoldable pub validate_ratio : Float → Result (Unit {0})
unfolding below_zero above_one
validate_ratio ratio =
    if below_zero ratio || above_one ratio
    then err (errorf (lit "--otel-sample-ratio must be between 0.0 and 1.0" ∷ []))
    else ok tt

-- A port from 1 to 65535, and a path that starts with a slash.
abbrev pub IsScrapable : PrometheusSdConfig → Type 0
IsScrapable cfg =
    (pos 1 ≤ℤ cfg.port) × (cfg.port ≤ℤ pos 65535) × (has_prefix cfg.metrics_path (codes "/") ≡ true)

-- Neither period is negative, and the interval is positive if a period is.
abbrev pub IsRetainable : RetentionConfig → Type 0
IsRetainable cfg =
    (pos 0 ≤ℤ cfg.period)
    × (pos 0 ≤ℤ cfg.raw_period)
    × ((pos 1 ≤ℤ cfg.period) ⊎ (pos 1 ≤ℤ cfg.raw_period) → pos 1 ≤ℤ cfg.interval)

-- A key is given in a file or in the environment.
abbrev pub HasKey : SshConfig → Type 0
HasKey cfg = (is_empty cfg.key_file ≡ false) ⊎ (is_empty cfg.private_key ≡ false)

-- From 0 to 1, or not a number at all.
abbrev pub IsRatio : Float → Type 0
IsRatio nan = Unit
IsRatio (infinite negative) = ⊥
IsRatio (finite true num scale) = num ≡ 0
IsRatio (finite false num scale) = num ≤ 2 ^ scale

pub require_key_iff : (cfg : SshConfig) → (require_key cfg ≡ ok tt) ↔ HasKey cfg
unfolding require_key
require_key_iff cfg = elim (Bool-cases (is_empty cfg.key_file)) [
  | inr a ↦ (λ h. inl a, λ h. ground arith)
  | inl a ↦ elim (Bool-cases (is_empty cfg.private_key)) [
    | inl b ↦ (λ h. ground arith, λ h. ground arith)
    | inr b ↦ (λ h. inr b, λ h. ground arith)
  ]
]

-- The sample ratio is accepted exactly if it is from 0 to 1 or not a number.
pub validate_ratio_iff : (ratio : Float) → (validate_ratio ratio ≡ ok tt) ↔ IsRatio ratio
unfolding validate_ratio
validate_ratio_iff nan = (λ h. tt, λ h. refl)
validate_ratio_iff (infinite true) = (λ h. ground arith, λ h. absurd h)
validate_ratio_iff (infinite false) = (λ h. ground arith, λ h. absurd h)
validate_ratio_iff (finite true num scale) = (λ h. ground arith, λ h. ground arith)
validate_ratio_iff (finite false num scale) = (λ h. ground arith, λ h. ground arith)

-- The scraping options are accepted exactly if the port is from 1 to 65535 and the path starts with
-- a slash.
pub validate_prometheus_sd_iff :
    (cfg : PrometheusSdConfig) → (validate_prometheus_sd cfg ≡ ok tt) ↔ IsScrapable cfg
unfolding validate_prometheus_sd
validate_prometheus_sd_iff cfg = (λ h. ground arith, λ h. ground arith)

-- The retention options are accepted exactly if neither period is negative and the interval is
-- positive if a period is.
pub validate_retention_iff :
    (cfg : RetentionConfig) → (validate_retention cfg ≡ ok tt) ↔ IsRetainable cfg
unfolding validate_retention
validate_retention_iff cfg = (λ h. ground arith, λ h. ground arith)
