-- ===== src/Config/Parse.antt =====
-- Parse of internal/config/config.go. Kong is a parameter: it reads the arguments and the
-- environment into the record, or fails.
use nebula_mnemosina.Prelude.{List, if◌then◌else◌, ◌≡◌, ◌↔◌, refl, arith, subst}
use nebula_mnemosina.Text.{Text, codes}
use nebula_mnemosina.Errors.{Result, ok, err, ◌>>=◌, ◌>>◌}
use nebula_mnemosina.Model.{Lighthouse}
use nebula_mnemosina.Config.{Cli, Config}
use nebula_mnemosina.Config.Lighthouses.{parse_lighthouses}
use nebula_mnemosina.Config.Validate.{
  validate_prometheus_sd, validate_retention, require_key, validate_ratio, HasKey, IsRatio,
  IsScrapable, IsRetainable, require_key_iff, validate_ratio_iff, validate_prometheus_sd_iff,
  validate_retention_iff,
}

unfoldable pub apply_debug : Cli → Cli
apply_debug cli = if cli.debug then record cli { log_level = codes "debug" } else cli

check_rest : Cli → List Lighthouse → Result Config
check_rest cli lighthouses = do
  require_key cli.ssh
  validate_ratio cli.otel.sample_ratio
  validate_prometheus_sd cli.prometheus_sd
  validate_retention cli.retention
  ok (record { cli = cli; lighthouse_targets = lighthouses })

-- Everything behind kong's parsing.
unfoldable pub check : Cli → Result Config
unfolding check_rest
check cli = do lighthouses ← parse_lighthouses cli.lighthouses; check_rest cli lighthouses

unfoldable pub parse : (List Text → Result Cli) → List Text → Result Config
unfolding apply_debug check
parse kong args = do cli ← kong args; check (apply_debug cli)

-- A configuration that passes every check, on its own fields.
abbrev pub IsAccepted : Config → Type 0
IsAccepted cfg =
    (parse_lighthouses cfg.cli.lighthouses ≡ ok cfg.lighthouse_targets)
    × HasKey cfg.cli.ssh
    × IsRatio cfg.cli.otel.sample_ratio
    × IsScrapable cfg.cli.prometheus_sd
    × IsRetainable cfg.cli.retention

then_ok :
    {B : Type 0} (m : Result (Unit {0})) (k : Result B) (b : B)
    → ((m >> k) ≡ ok b) ↔ ((m ≡ ok tt) × (k ≡ ok b))
then_ok (ok tt) k b = (λ h. (refl, h), λ (_, h). h)
then_ok (err e) k b = (λ h. absurd (ground arith), λ (h, _). absurd (ground arith))

bind_ok :
    {A B : Type 0} (m : Result A) (k : A → Result B) (b : B)
    → ((m >>= k) ≡ ok b) ↔ ((a : A) × (m ≡ ok a) × (k a ≡ ok b))
bind_ok (ok a) k b = (λ h. (a, refl, h), λ (x, e, h). ground arith)
bind_ok (err e) k b = (λ h. absurd (ground arith), λ (_, h, _). absurd (ground arith))

check_sound : (cli : Cli) (cfg : Config) → check cli ≡ ok cfg → (cfg.cli ≡ cli) × IsAccepted cfg
unfolding check
check_sound cli cfg h =
    let (ls, parsed, h0) =
      (bind_ok (parse_lighthouses cli.lighthouses) (λ ls. check_rest cli ls) cfg).0 h in
    let (key, h1) = (then_ok (require_key cli.ssh) _ cfg).0 h0 in
    let (ratio, h2) = (then_ok (validate_ratio cli.otel.sample_ratio) _ cfg).0 h1 in
    let (sd, h3) = (then_ok (validate_prometheus_sd cli.prometheus_sd) _ cfg).0 h2 in
    let (keep, h4) = (then_ok (validate_retention cli.retention) _ cfg).0 h3 in
    let same : record { cli = cli; lighthouse_targets = ls } ≡ cfg = ground arith in
    subst (λ (c : Config). (c.cli ≡ cli) × IsAccepted c) same
      (
        refl,
        (
          parsed,
          (require_key_iff cli.ssh).0 key,
          (validate_ratio_iff cli.otel.sample_ratio).0 ratio,
          (validate_prometheus_sd_iff cli.prometheus_sd).0 sd,
          (validate_retention_iff cli.retention).0 keep,
        ),
      )

check_complete : (cfg : Config) → IsAccepted cfg → check cfg.cli ≡ ok cfg
unfolding check
check_complete cfg (parsed, key, ratio, sd, keep) = rw (
  parsed,
  (require_key_iff cfg.cli.ssh).1 key,
  (validate_ratio_iff cfg.cli.otel.sample_ratio).1 ratio,
  (validate_prometheus_sd_iff cfg.cli.prometheus_sd).1 sd,
  (validate_retention_iff cfg.cli.retention).1 keep,
)

-- Parse returns a configuration exactly if kong read the arguments, the options are those that
-- kong read with the log level set to debug under `--debug`, the targets are the parsed
-- lighthouses, a key is given, the sample ratio is from 0 to 1 or not a number, and the scraping
-- and retention options are valid.
pub parse_iff :
    (kong : List Text → Result Cli) (args : List Text) (cfg : Config)
    → (parse kong args ≡ ok cfg)
      ↔ ((cli : Cli) × (kong args ≡ ok cli) × (cfg.cli ≡ apply_debug cli) × IsAccepted cfg)
unfolding parse
parse_iff kong args cfg = (
  λ h.
      let (cli, read, h') = (bind_ok (kong args) (λ cli. check (apply_debug cli)) cfg).0 h in
      let (same, good) = check_sound (apply_debug cli) cfg h' in (cli, read, same, good),
  λ (cli, read, same, good).
      (bind_ok (kong args) (λ c. check (apply_debug c)) cfg).1
        (cli, read, rw (← same) (check_complete cfg good)),
)
