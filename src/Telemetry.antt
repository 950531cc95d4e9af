-- ===== src/Telemetry.antt =====
-- Init of internal/telemetry/telemetry.go: the exporter's options and the errors. The exporter and the
-- resource are made by the OpenTelemetry libraries, given by what they return.
use nebula_mnemosina.Prelude.{◌||◌, List, [], ◌∷◌, Option, none, some, if◌then◌else◌}
use nebula_mnemosina.Text.{Text, codes, has_prefix}
use nebula_mnemosina.Errors.{Error, Result, ok, err}
use nebula_mnemosina.Config.{Float, OtelConfig}

pub data ExporterOption : Type 0 where
  with_endpoint_url with_endpoint : Text → ExporterOption
  with_insecure : ExporterOption

-- What Init leaves: nothing; or a provider, with its exporter's options, service name and ratio, that
-- the shutdown function ends.
pub data Provider : Type 0 where
  absent : Provider
  provider : (options : List ExporterOption) (service_name : Text) (sample_ratio : Float) → Provider

unfoldable pub exporter_options : Text → List ExporterOption
exporter_options endpoint =
    if has_prefix endpoint (codes "http://") || has_prefix endpoint (codes "https://")
    then with_endpoint_url endpoint ∷ []
    else with_endpoint endpoint ∷ with_insecure ∷ []

-- otlptracehttp.New and resource.New; `none` is success.
module _ (new_exporter : List ExporterOption → Option Error)
    (new_resource : Text → Option Error) where
  unfoldable pub with_resource : OtelConfig → Option Error → Result Provider
  with_resource cfg (some e) = err e
  with_resource cfg none =
      ok (provider (exporter_options cfg.endpoint) cfg.service_name cfg.sample_ratio)

  unfoldable pub with_exporter : OtelConfig → Option Error → Result Provider
  unfolding with_resource
  with_exporter cfg (some e) = err e
  with_exporter cfg none = with_resource cfg (new_resource cfg.service_name)

  unfoldable pub init : OtelConfig → Result Provider
  unfolding with_exporter
  init cfg =
      if cfg.enabled
      then with_exporter cfg (new_exporter (exporter_options cfg.endpoint))
      else ok absent
