-- ===== src/Main.antt =====
-- run of cmd/nebula-mnemosina/main.go: what it starts and stops, in order, and what it returns. The
-- calls of the other packages are given by what they return; log lines and the signals, which end the
-- context, are left out.
pub mod Laws
pub mod Trace
use nebula_mnemosina.Prelude.{
  String, Bool, true, false, List, [], ◌∷◌, ◌++◌, Option, none, some, if◌then◌else◌,
}
use nebula_mnemosina.Text.{Text}
use nebula_mnemosina.Errors.{Piece, lit, Error, wrap, is_canceled, Result, ok, err}
use nebula_mnemosina.Config.{Config, OtelConfig, SshConfig}
use nebula_mnemosina.Migrate.{Options}

-- config.Parse, charmLog.ParseLevel, telemetry.Init, pgxpool.New, migrate.Run, sshclient.New, and
-- service.Run. `none` is success.
pub record Calls : Type 0 where
  pub parse : Result Config
  pub parse_level : Text → Option Error
  pub init_telemetry : OtelConfig → Option Error
  pub open_pool : Text → Option Error
  pub migrate : Options → Option Error
  pub new_ssh_client : SshConfig → Option Error
  pub run_service : Option Error

pub data Action : Type 0 where
  telemetry_started telemetry_stopped pool_opened pool_closed http_started : Action
  migrated ready_set retention_started service_run : Action

abbrev pub Outcome : Type 0
Outcome = Option Error × List Action

abbrev pub doing : List Action → Outcome → Outcome
doing actions r = (r.0, actions ++ r.1)

-- `if err != nil { return fmt.Errorf("…: %w", err) }`, and what follows it.
abbrev pub or_fail : String → Option Error → Outcome → Outcome
or_fail text none next = next
or_fail text (some e) next = (some (wrap (lit text ∷ []) e), [])

-- `defer`
abbrev pub deferring : Action → Outcome → Outcome
deferring action r = (r.0, r.1 ++ action ∷ [])

unfoldable pub hide_canceled : Option Error → Option Error
hide_canceled none = none
hide_canceled (some e) = if is_canceled e then none else some e

module _ (c : Calls) (cfg : Config) where
  unfoldable pub run_service : Outcome
  unfolding hide_canceled
  run_service =
      doing ((if cfg.cli.once then [] else retention_started ∷ []) ++ service_run ∷ [])
        (hide_canceled c.run_service, [])

  unfoldable pub run_ready : Outcome
  unfolding run_service
  run_ready =
      doing (ready_set ∷ [])
        (or_fail "initialize ssh client" (c.new_ssh_client cfg.cli.ssh) run_service)

  unfoldable pub run_migrations : Outcome
  unfolding run_ready
  run_migrations =
      if cfg.cli.migrate
      then or_fail "run migrations"
          (c.migrate (record { enable_timescale = cfg.cli.database_enable_timescale }))
          (doing (migrated ∷ []) run_ready)
      else run_ready

  unfoldable pub run_pool : Outcome
  unfolding run_migrations
  run_pool = doing (pool_opened ∷ []) (
      deferring pool_closed
        (doing (if cfg.cli.http.enabled then http_started ∷ [] else []) run_migrations))

  unfoldable pub run_telemetry : Outcome
  unfolding run_pool
  run_telemetry = doing (telemetry_started ∷ []) (
      deferring telemetry_stopped
        (or_fail "connect database" (c.open_pool cfg.cli.database_url) run_pool))

  unfoldable pub run_config : Outcome
  unfolding run_telemetry
  run_config =
      or_fail "parse log level" (c.parse_level cfg.cli.log_level)
        (or_fail "initialize telemetry" (c.init_telemetry cfg.cli.otel) run_telemetry)

unfoldable pub start_with : Calls → Result Config → Outcome
unfolding run_config
start_with c (err e) = (some e, [])
start_with c (ok cfg) = run_config c cfg

unfoldable pub run : Calls → Outcome
unfolding start_with
run c = start_with c c.parse
