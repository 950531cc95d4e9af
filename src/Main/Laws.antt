-- ===== src/Main/Laws.antt =====
-- What run of cmd/nebula-mnemosina/main.go returns.
use nebula_mnemosina.Prelude.{
  String, true, false, [], ◌∷◌, Option, none, some, ◌≡◌, ◌↔◌, ◌⊎◌, inl, inr, refl, subst, arith,
  Bool-cases,
}
use nebula_mnemosina.Errors.{Error, is_canceled, Result, ok, err}
use nebula_mnemosina.Config.{Config}
use nebula_mnemosina.Migrate.{Options}
use nebula_mnemosina.Main.{
  Calls, migrated, Outcome, doing, or_fail, hide_canceled, run_service, run_ready, run_migrations,
  run_pool, run_telemetry, run_config, start_with, run,
}

abbrev pub timescale_option : Config → Options
timescale_option cfg = record { enable_timescale = cfg.cli.database_enable_timescale }

-- Everything up to the migrations succeeds, and they too if they are asked for.
abbrev pub IsPrepared : Calls → Config → Type 0
IsPrepared c cfg =
    (c.parse_level cfg.cli.log_level ≡ none)
    × (c.init_telemetry cfg.cli.otel ≡ none)
    × (c.open_pool cfg.cli.database_url ≡ none)
    × ((cfg.cli.migrate ≡ false) ⊎ (c.migrate (timescale_option cfg) ≡ none))

or_fail_iff :
    (text : String) (e : Option Error) (next : Outcome)
    → ((or_fail text e next).0 ≡ none) ↔ ((e ≡ none) × (next.0 ≡ none))
or_fail_iff text none next = (λ h. (refl, h), λ (e, h). h)
or_fail_iff text (some e) next = (λ h. absurd (ground arith), λ (x, h). absurd (ground arith))

hide_canceled_iff :
    (e : Option Error)
    → (hide_canceled e ≡ none)
      ↔ ((e ≡ none) ⊎ ((x : Error) × (e ≡ some x) × (is_canceled x ≡ true)))
unfolding hide_canceled
hide_canceled_iff none = (λ h. inl refl, λ h. refl)
hide_canceled_iff (some x) = ground arith

module _ (c : Calls) (cfg : Config) where
  run_migrations_iff : ((run_migrations c cfg).0 ≡ none) ↔ (
      ((cfg.cli.migrate ≡ false) ⊎ (c.migrate (timescale_option cfg) ≡ none))
      × ((run_ready c cfg).0 ≡ none))
  unfolding run_migrations
  run_migrations_iff = elim (Bool-cases cfg.cli.migrate) [
    | inl e ↦ rw e (
        ground (
          arith,
          or_fail_iff "run migrations" (c.migrate (timescale_option cfg))
              (doing (migrated ∷ []) (run_ready c cfg)),
        ))
    | inr e ↦ rw e (ground arith)
  ]

  -- The service ended without an error, or with the end of the context.
  abbrev pub EndsWell : Type 0
  EndsWell =
      (c.new_ssh_client cfg.cli.ssh ≡ none)
      × ((c.run_service ≡ none) ⊎ ((x : Error) × (c.run_service ≡ some x) × (is_canceled x ≡ true)))

  run_ready_iff : ((run_ready c cfg).0 ≡ none) ↔ EndsWell
  unfolding run_ready run_service
  run_ready_iff =
      let (to, back) =
        or_fail_iff "initialize ssh client" (c.new_ssh_client cfg.cli.ssh) (run_service c cfg) in
      let (hto, hback) = hide_canceled_iff c.run_service in
      (λ h. let (e, s) = to h in (e, hto s), λ (e, s). back (e, hback s))

  run_config_iff : ((run_config c cfg).0 ≡ none) ↔ (IsPrepared c cfg × EndsWell)
  unfolding run_config run_telemetry run_pool
  run_config_iff =
      let (to1, back1) = or_fail_iff "parse log level" (c.parse_level cfg.cli.log_level) _ in
      let (to2, back2) = or_fail_iff "initialize telemetry" (c.init_telemetry cfg.cli.otel) _ in
      let (to3, back3) = or_fail_iff "connect database" (c.open_pool cfg.cli.database_url) _ in
      let (to4, back4) = run_migrations_iff in
      let (to5, back5) = run_ready_iff in
      (
        λ h.
            let (e1, h1) = to1 h in
            let (e2, h2) = to2 h1 in
            let (e3, h3) = to3 h2 in let (e4, h4) = to4 h3 in ((e1, e2, e3, e4), to5 h4),
        λ ((e1, e2, e3, e4), w). back1 (e1, back2 (e2, back3 (e3, back4 (e4, back5 w)))),
      )

-- The program ends without an error exactly if the options are parsed, every step of the start
-- succeeds, the migrations too if they are asked for, and the service ends without an error or by the
-- end of the context.
pub run_none_iff :
    (c : Calls)
    → ((run c).0 ≡ none) ↔ ((cfg : Config) × (c.parse ≡ ok cfg) × IsPrepared c cfg × EndsWell c cfg)
unfolding run
run_none_iff c = start_iff c.parse
  where
    start_iff :
        (r : Result Config)
        → ((start_with c r).0 ≡ none)
          ↔ ((cfg : Config) × (r ≡ ok cfg) × IsPrepared c cfg × EndsWell c cfg)
    start_iff (err e) = (λ h. absurd (ground arith), λ (g, h, x, y). absurd (ground arith))
    start_iff (ok cfg) =
        let (to, back) = run_config_iff c cfg in
        (
          λ h. let (p, w) = to h in (cfg, refl, p, w),
          λ (g, e, p, w).
              let same : g ≡ cfg = ground (arith, e) in
              back (subst (IsPrepared c) same p, subst (EndsWell c) same w),
        )
