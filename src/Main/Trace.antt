-- ===== src/Main/Trace.antt =====
-- The actions of run of cmd/nebula-mnemosina/main.go: readiness, and what is opened and closed.
use nebula_mnemosina.Prelude.{
  String, Bool, true, false, ◌||◌, List, [], ◌∷◌, ◌++◌, Option, none, some, ◌≡◌, ◌↔◌, ◌⊎◌, inl, inr,
  refl, sym, ap, subst, ◌∙◌, arith, Bool-cases, Option-cases, if◌then◌else◌,
}
use nebula_mnemosina.Errors.{Error, Result, ok, err}
use nebula_mnemosina.Config.{Config}
use nebula_mnemosina.Main.{
  Calls, Action, telemetry_started, telemetry_stopped, pool_opened, pool_closed, http_started,
  migrated, ready_set, Outcome, doing, or_fail, run_service, run_ready, run_migrations, run_pool,
  run_telemetry, run_config, start_with, run,
}
use nebula_mnemosina.Main.Laws.{timescale_option, IsPrepared}

abbrev pub is_ready_set : Action → Bool
is_ready_set ready_set = true
is_ready_set _ = false

-- The actions that open or close something.
abbrev pub is_resource : Action → Bool
is_resource telemetry_started = true
is_resource telemetry_stopped = true
is_resource pool_opened = true
is_resource pool_closed = true
is_resource _ = false

abbrev pub any : (Action → Bool) → List Action → Bool
any p [] = false
any p (a ∷ rest) = p a || any p rest

or_fail-any :
    (p : Action → Bool) (text : String) (e : Option Error) (next : Outcome)
    → (any p (or_fail text e next).1 ≡ true) ↔ ((e ≡ none) × (any p next.1 ≡ true))
or_fail-any p text none next = (λ h. (refl, h), λ (e, h). h)
or_fail-any p text (some e) next = (λ h. absurd (ground arith), λ (x, h). absurd (ground arith))

any-append : (p : Action → Bool) (xs ys : List Action) → any p (xs ++ ys) ≡ (any p xs || any p ys)
any-append p [] ys = refl
any-append p (x ∷ xs) ys = ground (arith, any-append p xs ys)

any_last :
    (p : Action → Bool) (xs : List Action) (a : Action)
    → p a ≡ false
    → any p (xs ++ a ∷ []) ≡ any p xs
any_last p [] a h = rw h refl
any_last p (x ∷ xs) a h = ap (λ b. p x || b) (any_last p xs a h)

or_fail_free :
    (p : Action → Bool) (text : String) (e : Option Error) (next : Outcome)
    → any p next.1 ≡ false
    → any p (or_fail text e next).1 ≡ false
or_fail_free p text none next h = h
or_fail_free p text (some e) next h = refl

module _ (c : Calls) (cfg : Config) where
  ready_is_ready : any is_ready_set (run_ready c cfg).1 ≡ true
  unfolding run_ready
  ready_is_ready = refl

  migrations_ready :
      (any is_ready_set (run_migrations c cfg).1 ≡ true)
      ↔ ((cfg.cli.migrate ≡ false) ⊎ (c.migrate (timescale_option cfg) ≡ none))
  unfolding run_migrations
  migrations_ready = elim (Bool-cases cfg.cli.migrate) [
    | inl e ↦ rw e (
        ground (
          arith,
          or_fail-any is_ready_set "run migrations" (c.migrate (timescale_option cfg))
              (doing (migrated ∷ []) (run_ready c cfg)),
          ready_is_ready,
        ))
    | inr e ↦ rw e ((λ h. inl refl), λ h. ready_is_ready)
  ]

  pool_ready : any is_ready_set (run_pool c cfg).1 ≡ any is_ready_set (run_migrations c cfg).1
  unfolding run_pool
  pool_ready = elim (Bool-cases cfg.cli.http.enabled) [
    | inl e ↦ rw e (any_last is_ready_set (run_migrations c cfg).1 pool_closed refl)
    | inr e ↦ rw e (any_last is_ready_set (run_migrations c cfg).1 pool_closed refl)
  ]

  config_ready : (any is_ready_set (run_config c cfg).1 ≡ true) ↔ IsPrepared c cfg
  unfolding run_config run_telemetry
  config_ready =
      let (to1, back1) =
        or_fail-any is_ready_set "parse log level" (c.parse_level cfg.cli.log_level) _ in
      let (to2, back2) =
        or_fail-any is_ready_set "initialize telemetry" (c.init_telemetry cfg.cli.otel) _ in
      let (to3, back3) =
        or_fail-any is_ready_set "connect database" (c.open_pool cfg.cli.database_url)
          (run_pool c cfg) in
      let (to4, back4) = migrations_ready in
      let last =
        any_last is_ready_set
          (or_fail "connect database" (c.open_pool cfg.cli.database_url) (run_pool c cfg)).1
          telemetry_stopped refl in
      (
        λ h.
            let (e1, h1) = to1 h in
            let (e2, h2) = to2 h1 in
            let (e3, h3) = to3 (sym last ∙ h2) in (e1, e2, e3, to4 (sym pool_ready ∙ h3)),
        λ (e1, e2, e3, e4). back1 (e1, back2 (e2, last ∙ back3 (e3, pool_ready ∙ back4 e4))),
      )

-- /readyz is let through exactly if every step of the start succeeds, and the migrations too if they
-- are asked for.
pub run_ready_set_iff :
    (c : Calls)
    → (any is_ready_set (run c).1 ≡ true) ↔ ((cfg : Config) × (c.parse ≡ ok cfg) × IsPrepared c cfg)
unfolding run start_with
run_ready_set_iff c = start_iff c.parse
  where
    start_iff :
        (r : Result Config)
        → (any is_ready_set (start_with c r).1 ≡ true)
          ↔ ((cfg : Config) × (r ≡ ok cfg) × IsPrepared c cfg)
    start_iff (err e) = ((λ h. absurd (ground arith)), λ (g, h, x). absurd (ground arith))
    start_iff (ok cfg) =
        let (to, back) = config_ready c cfg in
        (
          λ h. (cfg, refl, to h),
          λ (g, e, p). let same : g ≡ cfg = ground (arith, e) in back (subst (IsPrepared c) same p),
        )

-- Between `opened` and `closed`.
abbrev pub IsEnclosed : Action → Action → List Action → List Action → Type 0
IsEnclosed opened closed inner actions = actions ≡ opened ∷ (inner ++ closed ∷ [])

-- Nothing is opened; or telemetry, and within it at most the pool; and both are closed at the end.
abbrev pub IsClosed : List Action → Type 0
IsClosed actions =
    (actions ≡ [])
    ⊎ ((outer : List Action) × IsEnclosed telemetry_started telemetry_stopped outer actions
        × ((outer ≡ [])
            ⊎ ((inner : List Action) × IsEnclosed pool_opened pool_closed inner outer
                × (any is_resource inner ≡ false))))

http_free :
    (enabled : Bool) (rest : List Action)
    → any is_resource rest ≡ false
    → any is_resource ((if enabled then http_started ∷ [] else []) ++ rest) ≡ false
http_free true rest h = h
http_free false rest h = h

module _ (c : Calls) (cfg : Config) where
  service_free : any is_resource (run_service c cfg).1 ≡ false
  unfolding run_service
  service_free = elim (Bool-cases cfg.cli.once) [ inl e ↦ rw e refl | inr e ↦ rw e refl ]

  ready_free : any is_resource (run_ready c cfg).1 ≡ false
  unfolding run_ready
  ready_free =
      or_fail_free is_resource "initialize ssh client" (c.new_ssh_client cfg.cli.ssh)
        (run_service c cfg) service_free

  migrations_free : any is_resource (run_migrations c cfg).1 ≡ false
  unfolding run_migrations
  migrations_free = elim (Bool-cases cfg.cli.migrate) [
    | inl e ↦ rw e (
        or_fail_free is_resource "run migrations" (c.migrate (timescale_option cfg))
          (doing (migrated ∷ []) (run_ready c cfg)) ready_free)
    | inr e ↦ rw e ready_free
  ]

  connect_closed :
      (e : Option Error)
      → let outer = (or_fail "connect database" e (run_pool c cfg)).1 in
        (outer ≡ [])
        ⊎ ((inner : List Action) × IsEnclosed pool_opened pool_closed inner outer
            × (any is_resource inner ≡ false))
  unfolding run_pool
  connect_closed none =
      inr (_, refl, http_free cfg.cli.http.enabled (run_migrations c cfg).1 migrations_free)
  connect_closed (some e) = inl refl

  telemetry-IsClosed :
      (e : Option Error) → IsClosed (or_fail "initialize telemetry" e (run_telemetry c cfg)).1
  unfolding run_telemetry
  telemetry-IsClosed none = inr (_, refl, connect_closed (c.open_pool cfg.cli.database_url))
  telemetry-IsClosed (some e) = inl refl

  config-IsClosed : IsClosed (run_config c cfg).1
  unfolding run_config
  config-IsClosed = elim (Option-cases (c.parse_level cfg.cli.log_level)) [
    | inl e ↦ rw e (telemetry-IsClosed (c.init_telemetry cfg.cli.otel))
    | inr (x, e) ↦ rw e (inl refl)
  ]

-- However the program ends, it has closed what it opened, in the reverse order, as its last actions.
pub run-IsClosed : (c : Calls) → IsClosed (run c).1
unfolding run start_with
run-IsClosed c = go c.parse
  where
    go : (r : Result Config) → IsClosed (start_with c r).1
    go (err e) = inl refl
    go (ok cfg) = config-IsClosed c cfg
