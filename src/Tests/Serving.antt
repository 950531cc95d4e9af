-- ===== src/Tests/Serving.antt =====
-- The endpoints, the migrations and the start of the program.
use text.Mathlib.Text.{◌==◌ as str_eq}
use nebula_mnemosina.Prelude.{
  if◌then◌else◌, String, true, false, List, [], ◌∷◌, Option, none, some, ◌≡◌, ◌↔◌, ◌⊎◌,
}
use nebula_mnemosina.Text.{Text, codes}
use nebula_mnemosina.Errors.{lit, Error, canceled, wrap, Result, ok}
use nebula_mnemosina.Config.{Config}
use nebula_mnemosina.HttpServer.{TargetGroup}
use nebula_mnemosina.HttpServer.Handlers.{Store, prometheus_sd_handler}
use nebula_mnemosina.HttpServer.Handlers.Laws.{HasGroups, IsRead, prometheus_sd_handler_iff}
use nebula_mnemosina.Migrate.{Options, Tern, run}
use nebula_mnemosina.Migrate.Laws.{sets, Applied, run_applies}
use nebula_mnemosina.Main
use nebula_mnemosina.Main.{Calls}
use nebula_mnemosina.Main.Laws.{IsPrepared, EndsWell, run_none_iff}
use nebula_mnemosina.Main.Trace.{any, is_ready_set, IsClosed, run_ready_set_iff, run-IsClosed}
use nebula_mnemosina.Tests.Options.{scraping, two_lighthouses, config}
use nebula_mnemosina.Tests.Scraping.{peer}

-- A store that counts nothing: the database answers, and has one peer.
abbrev answering : Store (Unit {0})
answering = record { ping = λ s. (none, s); list_present_hostmap_peers = λ s. (ok (peer ∷ []), s) }

abbrev encode : List TargetGroup → Result Text
encode groups = ok (codes "[]")

prometheus_sd_handler_iff_example :
    ((prometheus_sd_handler answering scraping two_lighthouses encode (codes "POST") tt).0.status
      ≡ 200)
    ↔ (IsRead answering scraping two_lighthouses encode (codes "POST")
        × HasGroups answering scraping two_lighthouses encode tt)
prometheus_sd_handler_iff_example =
    prometheus_sd_handler_iff answering scraping two_lighthouses encode (codes "POST") tt

-- A database that remembers the sets that were migrated; those of the views fail.
abbrev migrate_set : String → List String → Option Error × List String
migrate_set dir s = if str_eq dir "views" then (some canceled, s) else (none, dir ∷ s)

abbrev failing_views : Tern (List String)
failing_views = record {
  acquire = λ s. (none, s);
  release = λ s. s;
  sub = λ dir. none;
  new_migrator = λ table s. (none, s);
  load_migrations = λ dir. none;
  migrate = λ table dir s. migrate_set dir s;
}

abbrev plain_options : Options
plain_options = record { enable_timescale = false }

run_applies_example :
    let (e, t) = failing_views.acquire [] in
    ((e ≡ none)
      × ((stop : Option Error) × (u : List String) × Applied failing_views
            (sets plain_options)
            t
            stop
            u
          × (run failing_views plain_options [] ≡ (stop, failing_views.release u))))
    ⊎ ((x : Error) × (e ≡ some x)
        × (run failing_views plain_options []
            ≡ (some (wrap (lit "acquire migration connection" ∷ []) x), t)))
run_applies_example = run_applies failing_views plain_options []

-- Every step succeeds, and the service ends with the context.
abbrev calls : Calls
calls = record {
  parse = ok config;
  parse_level = λ level. none;
  init_telemetry = λ cfg. none;
  open_pool = λ url. none;
  migrate = λ options. none;
  new_ssh_client = λ cfg. none;
  run_service = some canceled;
}

run_none_iff_example :
    ((Main.run calls).0 ≡ none)
    ↔ ((cfg : Config) × (calls.parse ≡ ok cfg) × IsPrepared calls cfg × EndsWell calls cfg)
run_none_iff_example = run_none_iff calls

run_ready_set_iff_example :
    (any is_ready_set (Main.run calls).1 ≡ true)
    ↔ ((cfg : Config) × (calls.parse ≡ ok cfg) × IsPrepared calls cfg)
run_ready_set_iff_example = run_ready_set_iff calls

run-IsClosed_example : IsClosed (Main.run calls).1
run-IsClosed_example = run-IsClosed calls
