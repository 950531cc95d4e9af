-- ===== src/Tests/Whole.antt =====
-- A round and a scrape of one database, what they write, and the life of the server.
use nebula_mnemosina.Prelude.{
  true, List, [], ◌∷◌, ◌++◌, Option, none, map, if◌then◌else◌, ◌≡◌, refl,
}
use nebula_mnemosina.Prelude.Int.{ℤ}
use nebula_mnemosina.Text.{Text, codes, elem}
use nebula_mnemosina.Errors.{Error, Result, ok, canceled}
use nebula_mnemosina.Metrics.{no_metrics}
use nebula_mnemosina.Model.{PollResult, target}
use nebula_mnemosina.Db.{Session, statement}
use nebula_mnemosina.Db.Select.All.{All}
use nebula_mnemosina.Db.Peers.{present_peers}
use nebula_mnemosina.Db.PollRuns.{create_poll_run, complete_poll_run, checked, has_run}
use nebula_mnemosina.Db.Views.Refresh.{Database, view_query, refresh_view}
use nebula_mnemosina.Storage.{timestamptz, non_nil}
use nebula_mnemosina.Storage.Save.{
  save_poll_result, commit_or_rollback, in_transaction, save_body, insert_hostmap_entries,
  insert_commands, insert_lighthouse_addrmap, insert_relays, complete_params,
}
use nebula_mnemosina.Storage.Peers.{present_peer, refresh_all, refresh_grafana_views}
use nebula_mnemosina.Storage.Peers.Refresh.{up_to_date}
use nebula_mnemosina.Storage.Consistent.Reach.{no_rows-IsConsistent}
use nebula_mnemosina.Collector.Poll.{join_nonempty}
use nebula_mnemosina.Collector.Round.{drain, run_round}
use nebula_mnemosina.Collector.Round.Stored.{run_of, poll_of, run_round-database}
use nebula_mnemosina.Collector.Round.Stored
use nebula_mnemosina.HttpServer.{TargetGroup, prometheus_target_groups}
use nebula_mnemosina.HttpServer.Handlers.{encoded, prometheus_sd_handler}
use nebula_mnemosina.HttpServer.Wanted.{
  peer_address, lighthouse_addresses, wanted_addresses, scraped, prometheus_target_groups_once,
}
use nebula_mnemosina.HttpServer.Database.{database, prometheus_sd_database}
use nebula_mnemosina.HttpServer.Lifecycle.{
  failed, ended, waiting, server_failed, serve_report, Server, new_server, cancel, serve_ends,
  Lifetime, here, next, IsOrderly, IsReported, Lifetime-IsOrderly,
}
use nebula_mnemosina.Tests.Options.{scraping, two_lighthouses}
use nebula_mnemosina.Tests.Polling.{polled}
use nebula_mnemosina.Tests.Scraping.{peer, two_split}
use nebula_mnemosina.Tests.Expiring.{collate}
use nebula_mnemosina.Tests.Present.{two_peers, two_present}
use nebula_mnemosina.Tests.History.{marshal, new_database}
use nebula_mnemosina.Tests.Views.{functions}

prometheus_target_groups_once_example :
    (gs : List TargetGroup) × (prometheus_target_groups scraping two_lighthouses (peer ∷ peer ∷ [])
      ≡ ok gs)
    × ((t : Text)
        → scraped t gs ≡ (
            if elem t (wanted_addresses scraping two_lighthouses (peer ∷ peer ∷ [])) then 1 else 0))
prometheus_target_groups_once_example =
    prometheus_target_groups_once scraping two_lighthouses (peer ∷ peer ∷ []) two_split

abbrev ping : Session → Option Error × Session
ping s = (none, s)

abbrev encode : List TargetGroup → Result Text
encode gs = ok (codes "[]")

prometheus_sd_database_example :
    let answer =
      prometheus_sd_handler
        (database ping collate)
        scraping
        two_lighthouses
        encode
        (codes "GET")
        two_peers in
    (gs : List TargetGroup) × (answer.0 ≡ record {
      status = 200;
      content_type = "application/json";
      allow = none;
      body = encoded (encode gs);
    })
    × All
        (λ r. scraped (peer_address scraping (present_peer r)) gs ≡ 1)
        (present_peers collate two_peers.tables)
    × All (λ t. scraped t gs ≡ 1) (lighthouse_addresses scraping two_lighthouses)
    × (answer.1.tables ≡ two_peers.tables)
prometheus_sd_database_example =
    prometheus_sd_database ping collate scraping two_lighthouses encode two_peers two_split
      two_present

abbrev short : PollResult
short = record polled { hostmap = []; addrmap = [] }

abbrev fresh : Database ℤ
fresh = record {
  session = new_database;
  views = record { peers = []; addrmap = []; health = []; inventory = []; disagreement = [] };
}

round_ok :
    (run_round (Stored.database functions marshal) true (short ∷ []) fresh no_metrics).0 ≡ none
unfolding run_round drain join_nonempty Stored.database refresh_grafana_views refresh_all
    refresh_view view_query save_poll_result commit_or_rollback in_transaction save_body statement
    create_poll_run complete_poll_run insert_hostmap_entries insert_commands
    insert_lighthouse_addrmap insert_relays checked has_run timestamptz target non_nil
    complete_params
round_ok = refl

run_round-database_example :
    let d =
      (run_round (Stored.database functions marshal) true (short ∷ []) fresh no_metrics).1.store in
    (map run_of d.session.tables.poll_runs
      ≡ map run_of fresh.session.tables.poll_runs ++ map poll_of (short ∷ []))
    × (d.views ≡ up_to_date functions d.session.tables)
run_round-database_example =
    run_round-database functions marshal short [] fresh no_metrics (no_rows-IsConsistent 4 9 [])
      round_ok

-- The address is in use: the listener fails at once, and later the context ends.
abbrev unused_server : Server
unused_server = record {
  context_done = true;
  listener = ended (failed canceled);
  closer = waiting;
  reports = server_failed canceled ∷ [];
}

its_life : Lifetime new_server unused_server
unfolding new_server serve_report
its_life = next (next here (serve_ends (failed canceled) refl refl)) cancel

Lifetime-IsOrderly_example : IsOrderly unused_server × IsReported unused_server
Lifetime-IsOrderly_example = Lifetime-IsOrderly its_life
