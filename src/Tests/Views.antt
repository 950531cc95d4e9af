-- ===== src/Tests/Views.antt =====
-- The materialized views of a database of two runs.
use nebula_mnemosina.Prelude.{false, List, [], ◌∷◌, none, some, ◌≡◌, ◌↔◌, ◌⊎◌, refl}
use nebula_mnemosina.Prelude.Int.{ℤ, pos}
use nebula_mnemosina.Prelude.Eq.{int_eq, option_eq, pair_eq}
use nebula_mnemosina.Text.{Text, codes, text_eq}
use nebula_mnemosina.Text.Laws.{texts_eq}
use nebula_mnemosina.Db.{Tables, statement}
use nebula_mnemosina.Db.Select.{count_if, select, distinct_on, group_by}
use nebula_mnemosina.Db.Select.All.{All}
use nebula_mnemosina.Db.Select.Distinct.{at_most_one}
use nebula_mnemosina.Db.Select.Group.{total}
use nebula_mnemosina.Db.Views.{Functions, MnemoCurrentLighthouseAddrmap}
use nebula_mnemosina.Db.Views.Queries.{
  current_peers, current_lighthouse_addrmap, poll_health_5m, peer_cert_inventory, learned_text,
  lighthouse_disagreement,
}
use nebula_mnemosina.Db.Views.Keys.{
  IsUnique, current_peers_uq, current_lighthouse_addrmap_uq, poll_health_5m_uq,
  peer_cert_inventory_uq, lighthouse_disagreement_uq, views-AreUnique,
}
use nebula_mnemosina.Db.Views.Latest.{entries_of, IsNewest, IsStored, current_peers_lem}
use nebula_mnemosina.Db.Views.Health.{IsSound, poll_health_5m_lem}
use nebula_mnemosina.Db.Views.Disagreement.{Agree, rows_of, lighthouse_disagreement_iff}
use nebula_mnemosina.Db.Views.Refresh.{Database, view_query, refresh_view}
use nebula_mnemosina.Storage.Peers.{refresh_all, refresh_grafana_views}
use nebula_mnemosina.Storage.Peers.Refresh.{up_to_date, refresh_grafana_views_lem}
use nebula_mnemosina.Tests.Present.{two_peers}

-- One bucket, the first duration, the addresses one behind the other, and one order.
abbrev pub functions : Functions ℤ
functions = record {
  date_bin = λ t. pos 0;
  percentile = λ ds. elim ds [ [] ↦ pos 0 | d ∷ _ ↦ d ];
  array_text = λ ts. elim ts [ [] ↦ [] | t ∷ _ ↦ t ];
  collate = λ s t. false;
}

abbrev tables : Tables
tables = two_peers.tables

views-AreUnique_example :
    IsUnique current_peers_uq (current_peers tables)
    × IsUnique current_lighthouse_addrmap_uq (current_lighthouse_addrmap tables)
    × IsUnique (poll_health_5m_uq functions) (poll_health_5m functions tables)
    × IsUnique peer_cert_inventory_uq (peer_cert_inventory tables)
    × IsUnique lighthouse_disagreement_uq
        (lighthouse_disagreement functions (current_lighthouse_addrmap tables))
views-AreUnique_example = views-AreUnique functions tables

current_peers_lem_example :
    ((name key : Text)
      → count_if (λ r. pair_eq.beq (current_peers_uq r) (name, some key)) (current_peers tables)
        ≡ at_most_one (entries_of tables name key))
    × All (IsStored tables) (current_peers tables)
    × All (IsNewest tables) (current_peers tables)
current_peers_lem_example = current_peers_lem tables

poll_health_5m_lem_example :
    (total (λ h. h.polls) (poll_health_5m functions tables) ≡ 2)
    × (total (λ h. h.successful_polls) (poll_health_5m functions tables) ≡ 2)
    × All (IsSound functions tables.poll_runs) (poll_health_5m functions tables)
unfolding count_if
poll_health_5m_lem_example = poll_health_5m_lem functions tables

abbrev addrmap : Text → Text → MnemoCurrentLighthouseAddrmap
addrmap name learned = record {
  observed_at = pos 3;
  lighthouse_name = name;
  vpn_addr = codes "10.0.0.1";
  reporter_vpn_addr = none;
  learned_addrs = learned ∷ [];
  reported_addrs = [];
  relay_vpn_addrs = [];
}

-- Two lighthouses that learned two addresses.
abbrev maps : List MnemoCurrentLighthouseAddrmap
maps = addrmap (codes "west") (codes "a") ∷ addrmap (codes "east") (codes "b") ∷ []

listed_once :
    count_if (λ d. text_eq d.vpn_addr (codes "10.0.0.1")) (lighthouse_disagreement functions maps)
    ≡ 1
unfolding lighthouse_disagreement group_by distinct_on select count_if text_eq
listed_once = refl

lighthouse_disagreement_iff_example :
    let listed =
      count_if
        (λ d. text_eq d.vpn_addr (codes "10.0.0.1"))
        (lighthouse_disagreement functions maps) in
    ((listed ≡ 0) ⊎ (listed ≡ 1))
    × ((listed ≡ 0) ↔ (
        Agree (λ a. a.lighthouse_name) (rows_of (codes "10.0.0.1") maps)
        ⊎ Agree (learned_text functions) (rows_of (codes "10.0.0.1") maps)))
lighthouse_disagreement_iff_example = lighthouse_disagreement_iff functions maps (codes "10.0.0.1")

abbrev stale : Database ℤ
stale = record {
  session = two_peers;
  views = record { peers = []; addrmap = maps; health = []; inventory = []; disagreement = [] };
}

stale_refreshed : (refresh_grafana_views (refresh_view functions) stale).0 ≡ none
unfolding refresh_grafana_views refresh_all refresh_view view_query statement
stale_refreshed = refl

refresh_grafana_views_lem_example :
    ((refresh_grafana_views (refresh_view functions) stale).1.views ≡ up_to_date functions tables)
    × ((refresh_grafana_views (refresh_view functions) stale).1.session.tables ≡ tables)
refresh_grafana_views_lem_example = refresh_grafana_views_lem functions stale stale_refreshed
