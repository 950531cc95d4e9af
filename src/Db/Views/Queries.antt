-- ===== src/Db/Views/Queries.antt =====
-- What the views of db/migrations/views/001_grafana_views.sql select. A view that takes the first row
-- of each partition takes, of the rows that its ORDER BY does not tell apart, the first of the table.
use text.Mathlib.Text.{◌==◌ as str_eq}
use nebula_mnemosina.Prelude.{
  ℕ, Bool, ◌||◌, ◌&&◌, not, List, [], ◌∷◌, ◌++◌, Option, none, some, ◌==◌, map, length, ltb,
  if◌then◌else◌,
}
use nebula_mnemosina.Prelude.Int.{ltb_ℤ}
use nebula_mnemosina.Prelude.Eq.{int_eq, option_eq, pair_eq}
use nebula_mnemosina.Text.{Text}
use nebula_mnemosina.Text.Laws.{texts_eq}
use nebula_mnemosina.Time.{Time, earlier}
use nebula_mnemosina.Db.{PollRun, HostmapRow, AddrmapRow, Tables}
use nebula_mnemosina.Db.Select.{select, count_if, order_by, distinct_on, same_by, group_by}
use nebula_mnemosina.Db.Peers.{coalesce, peer_key}
use nebula_mnemosina.Db.Views.{
  Functions, MnemoCurrentPeer, MnemoCurrentLighthouseAddrmap, MnemoPollHealth5m,
  MnemoPeerCertInventory, MnemoLighthouseDisagreement,
}

-- WHERE source = 'hostmap'
abbrev pub from_hostmap : HostmapRow → Bool
from_hostmap h = str_eq h.source "hostmap"

-- A row of the join with poll_runs.
pub record Joined : Type 0 where
  pub entry : HostmapRow
  pub nebula_version : Option Text

unfoldable pub join_runs : List PollRun → List HostmapRow → List Joined
join_runs runs [] = []
join_runs runs (h ∷ hs) =
    map (λ p. record { entry = h; nebula_version = p.nebula_version })
      (select (λ p. p.id == h.poll_run_id) runs)
    ++ join_runs runs hs

-- PARTITION BY lighthouse_name and the peer's key.
abbrev pub peer_partition : Joined → Text × Text
peer_partition j = (j.entry.lighthouse_name, peer_key j.entry)

-- ORDER BY observed_at DESC, entry_index
abbrev pub newer_entry : Joined → Joined → Bool
newer_entry a b =
    earlier b.entry.observed_at a.entry.observed_at
    || (not (earlier a.entry.observed_at b.entry.observed_at)
        && ltb_ℤ a.entry.entry_index b.entry.entry_index)

unfoldable pub current_peer : Joined → MnemoCurrentPeer
unfolding peer_key
current_peer j =
    let h = j.entry in
    record {
      observed_at = h.observed_at;
      lighthouse_name = h.lighthouse_name;
      peer_key = some (peer_key h);
      primary_vpn_addr = h.primary_vpn_addr;
      vpn_addrs = h.vpn_addrs;
      cert_name = h.cert_name;
      cert_fingerprint = h.cert_fingerprint;
      cert_groups = h.cert_groups;
      cert_networks = h.cert_networks;
      cert_unsafe_networks = h.cert_unsafe_networks;
      cert_not_before = h.cert_not_before;
      cert_not_after = h.cert_not_after;
      current_remote = h.current_remote;
      remote_addrs = h.remote_addrs;
      message_counter = h.message_counter;
      local_index = h.local_index;
      remote_index = h.remote_index;
      nebula_version = j.nebula_version;
    }

unfoldable pub current_peers : Tables → List MnemoCurrentPeer
unfolding join_runs current_peer
current_peers t = map current_peer (
    distinct_on (same_by peer_partition)
      (order_by newer_entry (join_runs t.poll_runs (select from_hostmap t.hostmap_entries))))

-- PARTITION BY lighthouse_name, vpn_addr, COALESCE(reporter_vpn_addr, '')
abbrev pub addrmap_partition : AddrmapRow → (Text × Text) × Text
addrmap_partition a = ((a.lighthouse_name, a.vpn_addr), coalesce a.reporter_vpn_addr [])

abbrev pub newer_addrmap : AddrmapRow → AddrmapRow → Bool
newer_addrmap a b = earlier b.observed_at a.observed_at

abbrev pub current_addrmap_row : AddrmapRow → MnemoCurrentLighthouseAddrmap
current_addrmap_row a = record {
  observed_at = a.observed_at;
  lighthouse_name = a.lighthouse_name;
  vpn_addr = a.vpn_addr;
  reporter_vpn_addr = a.reporter_vpn_addr;
  learned_addrs = a.learned_addrs;
  reported_addrs = a.reported_addrs;
  relay_vpn_addrs = a.relay_vpn_addrs;
}

unfoldable pub current_lighthouse_addrmap : Tables → List MnemoCurrentLighthouseAddrmap
current_lighthouse_addrmap t =
    map current_addrmap_row (
      distinct_on (same_by addrmap_partition) (order_by newer_addrmap t.lighthouse_addrmap_entries))

-- COALESCE(cert_fingerprint, primary_vpn_addr)
abbrev pub cert_key : HostmapRow → Option Text
cert_key h = elim h.cert_fingerprint [ some f ↦ some f | none ↦ h.primary_vpn_addr ]

abbrev pub newer_row : HostmapRow → HostmapRow → Bool
newer_row a b = earlier b.observed_at a.observed_at

unfoldable pub inventory_row : HostmapRow → MnemoPeerCertInventory
inventory_row h = record {
  observed_at = h.observed_at;
  peer_key = cert_key h;
  primary_vpn_addr = h.primary_vpn_addr;
  vpn_addrs = h.vpn_addrs;
  cert_name = h.cert_name;
  cert_fingerprint = h.cert_fingerprint;
  cert_public_key = h.cert_public_key;
  cert_groups = h.cert_groups;
  cert_networks = h.cert_networks;
  cert_unsafe_networks = h.cert_unsafe_networks;
  cert_not_before = h.cert_not_before;
  cert_not_after = h.cert_not_after;
}

unfoldable pub peer_cert_inventory : Tables → List MnemoPeerCertInventory
unfolding inventory_row
peer_cert_inventory t =
    map inventory_row
      (distinct_on (same_by cert_key) (order_by newer_row (select from_hostmap t.hostmap_entries)))

unfoldable pub later : Time → Time → Time
later t u = if earlier t u then u else t

-- max(…), NULL over no row
unfoldable pub latest : List Time → Option Time
latest [] = none
latest (t ∷ ts) = elim (latest ts) [ none ↦ some t | some u ↦ some (later t u) ]

-- count(DISTINCT …)
abbrev pub count_distinct : List Text → ℕ
count_distinct ts = length (distinct_on texts_eq.beq ts)

module _ {F : Type 0} (f : Functions F) where
  unfoldable pub health_row : (Time × Text) × List PollRun → MnemoPollHealth5m F
  unfolding latest
  health_row (key, runs) = record {
    bucket = key.0;
    lighthouse_name = key.1;
    polls = length runs;
    successful_polls = count_if (λ r. r.success) runs;
    failed_polls = count_if (λ r. not r.success) runs;
    p95_duration_ms = f.percentile (map (λ r. r.duration_ms) runs);
    latest_poll_at = latest (map (λ r. r.started_at) runs);
  }

  -- GROUP BY bucket, lighthouse_name
  abbrev pub health_group : PollRun → Time × Text
  health_group r = (f.date_bin r.started_at, r.lighthouse_name)

  unfoldable pub poll_health_5m : Tables → List (MnemoPollHealth5m F)
  unfolding health_row
  poll_health_5m t = map health_row (group_by health_group t.poll_runs)

  abbrev pub learned_text : MnemoCurrentLighthouseAddrmap → Text
  learned_text a = f.array_text a.learned_addrs

  -- HAVING
  unfoldable pub disagrees : List MnemoCurrentLighthouseAddrmap → Bool
  disagrees rows =
      ltb 1 (count_distinct (map (λ a. a.lighthouse_name) rows))
      && ltb 1 (count_distinct (map learned_text rows))

  unfoldable pub disagreement_row :
      Text × List MnemoCurrentLighthouseAddrmap → MnemoLighthouseDisagreement
  unfolding latest
  disagreement_row (vpn_addr, rows) = record {
    vpn_addr = vpn_addr;
    lighthouses_reporting = count_distinct (map (λ a. a.lighthouse_name) rows);
    distinct_learned_sets = count_distinct (map learned_text rows);
    learned_by_lighthouse =
        order_by f.collate
          (distinct_on texts_eq.beq (map (λ a. a.lighthouse_name ++ b'=' ∷ learned_text a) rows));
    latest_observed_at = latest (map (λ a. a.observed_at) rows);
  }

  -- Over the rows that mnemo_current_lighthouse_addrmap has.
  unfoldable pub lighthouse_disagreement :
      List MnemoCurrentLighthouseAddrmap → List MnemoLighthouseDisagreement
  unfolding disagrees disagreement_row
  lighthouse_disagreement rows =
      map disagreement_row (select (λ g. disagrees g.1) (group_by (λ a. a.vpn_addr) rows))
