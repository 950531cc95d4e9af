-- ===== src/Tests/Present.antt =====
-- Present peers, in a database of two runs with a hostmap each.
use nebula_mnemosina.Prelude.{ℕ, [], ◌∷◌, none, some, ◌≡◌, refl}
use nebula_mnemosina.Prelude.Int.{pos}
use nebula_mnemosina.Text.{Text, codes, text_eq}
use nebula_mnemosina.Errors.{ok}
use nebula_mnemosina.Model.{PresentPeer}
use nebula_mnemosina.Db.{HostmapRow, AddrmapRow, Session, statement}
use nebula_mnemosina.Db.Select.{select, count_if, place, order_by, distinct_on}
use nebula_mnemosina.Db.Select.Distinct.{at_most_one}
use nebula_mnemosina.Db.Peers.{
  latest_poll, join_entries, join_row, is_present, peer_key, present_peers,
  list_present_hostmap_peers,
}
use nebula_mnemosina.Db.Peers.Laws.{entries_of, IsPresent, present_peers_once}
use nebula_mnemosina.Db.Select.All.{All}
use nebula_mnemosina.Storage.{text_value}
use nebula_mnemosina.Storage.Peers.{present_peer, list_present_peers}
use nebula_mnemosina.Tests.Expiring.{collate, two_runs}

abbrev pub hostmap_entry : ℕ → ℕ → Text → Text → HostmapRow
hostmap_entry run_id i addr fingerprint = record {
  poll_run_id = run_id;
  observed_at = pos 9_000;
  lighthouse_name = codes "west";
  source = "hostmap";
  entry_index = pos i;
  vpn_addrs = addr ∷ [];
  primary_vpn_addr = some addr;
  local_index = pos 1;
  remote_index = pos 2;
  remote_addrs = [];
  message_counter = pos 5;
  current_remote = [];
  current_relays_to_me = [];
  current_relays_through_me = [];
  cert_curve = none;
  cert_name = none;
  cert_fingerprint = some fingerprint;
  cert_public_key = none;
  cert_signature = none;
  cert_version = none;
  cert_groups = [];
  cert_is_ca = none;
  cert_issuer = none;
  cert_networks = [];
  cert_unsafe_networks = [];
  cert_not_before = none;
  cert_not_after = none;
  raw = codes "{}";
}

abbrev addrmap_entry : Text → AddrmapRow
addrmap_entry learned = record {
  poll_run_id = 2;
  observed_at = pos 9_000;
  lighthouse_name = codes "west";
  vpn_addr = codes "10.1.0.2";
  reporter_vpn_addr = none;
  learned_addrs = learned ∷ [];
  reported_addrs = [];
  relay_vpn_addrs = [];
  raw = codes "{}";
}

-- The second run has two entries of one certificate and one of another.
abbrev pub two_peers : Session
two_peers = record two_runs {
  tables = record two_runs.tables {
    hostmap_entries =
        hostmap_entry 1 0 (codes "10.1.0.9") (codes "old")
        ∷ hostmap_entry 2 0 (codes "10.1.0.2") (codes "k")
        ∷ hostmap_entry 2 1 (codes "10.1.0.3") (codes "k")
        ∷ hostmap_entry 2 2 (codes "10.1.0.4") (codes "m")
        ∷ [];
    lighthouse_addrmap_entries = addrmap_entry (codes "1.2.3.4:4242") ∷ [];
  };
}

abbrev shown : Text → Text → PresentPeer
shown addr fingerprint = record {
  lighthouse_name = codes "west";
  peer_key = fingerprint;
  primary_vpn_addr = addr;
  vpn_addrs = addr ∷ [];
  cert_name = [];
  cert_fingerprint = fingerprint;
  cert_groups = [];
  nebula_version = [];
}

pub two_present :
    (list_present_peers collate two_peers).0
    ≡ ok (shown (codes "10.1.0.2") (codes "k") ∷ shown (codes "10.1.0.4") (codes "m") ∷ [])
unfolding list_present_peers list_present_hostmap_peers present_peers latest_poll join_entries
    join_row is_present peer_key distinct_on order_by place select text_eq statement present_peer
    text_value
two_present = refl

present_peers_once_example :
    ((k : Text)
      → count_if (λ r. text_eq r.peer_key k) (present_peers collate two_peers.tables)
        ≡ at_most_one (entries_of two_peers.tables k))
    × All (IsPresent two_peers.tables) (present_peers collate two_peers.tables)
present_peers_once_example = present_peers_once collate two_peers.tables
