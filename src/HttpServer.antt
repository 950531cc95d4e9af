-- ===== src/HttpServer.antt =====
-- prometheusTargetGroups of internal/httpserver/prometheus_sd.go. A map of labels is the list of its
-- entries; every key is written once.
pub mod Targets
pub mod Wanted
pub mod Database
pub mod Handlers
pub mod Lifecycle
use nebula_mnemosina.Prelude.{
  ℕ, suc, String, Bool, List, [], ◌∷◌, ◌++◌, Option, none, some, if◌then◌else◌,
}
use nebula_mnemosina.Prelude.Int.{ℤ, pos, negsuc}
use nebula_mnemosina.Text.{Text, codes, is_empty, elem, join, itoa}
use nebula_mnemosina.Errors.{Piece, lit, str, quoted, Result, ok, err, wrap, ◌>>=◌, wrapping}
use nebula_mnemosina.Net.{split_host_port, join_host_port}
use nebula_mnemosina.Model.{Lighthouse, target, PresentPeer}
use nebula_mnemosina.Config.{PrometheusSdConfig}

abbrev pub Labels : Type 0
Labels = List (String × Text)

pub record TargetGroup : Type 0 where
  pub targets : List Text
  pub labels : Labels

-- strconv.Itoa
unfoldable pub port_text : ℤ → Text
port_text (pos n) = itoa n
port_text (negsuc n) = b'-' ∷ itoa (suc n)

unfoldable pub set_label : String → Text → Labels → Labels
set_label name value labels = if is_empty value then labels else labels ++ (name, value) ∷ []

-- `if len(values) > 0 { labels[name] = strings.Join(values, ",") }`
unfoldable pub set_joined : String → List Text → Labels → Labels
set_joined name [] labels = labels
set_joined name (v ∷ vs) labels = labels ++ (name, join (v ∷ vs) (codes ",")) ∷ []

node_name : PresentPeer → Text
node_name peer = if is_empty peer.cert_name then peer.primary_vpn_addr else peer.cert_name

peer_group : PrometheusSdConfig → PresentPeer → Text → TargetGroup
unfolding set_label set_joined node_name
peer_group cfg peer address = record {
  targets = address ∷ [];
  labels = set_joined "__meta_nebula_cert_groups" peer.cert_groups (
      set_label "__meta_nebula_version" peer.nebula_version (
        set_label "__meta_nebula_observed_by_lighthouse" peer.lighthouse_name (
          set_label "__meta_nebula_cert_fingerprint" peer.cert_fingerprint (
            set_label "__meta_nebula_cert_name" peer.cert_name (
              set_label "__meta_nebula_vpn_addrs" (join peer.vpn_addrs (codes ",")) (
                set_label "__meta_nebula_peer_key" peer.peer_key (
                  ("__metrics_path__", cfg.metrics_path)
                  ∷ ("__meta_nebula_address", address)
                  ∷ ("__meta_nebula_name", node_name peer)
                  ∷ ("__meta_nebula_source", codes "present_peer")
                  ∷ ("__meta_nebula_vpn_addr", peer.primary_vpn_addr)
                  ∷ ("__meta_nebula_metric_path", cfg.metrics_path)
                  ∷ [])))))));
}

lighthouse_group : PrometheusSdConfig → Lighthouse → Text → Text → TargetGroup
lighthouse_group cfg l host address = record {
  targets = address ∷ [];
  labels =
      ("__metrics_path__", cfg.metrics_path)
      ∷ ("__meta_nebula_address", address)
      ∷ ("__meta_nebula_lighthouse_host", host)
      ∷ ("__meta_nebula_lighthouse_name", l.name)
      ∷ ("__meta_nebula_lighthouse_user", l.user)
      ∷ ("__meta_nebula_metric_path", cfg.metrics_path)
      ∷ ("__meta_nebula_name", l.name)
      ∷ ("__meta_nebula_source", codes "configured_lighthouse")
      ∷ ("__meta_nebula_ssh_address", l.address)
      ∷ ("__meta_nebula_ssh_target", target l)
      ∷ ("__meta_nebula_stats_target_host", host)
      ∷ [];
}

-- The groups so far, and the targets that have one.
pub record Groups : Type 0 where
  pub seen : List Text
  pub groups : List TargetGroup

-- A group unless its target has one.
unfoldable pub add_group : Text → TargetGroup → Groups → Groups
add_group address g st =
    if elem address st.seen
    then st
    else record { seen = address ∷ st.seen; groups = st.groups ++ g ∷ [] }

module _ (cfg : PrometheusSdConfig) where
  add_peer : PresentPeer → Groups → Groups
  unfolding peer_group
  add_peer peer st =
      let address = join_host_port peer.primary_vpn_addr (port_text cfg.port) in
      if is_empty peer.primary_vpn_addr
      then st
      else add_group address (peer_group cfg peer address) st

  unfoldable pub add_peers : List PresentPeer → Groups → Groups
  unfolding add_peer
  add_peers [] st = st
  add_peers (peer ∷ peers) st = add_peers peers (add_peer peer st)

  add_lighthouse : Lighthouse → Text × Text → Groups → Groups
  unfolding lighthouse_group
  add_lighthouse l (host, ssh_port) st =
      let address = join_host_port host (port_text cfg.port) in
      add_group address (lighthouse_group cfg l host address) st

  unfoldable pub add_lighthouses : List Lighthouse → Groups → Result Groups
  unfolding add_lighthouse
  add_lighthouses [] st = ok st
  add_lighthouses (l ∷ ls) st = do
    found ←
        wrapping (lit "split lighthouse " ∷ str l.name ∷ lit " address " ∷ quoted l.address ∷ [])
          (split_host_port l.address)
    add_lighthouses ls (add_lighthouse l found st)

  unfoldable pub prometheus_target_groups :
      List Lighthouse → List PresentPeer → Result (List TargetGroup)
  prometheus_target_groups lighthouses peers = do
    st ← add_lighthouses lighthouses (add_peers peers (record { seen = []; groups = [] }))
    ok st.groups
