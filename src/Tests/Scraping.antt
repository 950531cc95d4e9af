-- ===== src/Tests/Scraping.antt =====
-- The targets for Prometheus.
use nebula_mnemosina.Prelude.{[], ◌∷◌, refl}
use nebula_mnemosina.Text.{codes, cut, cut_last, has_byte}
use nebula_mnemosina.Net.{split_host_port}
use nebula_mnemosina.Model.{PresentPeer}
use nebula_mnemosina.HttpServer.Targets.{AllSplit}
use nebula_mnemosina.Tests.Options.{scraping, two_lighthouses}

abbrev pub peer : PresentPeer
peer = record {
  lighthouse_name = codes "west";
  peer_key = codes "k";
  primary_vpn_addr = codes "10.1.0.2";
  vpn_addrs = codes "10.1.0.2" ∷ [];
  cert_name = [];
  cert_fingerprint = [];
  cert_groups = [];
  nebula_version = [];
}

pub two_split : AllSplit scraping two_lighthouses
unfolding split_host_port cut cut_last has_byte
two_split = (((codes "10.0.0.1", codes "4222"), refl), (((codes "::1", codes "22"), refl), tt))
