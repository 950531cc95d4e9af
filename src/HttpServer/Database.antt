-- ===== src/HttpServer/Database.antt =====
-- /prometheus-sd of internal/httpserver on the store of internal/storage/storage.go.
use nebula_mnemosina.Prelude.{
  Bool, true, false, ◌||◌, List, [], ◌∷◌, Option, none, if◌then◌else◌, ◌≡◌, refl, ◌∙◌, ap, subst,
  arith,
}
use nebula_mnemosina.Text.{Text, codes, is_empty, elem, text_eq}
use nebula_mnemosina.Text.Laws.{text_eq_refl}
use nebula_mnemosina.Errors.{Error, Result, ok}
use nebula_mnemosina.Model.{Lighthouse, PresentPeer}
use nebula_mnemosina.Config.{PrometheusSdConfig}
use nebula_mnemosina.Db.{Session}
use nebula_mnemosina.Db.Select.All.{All-of_append, All, All-imp, All-of_map}
use nebula_mnemosina.Db.Peers.{present_peers}
use nebula_mnemosina.Storage.Peers.{present_peer, list_present_peers}
use nebula_mnemosina.Storage.Peers.Laws.{list_present_peers_lem}
use nebula_mnemosina.HttpServer.{TargetGroup}
use nebula_mnemosina.HttpServer.Handlers.{
  Store, encoded, groups_response, peers_response, prometheus_sd_handler,
}
use nebula_mnemosina.HttpServer.Targets.{AllSplit}
use nebula_mnemosina.HttpServer.Wanted.{
  peer_address, peer_addresses, lighthouse_addresses, wanted_addresses, scraped,
  prometheus_target_groups_once,
}

elem_self : (xs : List Text) → All (λ t. elem t xs ≡ true) xs
unfolding elem
elem_self [] = tt
elem_self (x ∷ xs) = (
  ap (λ b. b || elem x xs) (text_eq_refl x),
  All-imp (λ t h. ground (arith, h)) xs (elem_self xs),
)

module _ (cfg : PrometheusSdConfig) where
  -- Every peer with an address is among those of their addresses.
  each_peer :
      (P : Text → Type 0) (ps : List PresentPeer)
      → All (λ p. is_empty p.primary_vpn_addr ≡ false) ps
      → All P (peer_addresses cfg ps)
      → All (λ p. P (peer_address cfg p)) ps
  each_peer P [] h k = tt
  each_peer P (p ∷ ps) (given, h) k =
      let all : All P (peer_address cfg p ∷ peer_addresses cfg ps) = rw given at k in
      (all.0, each_peer P ps h all.1)

unfoldable pub database : (Session → Option Error × Session) → (Text → Text → Bool) → Store Session
database ping collate = record {
  ping = ping;
  list_present_hostmap_peers = list_present_peers collate;
}

-- If the address of every lighthouse splits into a host and a port and the peers can be listed, GET
-- /prometheus-sd is answered 200 with the encoding of groups in which every present peer of the
-- database and every lighthouse is a target exactly once; no table has changed.
pub prometheus_sd_database :
    (ping : Session → Option Error × Session) (collate : Text → Text → Bool)
    (cfg : PrometheusSdConfig) (ls : List Lighthouse) (encode : List TargetGroup → Result Text)
    (s : Session) {peers : List PresentPeer}
    → AllSplit cfg ls
    → (list_present_peers collate s).0 ≡ ok peers
    → let answer = prometheus_sd_handler (database ping collate) cfg ls encode (codes "GET") s in
      (gs : List TargetGroup) × (answer.0 ≡ record {
        status = 200;
        content_type = "application/json";
        allow = none;
        body = encoded (encode gs);
      })
      × All
          (λ r. scraped (peer_address cfg (present_peer r)) gs ≡ 1)
          (present_peers collate s.tables)
      × All (λ t. scraped t gs ≡ 1) (lighthouse_addresses cfg ls)
      × (answer.1.tables ≡ s.tables)
unfolding prometheus_sd_handler peers_response groups_response database text_eq
prometheus_sd_database ping collate cfg ls encode s {peers} split listed =
    let (same, given, kept) = list_present_peers_lem collate s listed in
    let (gs, built, once) = prometheus_target_groups_once cfg ls peers split in
    let all : All (λ t. scraped t gs ≡ 1) (wanted_addresses cfg ls peers) =
      All-imp (λ t h. once t ∙ ap (λ b. if b then 1 else 0) h) _
        (elem_self (wanted_addresses cfg ls peers)) in
    let (left, right) =
      All-of_append (λ t. scraped t gs ≡ 1) (peer_addresses cfg peers) (lighthouse_addresses cfg ls)
        all in
    let shown = each_peer cfg (λ t. scraped t gs ≡ 1) peers given left in
    (
      gs,
      rw (listed, built) refl,
      All-of_map present_peer _ (present_peers collate s.tables)
          (subst (All (λ p. scraped (peer_address cfg p) gs ≡ 1)) same shown),
      right,
      kept,
    )
