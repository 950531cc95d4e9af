-- ===== src/HttpServer/Wanted.antt =====
-- The targets of prometheusTargetGroups in internal/httpserver/prometheus_sd.go, against a list of the
-- addresses that are wanted.
use nebula_mnemosina.Prelude.{
  ℕ, true, false, ◌||◌, List, [], ◌∷◌, ◌++◌, append_assoc, append-nil, if◌then◌else◌, ◌≡◌, inl, inr,
  refl, sym, ◌∙◌, ap, subst, arith, Bool-cases,
}
use nebula_mnemosina.Text.{Text, is_empty, elem, text_eq}
use nebula_mnemosina.Text.Laws.{texts_eq, text_eq_iff}
use nebula_mnemosina.Errors.{Result, ok, err}
use nebula_mnemosina.Net.{split_host_port, join_host_port}
use nebula_mnemosina.Model.{Lighthouse, PresentPeer}
use nebula_mnemosina.Config.{PrometheusSdConfig}
use nebula_mnemosina.Db.Select.{count_if}
use nebula_mnemosina.Db.Select.Keys.{count_if-append}
use nebula_mnemosina.HttpServer.{
  TargetGroup, Groups, port_text, add_group, add_peer, add_peers, add_lighthouse, add_lighthouses,
  prometheus_target_groups,
}
use nebula_mnemosina.HttpServer.Targets.{all_targets, all_targets-append, AllSplit}

abbrev pub peer_address : PrometheusSdConfig → PresentPeer → Text
peer_address cfg p = join_host_port p.primary_vpn_addr (port_text cfg.port)

-- A peer without an address is left out.
abbrev pub address_of : PrometheusSdConfig → PresentPeer → List Text
address_of cfg p = if is_empty p.primary_vpn_addr then [] else peer_address cfg p ∷ []

-- The address of a lighthouse, if its SSH address splits.
abbrev pub lighthouse_address : PrometheusSdConfig → Result (Text × Text) → List Text
lighthouse_address cfg (ok found) = join_host_port found.0 (port_text cfg.port) ∷ []
lighthouse_address cfg (err e) = []

module _ (cfg : PrometheusSdConfig) where
  abbrev pub peer_addresses : List PresentPeer → List Text
  peer_addresses [] = []
  peer_addresses (p ∷ ps) = address_of cfg p ++ peer_addresses ps

  abbrev pub lighthouse_addresses : List Lighthouse → List Text
  lighthouse_addresses [] = []
  lighthouse_addresses (l ∷ ls) =
      lighthouse_address cfg (split_host_port l.address) ++ lighthouse_addresses ls

-- How often a text is a target.
abbrev pub scraped : Text → List TargetGroup → ℕ
scraped t gs = count_if (λ x. text_eq x t) (all_targets gs)

elem-append :
    (t : Text) (xs : List Text) (x : Text) → elem t (xs ++ x ∷ []) ≡ (elem t xs || text_eq x t)
unfolding elem
elem-append t [] x = ground arith
elem-append t (y ∷ xs) x = ground (arith, elem-append t xs x)

-- The texts that were seen are the wanted ones so far, and each is a target once.
abbrev Follows : List Text → Groups → Type 0
Follows wanted st =
    (t : Text)
    → (elem t st.seen ≡ elem t wanted) × (scraped t st.groups ≡ (if elem t wanted then 1 else 0))

-- One more text is wanted, that was seen.
again :
    (wanted : List Text) (x : Text) (st : Groups)
    → elem x st.seen ≡ true
    → Follows wanted st
    → Follows (wanted ++ x ∷ []) st
again wanted x st old h t =
    let more = elem-append t wanted x in
    let (seen, once) = h t in
    elim (Bool-cases (text_eq x t)) [
      | inl e ↦
          let there : elem t st.seen ≡ true =
            ap (λ u. elem u st.seen) (sym ((text_eq_iff x t).0 e)) ∙ old in
          ground (arith, more, seen, once, e, there)
      | inr e ↦ ground (arith, more, seen, once, e)
    ]

-- One more text is wanted, that was not seen and gets a group.
first_time :
    (wanted : List Text) (x : Text) (g : TargetGroup) (st : Groups)
    → g.targets ≡ x ∷ []
    → elem x st.seen ≡ false
    → Follows wanted st
    → Follows (wanted ++ x ∷ []) (record { seen = x ∷ st.seen; groups = st.groups ++ g ∷ [] })
unfolding elem
first_time wanted x g st g_x new h t =
    let more = elem-append t wanted x in
    let (seen, once) = h t in
    let targets = ap (count_if (λ y. text_eq y t)) (all_targets-append st.groups g x g_x) in
    let counted = count_if-append (λ y. text_eq y t) (all_targets st.groups) x in
    elim (Bool-cases (text_eq x t)) [
      | inl e ↦
          let absent : elem t st.seen ≡ false =
            ap (λ u. elem u st.seen) (sym ((text_eq_iff x t).0 e)) ∙ new in
          ground (arith, more, seen, once, e, absent, targets, counted)
      | inr e ↦ ground (arith, more, seen, once, e, targets, counted)
    ]

add_group-Follows :
    (wanted : List Text) (x : Text) (g : TargetGroup) (st : Groups)
    → g.targets ≡ x ∷ []
    → Follows wanted st
    → Follows (wanted ++ x ∷ []) (add_group x g st)
unfolding add_group
add_group-Follows wanted x g st g_x h = elim (Bool-cases (elem x st.seen)) [
  | inl old ↦ rw old (again wanted x st old h)
  | inr new ↦ rw new (first_time wanted x g st g_x new h)
]

module _ (cfg : PrometheusSdConfig) where
  add_peer-Follows :
      (p : PresentPeer) (wanted : List Text) (st : Groups)
      → Follows wanted st
      → Follows (wanted ++ address_of cfg p) (add_peer cfg p st)
  unfolding add_peer
  add_peer-Follows p wanted st h = elim (Bool-cases (is_empty p.primary_vpn_addr)) [
    | inl e ↦ rw e (subst (λ w. Follows w st) (sym (append-nil wanted)) h)
    | inr e ↦ rw e (add_group-Follows wanted (peer_address cfg p) _ st refl h)
  ]

  add_peers-Follows :
      (ps : List PresentPeer) (wanted : List Text) (st : Groups)
      → Follows wanted st
      → Follows (wanted ++ peer_addresses cfg ps) (add_peers cfg ps st)
  unfolding add_peers
  add_peers-Follows [] wanted st h = subst (λ w. Follows w st) (sym (append-nil wanted)) h
  add_peers-Follows (p ∷ ps) wanted st h =
      let one = add_peer-Follows p wanted st h in
      subst (λ w. Follows w (add_peers cfg ps (add_peer cfg p st)))
        (append_assoc wanted (address_of cfg p) (peer_addresses cfg ps))
        (add_peers-Follows ps (wanted ++ address_of cfg p) (add_peer cfg p st) one)

  add_lighthouses-Follows :
      (ls : List Lighthouse) (wanted : List Text) (st : Groups)
      → AllSplit cfg ls
      → Follows wanted st
      → (out : Groups) × (add_lighthouses cfg ls st ≡ ok out)
        × Follows (wanted ++ lighthouse_addresses cfg ls) out
  unfolding add_lighthouses add_lighthouse
  add_lighthouses-Follows [] wanted st _ h =
      (st, refl, subst (λ w. Follows w st) (sym (append-nil wanted)) h)
  add_lighthouses-Follows (l ∷ ls) wanted st ((found, e), rest) h =
      let address = join_host_port found.0 (port_text cfg.port) in
      let (out, same, good) =
        add_lighthouses-Follows ls (wanted ++ address ∷ []) (add_lighthouse cfg l found st) rest
          (add_group-Follows wanted address _ st refl h) in
      (
        out,
        rw e same,
        rw e (
            subst (λ w. Follows w out)
              (append_assoc wanted (address ∷ []) (lighthouse_addresses cfg ls)) good),
      )

  -- What is to be scraped: the peers that have an address, and the lighthouses.
  abbrev pub wanted_addresses : List Lighthouse → List PresentPeer → List Text
  wanted_addresses ls ps = peer_addresses cfg ps ++ lighthouse_addresses cfg ls

  -- If the address of every lighthouse splits into a host and a port, target groups are returned,
  -- whatever the peers; the address of a peer that has one and the host of a lighthouse, with the
  -- port of the options, are targets, each exactly once however many share it, and nothing else is.
  pub prometheus_target_groups_once :
      (ls : List Lighthouse) (ps : List PresentPeer)
      → AllSplit cfg ls
      → (gs : List TargetGroup) × (prometheus_target_groups cfg ls ps ≡ ok gs)
        × ((t : Text) → scraped t gs ≡ (if elem t (wanted_addresses ls ps) then 1 else 0))
  unfolding prometheus_target_groups elem count_if
  prometheus_target_groups_once ls ps split =
      let start : Groups = record { seen = []; groups = [] } in
      let none_yet : Follows [] start = λ t. (refl, refl) in
      let (out, same, good) =
        add_lighthouses-Follows ls (peer_addresses cfg ps) (add_peers cfg ps start) split
          (add_peers-Follows ps [] start none_yet) in
      (out.groups, rw same refl, λ t. (good t).1)
