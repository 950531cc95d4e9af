-- ===== src/Db/Views/Keys.antt =====
-- The unique indexes of the views in db/migrations/views/001_grafana_views.sql.
use nebula_mnemosina.Prelude.{
  ℕ, zero, suc, ◌≤◌, Bool, true, List, [], ◌∷◌, Option, map, ◌≡◌, inl, inr, sym, ◌∙◌, arith,
  Bool-cases,
}
use nebula_mnemosina.Prelude.Eq.{Eq, int_eq, option_eq, pair_eq}
use nebula_mnemosina.Text.{Text}
use nebula_mnemosina.Text.Laws.{texts_eq}
use nebula_mnemosina.Time.{Time}
use nebula_mnemosina.Db.{Tables}
use nebula_mnemosina.Db.Select.{select, count_if, order_by, distinct_on, same_by, group_by}
use nebula_mnemosina.Db.Select.Keys.{count_if-le}
use nebula_mnemosina.Db.Select.Distinct.{at_most_one, count_if-distinct_on}
use nebula_mnemosina.Db.Select.Group.{count_if-map, group_by-once}
use nebula_mnemosina.Db.Peers.{coalesce}
use nebula_mnemosina.Db.Views.{
  Functions, MnemoCurrentPeer, MnemoCurrentLighthouseAddrmap, MnemoPollHealth5m,
  MnemoPeerCertInventory, MnemoLighthouseDisagreement,
}
use nebula_mnemosina.Db.Views.Queries.{
  join_runs, from_hostmap, peer_partition, newer_entry, current_peer, current_peers,
  addrmap_partition, newer_addrmap, current_addrmap_row, current_lighthouse_addrmap, cert_key,
  newer_row, inventory_row, peer_cert_inventory, health_group, health_row, poll_health_5m,
  disagrees, disagreement_row, lighthouse_disagreement,
}

-- UNIQUE INDEX: no two rows have the same key.
abbrev pub IsUnique : {A K : Type 0} ⦃e : Eq K⦄ → (A → K) → List A → Type 0
IsUnique {K} ⦃e⦄ key rows = (k : K) → count_if (λ r. e.beq (key r) k) rows ≤ 1

at_most_one-le : (n : ℕ) → at_most_one n ≤ 1
at_most_one-le zero = omega arith
at_most_one-le (suc n) = omega arith

module _ {A : Type 0} where
  count_imp :
      (p q : A → Bool) (rs : List A)
      → ((r : A) → p r ≡ true → q r ≡ true)
      → count_if p rs ≤ count_if q rs
  unfolding count_if
  count_imp p q [] h = omega arith
  count_imp p q (r ∷ rs) h = ground (arith, h r, count_imp p q rs h)

module _ {A K : Type 0} ⦃e : Eq K⦄ (key : A → K) where
  distinct_on-IsUnique : (rs : List A) → IsUnique key (distinct_on (same_by key) rs)
  distinct_on-IsUnique rs k =
      omega
        (arith, count_if-distinct_on key k rs, at_most_one-le (count_if (λ r. e.beq (key r) k) rs))

  select-IsUnique : (q : A → Bool) (rs : List A) → IsUnique key rs → IsUnique key (select q rs)
  select-IsUnique q rs h k = omega (arith, count_if-le (λ r. e.beq (key r) k) q rs, h k)

  group_by-IsUnique : (rs : List A) → IsUnique (λ g. g.0) (group_by key rs)
  group_by-IsUnique rs k =
      omega (arith, group_by-once key k rs, at_most_one-le (count_if (λ r. e.beq (key r) k) rs))

module _ {A K : Type 0} ⦃e : Eq K⦄ (key : A → K) (p : A → Bool)
    (same : (x y : A) → p x ≡ true → p y ≡ true → key x ≡ key y) where
  -- Rows that all have one key.
  one_key : (rs : List A) → IsUnique key rs → count_if p rs ≤ 1
  unfolding count_if
  one_key [] h = omega arith
  one_key (r ∷ rs) h = elim (Bool-cases (p r)) [
    | inl t ↦
        let fewer =
          count_imp p (λ x. e.beq (key x) (key r)) (r ∷ rs)
            (λ x u. (e.beq_iff (key x) (key r)).1 (same x r u t)) in
        let one = h (key r) in omega (arith, fewer, one)
    | inr n ↦
        let rest = one_key rs (λ k. let hk = h k in omega (arith, hk)) in ground (arith, n, rest)
  ]

-- A column that tells apart what a key does.
map-IsUnique :
    {A B K L : Type 0} ⦃e : Eq K⦄ ⦃d : Eq L⦄ (key : A → K) (col : B → L) (f : A → B)
    → ((x y : A) → col (f x) ≡ col (f y) → key x ≡ key y)
    → (rs : List A) → IsUnique key rs
    → IsUnique col (map f rs)
map-IsUnique ⦃e⦄ ⦃d⦄ key col f finer rs h k =
    let one =
      one_key key (λ r. d.beq (col (f r)) k)
        (λ x y p q. finer x y ((d.beq_iff _ k).0 p ∙ sym ((d.beq_iff _ k).0 q))) rs h in
    omega (arith, count_if-map f (λ r. d.beq (col r) k) rs, one)

-- The columns of the indexes.
abbrev pub current_peers_uq : MnemoCurrentPeer → Text × Option Text
current_peers_uq r = (r.lighthouse_name, r.peer_key)

abbrev pub current_lighthouse_addrmap_uq : MnemoCurrentLighthouseAddrmap → (Text × Text) × Text
current_lighthouse_addrmap_uq r = ((r.lighthouse_name, r.vpn_addr), coalesce r.reporter_vpn_addr [])

abbrev pub peer_cert_inventory_uq : MnemoPeerCertInventory → Option Text
peer_cert_inventory_uq r = r.peer_key

abbrev pub lighthouse_disagreement_uq : MnemoLighthouseDisagreement → Text
lighthouse_disagreement_uq r = r.vpn_addr

current_peers-IsUnique : (t : Tables) → IsUnique current_peers_uq (current_peers t)
unfolding current_peers
current_peers-IsUnique t =
    map-IsUnique peer_partition current_peers_uq current_peer (λ x y h. cc) _
      (distinct_on-IsUnique peer_partition
        (order_by newer_entry (join_runs t.poll_runs (select from_hostmap t.hostmap_entries))))

current_lighthouse_addrmap-IsUnique :
    (t : Tables) → IsUnique current_lighthouse_addrmap_uq (current_lighthouse_addrmap t)
unfolding current_lighthouse_addrmap
current_lighthouse_addrmap-IsUnique t =
    map-IsUnique addrmap_partition current_lighthouse_addrmap_uq current_addrmap_row (λ x y h. h) _
      (distinct_on-IsUnique addrmap_partition (order_by newer_addrmap t.lighthouse_addrmap_entries))

peer_cert_inventory-IsUnique :
    (t : Tables) → IsUnique peer_cert_inventory_uq (peer_cert_inventory t)
unfolding peer_cert_inventory
peer_cert_inventory-IsUnique t =
    map-IsUnique cert_key peer_cert_inventory_uq inventory_row (λ x y h. h) _
      (distinct_on-IsUnique cert_key (order_by newer_row (select from_hostmap t.hostmap_entries)))

module _ {F : Type 0} (f : Functions F) where
  abbrev pub poll_health_5m_uq : MnemoPollHealth5m F → Time × Text
  poll_health_5m_uq r = (r.bucket, r.lighthouse_name)

  poll_health_5m-IsUnique : (t : Tables) → IsUnique poll_health_5m_uq (poll_health_5m f t)
  unfolding poll_health_5m
  poll_health_5m-IsUnique t =
      map-IsUnique (λ g. g.0) poll_health_5m_uq (health_row f) (λ x y h. h) _
        (group_by-IsUnique (health_group f) t.poll_runs)

  lighthouse_disagreement-IsUnique :
      (rows : List MnemoCurrentLighthouseAddrmap)
      → IsUnique lighthouse_disagreement_uq (lighthouse_disagreement f rows)
  unfolding lighthouse_disagreement
  lighthouse_disagreement-IsUnique rows =
      map-IsUnique (λ g. g.0) lighthouse_disagreement_uq (disagreement_row f) (λ x y h. h) _
        (select-IsUnique (λ g. g.0) (λ g. disagrees f g.1) _
          (group_by-IsUnique (λ a. a.vpn_addr) rows))

-- The five unique indexes hold whatever the tables have, so a refresh never breaks one: no two
-- current peers share a lighthouse and a peer key, no two current address maps a lighthouse, an
-- address and a reporter, no two health rows a bucket and a lighthouse, no two rows of the inventory
-- a key, and no two rows of the disagreements an address.
pub views-AreUnique :
    {F : Type 0} (f : Functions F) (t : Tables)
    → IsUnique current_peers_uq (current_peers t)
      × IsUnique current_lighthouse_addrmap_uq (current_lighthouse_addrmap t)
      × IsUnique (poll_health_5m_uq f) (poll_health_5m f t)
      × IsUnique peer_cert_inventory_uq (peer_cert_inventory t)
      × IsUnique lighthouse_disagreement_uq
          (lighthouse_disagreement f (current_lighthouse_addrmap t))
views-AreUnique f t = (
  current_peers-IsUnique t,
  current_lighthouse_addrmap-IsUnique t,
  poll_health_5m-IsUnique f t,
  peer_cert_inventory-IsUnique t,
  lighthouse_disagreement-IsUnique f (current_lighthouse_addrmap t),
)
