-- ===== src/Db/Views/Latest.antt =====
-- The views of the newest rows in db/migrations/views/001_grafana_views.sql.
use text.Mathlib.Text.{◌==◌ as str_eq}
use nebula_mnemosina.Prelude.{
  ℕ, Bool, ◌&&◌, ◌+◌, if◌then◌else◌, sym, map, Bool-cases, inl, inr, refl, ◌==◌, [], ◌∷◌, true,
  false, List, Option, some, ◌≡◌, ◌∙◌, ap, arith,
}
use nebula_mnemosina.Prelude.Eq.{option_eq, pair_eq}
use nebula_mnemosina.Text.{Text, text_eq}
use nebula_mnemosina.Text.Laws.{texts_eq}
use nebula_mnemosina.Time.{earlier}
use nebula_mnemosina.Db.{PollRun, HostmapRow, Tables}
use nebula_mnemosina.Db.Select.{select, count_if, order_by, distinct_on, same_by}
use nebula_mnemosina.Db.Select.All.{
  All-of_append, All-of_select, All-of_map, All-true, All, Any, Among, Any-imp, Any-of_select,
  All-imp, All-map, All-append, All-order_by, All-distinct_on, All-Among_select,
}
use nebula_mnemosina.Db.Select.Keys.{
  order_by-count, count_if-select, count_if_eq, count_if-append_all,
}
use nebula_mnemosina.Db.Select.Distinct.{
  at_most_one, count_never, count_if-distinct_on, first_in_order,
}
use nebula_mnemosina.Db.Select.Group.{count_if-map, total, total_eq}
use nebula_mnemosina.Db.Peers.{peer_key}
use nebula_mnemosina.Db.Views.{MnemoCurrentPeer}
use nebula_mnemosina.Db.Views.Queries.{
  Joined, join_runs, from_hostmap, peer_partition, newer_entry, current_peer, current_peers,
}
use nebula_mnemosina.Db.Views.Keys.{current_peers_uq}

newer_entry_asym : (a b : Joined) → newer_entry a b ≡ true → newer_entry b a ≡ false
newer_entry_asym a b h = ground arith

newer_entry_trans :
    (a b c : Joined) → newer_entry b a ≡ false → newer_entry c b ≡ false → newer_entry c a ≡ false
newer_entry_trans a b c h k = ground arith

newer_entry_time :
    (a b : Joined)
    → newer_entry b a ≡ false
    → earlier a.entry.observed_at b.entry.observed_at ≡ false
newer_entry_time a b h = ground arith

-- The entries of the hostmaps, each with the run that it is of.
abbrev observed : Tables → List Joined
observed t = join_runs t.poll_runs (select from_hostmap t.hostmap_entries)

-- An entry that is of the hostmap, not pending, and its run.
abbrev pub is_entry_of : PollRun → HostmapRow → Bool
is_entry_of p h = str_eq h.source "hostmap" && (p.id == h.poll_run_id)

-- How many such entries there are of a lighthouse with a peer key.
abbrev pub entries_of : Tables → Text → Text → ℕ
entries_of t name key =
    total
      (λ h.
        count_if
          (λ p. is_entry_of p h && (text_eq h.lighthouse_name name && text_eq (peer_key h) key))
          t.poll_runs)
      t.hostmap_entries

-- No such entry of its lighthouse and peer was observed later.
abbrev pub IsNewest : Tables → MnemoCurrentPeer → Type 0
IsNewest t c =
    All
      (λ h.
        All
          (λ p.
            is_entry_of p h ≡ true
            → c.lighthouse_name ≡ h.lighthouse_name
            → c.peer_key ≡ some (peer_key h)
            → earlier c.observed_at h.observed_at ≡ false)
          t.poll_runs)
      t.hostmap_entries

-- What a row says of the entry of a hostmap and of the run that the entry is of.
abbrev pub IsShown : HostmapRow → PollRun → MnemoCurrentPeer → Type 0
IsShown h p c =
    (is_entry_of p h ≡ true)
    × (c.observed_at ≡ h.observed_at)
    × (c.lighthouse_name ≡ h.lighthouse_name)
    × (c.peer_key ≡ some (peer_key h))
    × (c.primary_vpn_addr ≡ h.primary_vpn_addr)
    × (c.vpn_addrs ≡ h.vpn_addrs)
    × (c.cert_name ≡ h.cert_name)
    × (c.cert_fingerprint ≡ h.cert_fingerprint)
    × (c.cert_groups ≡ h.cert_groups)
    × (c.cert_networks ≡ h.cert_networks)
    × (c.cert_unsafe_networks ≡ h.cert_unsafe_networks)
    × (c.cert_not_before ≡ h.cert_not_before)
    × (c.cert_not_after ≡ h.cert_not_after)
    × (c.current_remote ≡ h.current_remote)
    × (c.remote_addrs ≡ h.remote_addrs)
    × (c.message_counter ≡ h.message_counter)
    × (c.local_index ≡ h.local_index)
    × (c.remote_index ≡ h.remote_index)
    × (c.nebula_version ≡ p.nebula_version)

-- A row is of an entry and a run of the tables.
abbrev pub IsStored : Tables → MnemoCurrentPeer → Type 0
IsStored t c = Any (λ h. Any (λ p. IsShown h p c) t.poll_runs) t.hostmap_entries

join_runs-All :
    (P : Joined → Type 0) (runs : List PollRun) (hs : List HostmapRow)
    → ((h : HostmapRow)
        → Among h hs
        → (p : PollRun) → (p.id == h.poll_run_id) ≡ true
        → Among p runs
        → P (record { entry = h; nebula_version = p.nebula_version }))
    → All P (join_runs runs hs)
unfolding join_runs
join_runs-All P runs [] f = tt
join_runs-All P runs (h ∷ hs) f =
    All-append P _ _
      (All-map _ P _ (All-Among_select _ _ runs (λ p e among. f h (λ Q k. inl k) p e among)))
      (join_runs-All P runs hs (λ g among. f g (λ Q k. inr (among Q k))))

shown : (t : Tables) → All (λ j. IsStored t (current_peer j)) (observed t)
unfolding current_peer
shown t =
    join_runs-All _ t.poll_runs (select from_hostmap t.hostmap_entries) (λ h stored p same of_run.
      Any-imp (λ g (source, rest). Any-imp (λ q k. k source) t.poll_runs rest) t.hostmap_entries
        (Any-of_select (λ g. Any (λ q. from_hostmap g ≡ true → IsShown g q _) t.poll_runs)
          from_hostmap t.hostmap_entries
          (stored _ (
            of_run _ (λ source. (
              ground (arith, source, same),
              refl,
              refl,
              refl,
              refl,
              refl,
              refl,
              refl,
              refl,
              refl,
              refl,
              refl,
              refl,
              refl,
              refl,
              refl,
              refl,
              refl,
              refl,
            ))))))

total-select :
    (f : HostmapRow → ℕ) (q : HostmapRow → Bool) (hs : List HostmapRow)
    → total f (select q hs) ≡ total (λ h. if q h then f h else 0) hs
unfolding select
total-select f q [] = refl
total-select f q (h ∷ hs) = ground (arith, total-select f q hs)

count_if_guarded :
    {A : Type 0} (b : Bool) (q : A → Bool) (xs : List A)
    → (if b then count_if q xs else 0) ≡ count_if (λ x. b && q x) xs
count_if_guarded true q xs = refl
count_if_guarded false q xs = sym (count_never xs)

join_runs-count :
    (q : Joined → Bool) (runs : List PollRun) (hs : List HostmapRow)
    → count_if q (join_runs runs hs)
      ≡ total
          (λ h.
            count_if
              (λ p.
                (p.id == h.poll_run_id)
                && q (record { entry = h; nebula_version = p.nebula_version }))
              runs)
          hs
unfolding join_runs
join_runs-count q runs [] = unfold count_if in refl
join_runs-count q runs (h ∷ hs) =
    let joined : PollRun → Joined = λ p. record { entry = h; nebula_version = p.nebula_version } in
    let of_h = select (λ p. p.id == h.poll_run_id) runs in
    let here = count_if-map joined q of_h ∙ count_if-select (λ p. q (joined p)) _ runs in
    count_if-append_all q (map joined of_h) (join_runs runs hs)
    ∙ ap (λ n. n + count_if q (join_runs runs hs)) here
    ∙ ap (λ n. count_if (λ p. (p.id == h.poll_run_id) && q (joined p)) runs + n)
        (join_runs-count q runs hs)

observed-count :
    (t : Tables) (name key : Text)
    → count_if
        (λ j. (pair_eq {K = Text} {L = Text}).beq (peer_partition j) (name, key))
        (observed t)
      ≡ entries_of t name key
observed-count t name key =
    join_runs-count _ t.poll_runs (select from_hostmap t.hostmap_entries)
    ∙ total-select _ from_hostmap t.hostmap_entries
    ∙ total_eq _ _ t.hostmap_entries (λ h.
      count_if_guarded (from_hostmap h) _ t.poll_runs
      ∙ count_if_eq _ _ t.poll_runs (λ p. ground arith))

join_runs-each :
    (P : Joined → Type 0) (runs : List PollRun) (hs : List HostmapRow)
    → All P (join_runs runs hs)
    → All
        (λ h.
          All
            (λ p.
              (p.id == h.poll_run_id) ≡ true
              → P (record { entry = h; nebula_version = p.nebula_version }))
            runs)
        hs
unfolding join_runs
join_runs-each P runs [] all = tt
join_runs-each P runs (h ∷ hs) all =
    let (left, right) = All-of_append P _ (join_runs runs hs) all in
    (
      All-of_select _ (λ p. p.id == h.poll_run_id) runs (All-of_map _ P _ left),
      join_runs-each P runs hs right,
    )

newest :
    (t : Tables) (c : MnemoCurrentPeer)
    → All
        (λ j.
          c.lighthouse_name ≡ j.entry.lighthouse_name
          → c.peer_key ≡ some (peer_key j.entry)
          → earlier c.observed_at j.entry.observed_at ≡ false)
        (observed t)
    → IsNewest t c
newest t c all =
    All-imp
      (λ h each. elim (Bool-cases (from_hostmap h)) [
        | inl e ↦ All-imp (λ p f entry. f (ground (arith, e, entry))) t.poll_runs (each e)
        | inr e ↦
            All-imp (λ p u entry. absurd (ground (arith, e, entry))) t.poll_runs
              (All-true t.poll_runs)
      ])
      t.hostmap_entries
      (All-of_select _ from_hostmap t.hostmap_entries (join_runs-each _ t.poll_runs _ all))

-- Each peer that a lighthouse's hostmaps have, pending entries aside, stands once among the current
-- peers of that lighthouse, and no other peer does. Every row has the data of an entry of a hostmap
-- and of its run, and no entry of that lighthouse and peer was observed later.
pub current_peers_lem :
    (t : Tables)
    → ((name key : Text)
        → count_if
            (λ r. (pair_eq {K = Text} {L = Option Text}).beq (current_peers_uq r) (name, some key))
            (current_peers t)
          ≡ at_most_one (entries_of t name key))
      × All (IsStored t) (current_peers t)
      × All (IsNewest t) (current_peers t)
unfolding current_peers current_peer
current_peers_lem t = (
  λ name key.
      count_if-map current_peer _
        (distinct_on (same_by peer_partition) (order_by newer_entry (observed t)))
      ∙ count_if-distinct_on peer_partition (name, key) (order_by newer_entry (observed t))
      ∙ ap at_most_one (order_by-count _ newer_entry (observed t) ∙ observed-count t name key),
  All-map current_peer (IsStored t) _ (
      All-distinct_on _ (same_by peer_partition) (order_by newer_entry (observed t))
        (All-order_by newer_entry _ (observed t) (shown t))),
  All-map current_peer (IsNewest t) _ (
      All-imp
        (λ d h. newest t (current_peer d) (
          All-imp
            (λ j k same_name same_key.
              newer_entry_time d j
                (k ((pair_eq.beq_iff (peer_partition d) (peer_partition j)).1 cc)))
            (observed t) h))
        _
        (first_in_order peer_partition newer_entry newer_entry_asym newer_entry_trans
          (observed t))),
)
