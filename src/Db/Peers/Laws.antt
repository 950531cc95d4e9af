-- ===== src/Db/Peers/Laws.antt =====
-- The peer keys and the rows of the query ListPresentHostmapPeers of internal/db/poll_runs.sql.go.
use text.Mathlib.Text.{◌==◌ as str_eq}
use nebula_mnemosina.Prelude.{
  ℕ, ◌==◌, ◌&&◌, true, false, Option, none, some, inl, inr, sym, ◌+◌, Bool, List, [], ◌∷◌, map,
  if◌then◌else◌, ◌≡◌, refl, ◌∙◌, ap,
}
use nebula_mnemosina.Text.{Text, text_eq}
use nebula_mnemosina.Text.Laws.{texts_eq}
use nebula_mnemosina.Db.{PollRun, HostmapRow, Tables}
use nebula_mnemosina.Db.Select.{select, count_if, order_by, distinct_on}
use nebula_mnemosina.Db.Select.Distinct.{at_most_one, count_if-distinct_on}
use nebula_mnemosina.Db.Select.Keys.{
  count_if-append_all, order_by-count, count_if-select, count_if_eq,
}
use nebula_mnemosina.Db.Select.Group.{total}
use nebula_mnemosina.Db.Select.All.{
  All, Any, Among, All-map, All-append, All-order_by, All-distinct_on, All-Among_select,
}
use nebula_mnemosina.Db.Peers.{
  ListPresentHostmapPeersRow, latest_poll, peer_key, join_row, is_present, has_text, Ranked,
  join_entries, same_peer, ranks_before, listed_before, present_peers,
}

pub count_if-map :
    {A B : Type 0} (f : A → B) (p : B → Bool) (rs : List A)
    → count_if p (map f rs) ≡ count_if (λ r. p (f r)) rs
unfolding count_if
count_if-map f p [] = refl
count_if-map f p (r ∷ rs) = ap (λ n. (if p (f r) then 1 else 0) + n) (count_if-map f p rs)

abbrev has_address : HostmapRow → Bool
has_address h = elim h.primary_vpn_addr [
  | none ↦ false
  | some s ↦ elim s [ [] ↦ false | _ ∷ _ ↦ true ]
]

-- An entry of the hostmap of a run, not a pending one, that has an address.
abbrev pub is_entry_of : PollRun → HostmapRow → Bool
is_entry_of p h = (h.poll_run_id == p.id) && (str_eq h.source "hostmap" && has_address h)

-- How many such entries the latest successful runs have with a key.
abbrev pub entries_of : Tables → Text → ℕ
entries_of t k =
    total (λ p. count_if (λ h. is_entry_of p h && text_eq (peer_key h) k) t.hostmap_entries)
      (latest_poll t.poll_runs)

-- What a row says of an entry and of its run.
abbrev pub IsShown : PollRun → HostmapRow → ListPresentHostmapPeersRow → Type 0
IsShown p h r =
    (is_entry_of p h ≡ true)
    × (r.observed_at ≡ h.observed_at)
    × (r.lighthouse_name ≡ h.lighthouse_name)
    × (r.peer_key ≡ peer_key h)
    × (r.primary_vpn_addr ≡ h.primary_vpn_addr)
    × (r.vpn_addrs ≡ h.vpn_addrs)
    × (r.cert_name ≡ h.cert_name)
    × (r.cert_fingerprint ≡ h.cert_fingerprint)
    × (r.cert_groups ≡ h.cert_groups)
    × (r.nebula_version ≡ p.nebula_version)

-- A row is of an entry of the latest successful run of a lighthouse.
abbrev pub IsPresent : Tables → ListPresentHostmapPeersRow → Type 0
IsPresent t r = Any (λ p. Any (λ h. IsShown p h r) t.hostmap_entries) (latest_poll t.poll_runs)

is_present_lem : (p : PollRun) (h : HostmapRow) → is_present p h ≡ is_entry_of p h
unfolding is_present
is_present_lem p h =
    ap (λ b. (h.poll_run_id == p.id) && (str_eq h.source "hostmap" && b)) (go h.primary_vpn_addr)
  where
    go :
        (a : Option Text)
        → has_text a ≡ elim a [ none ↦ false | some s ↦ elim s [ [] ↦ false | _ ∷ _ ↦ true ] ]
    go none = refl
    go (some []) = refl
    go (some (b ∷ s)) = refl

join_entries-count :
    (k : Text) (ps : List PollRun) (hs : List HostmapRow)
    → count_if (λ c. text_eq c.row.peer_key k) (join_entries ps hs)
      ≡ total (λ p. count_if (λ h. is_entry_of p h && text_eq (peer_key h) k) hs) ps
unfolding join_entries join_row
join_entries-count k [] hs = unfold count_if in refl
join_entries-count k (p ∷ ps) hs =
    let here =
      count_if-map (join_row p) (λ c. text_eq c.row.peer_key k) (select (is_present p) hs)
      ∙ count_if-select (λ h. text_eq (peer_key h) k) (is_present p) hs
      ∙ count_if_eq _ _ hs (λ h. ap (λ b. b && text_eq (peer_key h) k) (is_present_lem p h)) in
    count_if-append_all (λ c. text_eq c.row.peer_key k)
      (map (join_row p) (select (is_present p) hs)) (join_entries ps hs)
    ∙ ap (λ n. n + count_if (λ c. text_eq c.row.peer_key k) (join_entries ps hs)) here
    ∙ ap (λ n. count_if (λ h. is_entry_of p h && text_eq (peer_key h) k) hs + n)
        (join_entries-count k ps hs)

join_entries-All :
    (P : Ranked → Type 0) (ps : List PollRun) (hs : List HostmapRow)
    → ((p : PollRun)
        → Among p ps
        → (h : HostmapRow) → is_present p h ≡ true
        → Among h hs
        → P (join_row p h))
    → All P (join_entries ps hs)
unfolding join_entries
join_entries-All P [] hs f = tt
join_entries-All P (p ∷ ps) hs f =
    All-append P _ _
      (All-map (join_row p) P _
        (All-Among_select _ (is_present p) hs (λ h e among. f p (λ Q k. inl k) h e among)))
      (join_entries-All P ps hs (λ q among. f q (λ Q k. inr (among Q k))))

shown :
    (t : Tables)
    → All (λ c. IsPresent t c.row) (join_entries (latest_poll t.poll_runs) t.hostmap_entries)
unfolding join_row
shown t = join_entries-All _ (latest_poll t.poll_runs) t.hostmap_entries (λ p of_latest h e stored.
    of_latest _ (
      stored _
        (sym (is_present_lem p h) ∙ e, refl, refl, refl, refl, refl, refl, refl, refl, refl)))

-- A peer key is listed exactly once if the latest successful run of some lighthouse has an entry
-- with it that is of the hostmap, not pending, and has an address, and not at all otherwise, whatever
-- the collation; and every row that is listed has the data of such an entry and of its run.
pub present_peers_once :
    (collate : Text → Text → Bool) (t : Tables)
    → ((k : Text)
        → count_if (λ r. text_eq r.peer_key k) (present_peers collate t)
          ≡ at_most_one (entries_of t k))
      × All (IsPresent t) (present_peers collate t)
unfolding present_peers
present_peers_once collate t =
    let key : Ranked → Text = λ c. c.row.peer_key in
    let candidates = join_entries (latest_poll t.poll_runs) t.hostmap_entries in
    let ranked = order_by (ranks_before collate) candidates in
    (
      λ k.
          order_by-count (λ r. text_eq r.peer_key k) (listed_before collate) _
          ∙ count_if-map (λ c. c.row) (λ r. text_eq r.peer_key k) (distinct_on same_peer ranked)
          ∙ count_if-distinct_on key k ranked
          ∙ ap at_most_one (
              order_by-count (λ c. text_eq c.row.peer_key k) (ranks_before collate) candidates
              ∙ join_entries-count k (latest_poll t.poll_runs) t.hostmap_entries),
      All-order_by (listed_before collate) (IsPresent t) _ (
          All-map (λ c. c.row) (IsPresent t) _
            (All-distinct_on _ same_peer ranked
              (All-order_by (ranks_before collate) _ candidates (shown t)))),
    )
