-- ===== src/Storage/Peers/Laws.antt =====
-- What ListPresentHostmapPeers of internal/storage/storage.go shows of the stored peers.
use nebula_mnemosina.Prelude.{
  Bool, true, false, List, [], ◌∷◌, Option, none, some, map, ◌≡◌, sym, ◌∙◌, ap, subst, arith,
}
use nebula_mnemosina.Text.{Text, is_empty}
use nebula_mnemosina.Errors.{ok_inj, Piece, lit, ok}
use nebula_mnemosina.Model.{PresentPeer}
use nebula_mnemosina.Db.{
  PollRun, HostmapRow, Session, Tables, wrapping, statement_ok, >>=-eq-ok, pure, wrap_result-ok,
}
use nebula_mnemosina.Db.Select.{select, order_by, distinct_on}
use nebula_mnemosina.Db.Peers.{
  has_text, join_row, is_present, join_entries, latest_poll, same_peer, ranks_before, listed_before,
  present_peers, ListPresentHostmapPeersRow, list_present_hostmap_peers,
}
use nebula_mnemosina.Db.Select.All.{
  All, All-imp, All-map, All-append, All-select, All-true, All-order_by,
}
use nebula_mnemosina.Db.Select.Distinct.{All-distinct_on}
use nebula_mnemosina.Storage.{text_value}
use nebula_mnemosina.Storage.Peers.{scanned, present_peer, list_present_peers}

abbrev HasAddress : ListPresentHostmapPeersRow → Type 0
HasAddress r = has_text r.primary_vpn_addr ≡ true

is_present_text :
    (p : PollRun) (h : HostmapRow) → is_present p h ≡ true → has_text h.primary_vpn_addr ≡ true
unfolding is_present
is_present_text p h e = ground arith

join_entries_addresses :
    (ps : List PollRun) (entries : List HostmapRow)
    → All (λ c. HasAddress c.row) (join_entries ps entries)
unfolding join_entries join_row
join_entries_addresses [] entries = tt
join_entries_addresses (p ∷ ps) entries =
    All-append _ (map (join_row p) (select (is_present p) entries)) (join_entries ps entries)
      (All-map (join_row p) _ (select (is_present p) entries) (
        All-imp (λ h (e, u). is_present_text p h e) _
          (All-select (λ h. Unit {0}) (is_present p) entries (All-true entries))))
      (join_entries_addresses ps entries)

present_peers_addresses :
    (collate : Text → Text → Bool) (t : Tables) → All HasAddress (present_peers collate t)
unfolding present_peers
present_peers_addresses collate t =
    let candidates = join_entries (latest_poll t.poll_runs) t.hostmap_entries in
    let ranked = order_by (ranks_before collate) candidates in
    All-order_by (listed_before collate) HasAddress _ (
      All-map (λ c. c.row) HasAddress (distinct_on same_peer ranked)
        (All-distinct_on same_peer (λ c. HasAddress c.row) ranked
          (All-order_by (ranks_before collate) (λ c. HasAddress c.row) candidates
            (join_entries_addresses (latest_poll t.poll_runs) t.hostmap_entries))))

shown_address :
    (r : ListPresentHostmapPeersRow)
    → HasAddress r
    → is_empty (present_peer r).primary_vpn_addr ≡ false
unfolding present_peer text_value
shown_address r h = go r.primary_vpn_addr h
  where
    go : (a : Option Text) → has_text a ≡ true → is_empty (text_value (scanned a)) ≡ false
    go none h = absurd (ground arith)
    go (some a) h = ground arith

-- A listing that succeeds gives the peers that the database has present, each with an address, and
-- changes no table.
pub list_present_peers_lem :
    (collate : Text → Text → Bool) (s : Session) {peers : List PresentPeer}
    → (list_present_peers collate s).0 ≡ ok peers
    → (peers ≡ map present_peer (present_peers collate s.tables))
      × All (λ p. is_empty p.primary_vpn_addr ≡ false) peers
      × ((list_present_peers collate s).1.tables ≡ s.tables)
unfolding list_present_peers list_present_hostmap_peers
list_present_peers_lem collate s {peers} h =
    let ps : List Piece = lit "list present hostmap peers" ∷ [] in
    let query = list_present_hostmap_peers collate in
    let (rows, e, go) = >>=-eq-ok (wrapping ps query) (λ rows. pure (map present_peer rows)) s h in
    let got = wrap_result-ok ps (query s).0 e in
    let (f, ran) = statement_ok _ s got in
    let same : rows ≡ present_peers collate s.tables = ok_inj (sym got ∙ ap (λ r. r.0) ran) in
    let eq : peers ≡ map present_peer (present_peers collate s.tables) =
      ok_inj (sym h ∙ ap (λ r. r.0) go) ∙ ap (map present_peer) same in
    (
      eq,
      subst (All (λ p. is_empty p.primary_vpn_addr ≡ false)) (sym eq) (
          All-map present_peer _ (present_peers collate s.tables)
            (All-imp shown_address _ (present_peers_addresses collate s.tables))),
      ap (λ r. r.1.tables) go ∙ ap (λ r. r.1.tables) ran,
    )
