-- ===== src/Storage/Peers.antt =====
-- ListPresentHostmapPeers, RefreshGrafanaViews, DropChunks, Ping and IsNotFound of
-- internal/storage/storage.go. Refreshing a view and dropping chunks are the database's, given by what
-- they do to a state.
pub mod Laws
pub mod Refresh
use nebula_mnemosina.Prelude.{ℕ, String, Bool, true, false, List, [], ◌∷◌, Option, none, some, map}
use nebula_mnemosina.Text.{Text}
use nebula_mnemosina.Time.{Time}
use nebula_mnemosina.Errors.{Piece, Errors, lit, Error, no_rows, wrap, joined, Result, ok, err}
use nebula_mnemosina.Model.{PresentPeer}
use nebula_mnemosina.Db.{Nullable, Query, pure, ◌>>=◌, wrapping}
use nebula_mnemosina.Db.Peers.{ListPresentHostmapPeersRow, list_present_hostmap_peers}
use nebula_mnemosina.Storage.{text_value}

-- What Scan makes of a column that may be NULL.
abbrev pub scanned : Option Text → Nullable Text
scanned none = record { value = []; valid = false }
scanned (some s) = record { value = s; valid = true }

unfoldable pub present_peer : ListPresentHostmapPeersRow → PresentPeer
present_peer row = record {
  lighthouse_name = row.lighthouse_name;
  peer_key = row.peer_key;
  primary_vpn_addr = text_value (scanned row.primary_vpn_addr);
  vpn_addrs = row.vpn_addrs;
  cert_name = text_value (scanned row.cert_name);
  cert_fingerprint = text_value (scanned row.cert_fingerprint);
  cert_groups = row.cert_groups;
  nebula_version = text_value (scanned row.nebula_version);
}

unfoldable pub list_present_peers : (Text → Text → Bool) → Query (List PresentPeer)
unfolding present_peer
list_present_peers collate = do
  rows ← wrapping (lit "list present hostmap peers" ∷ []) (list_present_hostmap_peers collate)
  pure (map present_peer rows)

abbrev pub views : List String
views =
    "mnemo_current_peers" ∷ "mnemo_current_lighthouse_addrmap" ∷ "mnemo_poll_health_5m"
    ∷ "mnemo_peer_cert_inventory" ∷ "mnemo_lighthouse_disagreement" ∷ []

abbrev pub dropped_chunks : String → Result ℕ → Result ℕ
dropped_chunks table (ok dropped) = ok dropped
dropped_chunks table (err e) = err (wrap (lit "drop " ∷ lit table ∷ lit " chunks" ∷ []) e)

module _ {S : Type 0} where
  -- What follows the refresh of `view`.
  abbrev pub refreshed : String → Option Error × S → (S → Option Error × S) → Option Error × S
  refreshed view (none, s) rest = rest s
  refreshed view (some e, s) rest =
      (some (wrap (lit "refresh materialized view " ∷ lit view ∷ []) e), s)

  unfoldable pub refresh_all : (String → S → Option Error × S) → List String → S → Option Error × S
  refresh_all refresh [] s = (none, s)
  refresh_all refresh (view ∷ rest) s = refreshed view (refresh view s) (refresh_all refresh rest)

  unfoldable pub refresh_grafana_views : (String → S → Option Error × S) → S → Option Error × S
  unfolding refresh_all
  refresh_grafana_views refresh s = refresh_all refresh views s

  unfoldable pub drop_table_chunks :
      (String → Time → S → Result ℕ × S) → String → Time → S → Result ℕ × S
  drop_table_chunks drop table cutoff s =
      (dropped_chunks table (drop table cutoff s).0, (drop table cutoff s).1)

unfoldable mutual
  -- errors.Is(err, pgx.ErrNoRows)
  pub is_not_found : Error → Bool
  is_not_found no_rows = true
  is_not_found (wrap ps e) = is_not_found e
  is_not_found (joined es) = any_not_found es
  is_not_found _ = false

  pub any_not_found : Errors → Bool
  any_not_found Errors.nil = false
  any_not_found (Errors.cons e es) = elim (is_not_found e) [
    | true ↦ true
    | false ↦ any_not_found es
  ]
