-- ===== src/Db/Peers.antt =====
-- ListPresentHostmapPeers of internal/db/poll_runs.sql.go. The order of texts is the database's
-- collation, a parameter. The order of the lighthouses within latest_poll is not kept: the ranking
-- that reads it sorts anew.
pub mod Laws
pub mod Latest
use nebula_mnemosina.Prelude.{
  ℕ, suc, String, Bool, true, false, ◌||◌, ◌&&◌, not, List, [], ◌∷◌, ◌++◌, Option, none, some, ◌==◌,
  map, ltb, if◌then◌else◌,
}
use text.Mathlib.Text.{◌==◌ as str_eq}
use nebula_mnemosina.Prelude.Int.{ℤ, pos, negsuc, ltb_ℤ}
use nebula_mnemosina.Text.{Text, codes, text_eq, is_empty, itoa}
use nebula_mnemosina.Time.{Time, earlier}
use nebula_mnemosina.Errors.{ok}
use nebula_mnemosina.Db.{PollRun, HostmapRow, Tables, Query, statement}
use nebula_mnemosina.Db.Select.{select, order_by, distinct_on}

pub record ListPresentHostmapPeersRow : Type 0 where
  pub observed_at : Time
  pub lighthouse_name : Text
  pub peer_key : Text
  pub primary_vpn_addr : Option Text
  pub vpn_addrs : List Text
  pub cert_name : Option Text
  pub cert_fingerprint : Option Text
  pub cert_groups : List Text
  pub nebula_version : Option Text

module _ {A : Type 0} where
  -- COALESCE of two values.
  abbrev pub coalesce : Option A → A → A
  coalesce (some a) b = a
  coalesce none b = b

-- started_at DESC, id DESC
abbrev pub newer : PollRun → PollRun → Bool
newer a b =
    earlier b.started_at a.started_at || (not (earlier a.started_at b.started_at) && ltb b.id a.id)

abbrev pub same_lighthouse : PollRun → PollRun → Bool
same_lighthouse a b = text_eq a.lighthouse_name b.lighthouse_name

abbrev pub succeeded : PollRun → Bool
succeeded r = r.success

unfoldable pub latest_poll : List PollRun → List PollRun
unfolding distinct_on
latest_poll runs = distinct_on same_lighthouse (order_by newer (select succeeded runs))

-- `::text` of a number
unfoldable pub number_text : ℤ → Text
number_text (pos n) = itoa n
number_text (negsuc n) = b'-' ∷ itoa (suc n)

unfoldable pub peer_key : HostmapRow → Text
unfolding number_text
peer_key h =
    coalesce h.cert_fingerprint
      (coalesce h.primary_vpn_addr (number_text h.local_index ++ b':' ∷ number_text h.remote_index))

-- A row of the join, with the index that the ranking sorts by.
pub record Ranked : Type 0 where
  pub row : ListPresentHostmapPeersRow
  pub entry_index : ℤ

unfoldable pub join_row : PollRun → HostmapRow → Ranked
unfolding peer_key
join_row p h = record {
  row = record {
    observed_at = h.observed_at;
    lighthouse_name = h.lighthouse_name;
    peer_key = peer_key h;
    primary_vpn_addr = h.primary_vpn_addr;
    vpn_addrs = h.vpn_addrs;
    cert_name = h.cert_name;
    cert_fingerprint = h.cert_fingerprint;
    cert_groups = h.cert_groups;
    nebula_version = p.nebula_version;
  };
  entry_index = h.entry_index;
}

abbrev pub has_text : Option Text → Bool
has_text none = false
has_text (some s) = not (is_empty s)

-- The condition of the join, and WHERE.
unfoldable pub is_present : PollRun → HostmapRow → Bool
is_present p h =
    (h.poll_run_id == p.id) && (str_eq h.source "hostmap" && has_text h.primary_vpn_addr)

unfoldable pub join_entries : List PollRun → List HostmapRow → List Ranked
unfolding join_row is_present
join_entries [] entries = []
join_entries (p ∷ ps) entries =
    map (join_row p) (select (is_present p) entries) ++ join_entries ps entries

abbrev pub same_peer : Ranked → Ranked → Bool
same_peer a b = text_eq a.row.peer_key b.row.peer_key

-- ORDER BY h.observed_at DESC, h.lighthouse_name, h.entry_index
abbrev pub ranks_before : (Text → Text → Bool) → Ranked → Ranked → Bool
ranks_before collate a b =
    earlier b.row.observed_at a.row.observed_at
    || (not (earlier a.row.observed_at b.row.observed_at)
        && (collate a.row.lighthouse_name b.row.lighthouse_name
            || (not (collate b.row.lighthouse_name a.row.lighthouse_name)
                && ltb_ℤ a.entry_index b.entry_index)))

abbrev pub text_of : Option Text → Text
text_of none = []
text_of (some s) = s

abbrev pub shown_name : ListPresentHostmapPeersRow → Text
shown_name r = coalesce r.cert_name (text_of r.primary_vpn_addr)

-- ORDER BY COALESCE(cert_name, primary_vpn_addr), primary_vpn_addr
abbrev pub listed_before :
    (Text → Text → Bool) → ListPresentHostmapPeersRow → ListPresentHostmapPeersRow → Bool
listed_before collate a b =
    collate (shown_name a) (shown_name b)
    || (not (collate (shown_name b) (shown_name a))
        && collate (text_of a.primary_vpn_addr) (text_of b.primary_vpn_addr))

unfoldable pub present_peers : (Text → Text → Bool) → Tables → List ListPresentHostmapPeersRow
unfolding distinct_on latest_poll join_entries
present_peers collate t = order_by (listed_before collate) (
    map (λ r. r.row)
      (distinct_on same_peer (
        order_by (ranks_before collate)
          (join_entries (latest_poll t.poll_runs) t.hostmap_entries))))

unfoldable pub list_present_hostmap_peers :
    (Text → Text → Bool) → Query (List ListPresentHostmapPeersRow)
unfolding present_peers
list_present_hostmap_peers collate = statement (λ s. (ok (present_peers collate s.tables), s))
