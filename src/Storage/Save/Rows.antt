-- ===== src/Storage/Save/Rows.antt =====
-- Rows behind those that a session has, and queries that add them.
use nebula_mnemosina.Prelude.{
  ◌+◌, List, [], ◌++◌, append_assoc, append-nil, Option, ◌≡◌, sym, ap, ◌∙◌, length, length-append,
}
use native.Mathlib.Nat.{add_assoc}
use native.Mathlib.Numerals.{unary_clauses}
use nebula_mnemosina.Errors.{Piece, ok}
use nebula_mnemosina.Db.{
  Fault, Session, Query, RawCommandPayload, HostmapRow, AddrmapRow, RelaySnapshot, ◌>>◌, wrapping,
  wrap_result, pure, >>=-eq-ok, wrap_result-ok,
}

-- Rows added to the four tables beside poll_runs.
pub record Added : Type 0 where
  pub raw : List RawCommandPayload
  pub hostmap : List HostmapRow
  pub addrmap : List AddrmapRow
  pub relays : List RelaySnapshot

-- The session with these rows behind those that it has, and the faults that are left.
abbrev pub add : Added → List (Option Fault) → Session → Session
add a faults s = record {
  tables = record {
    poll_runs = s.tables.poll_runs;
    raw_command_payloads = s.tables.raw_command_payloads ++ a.raw;
    hostmap_entries = s.tables.hostmap_entries ++ a.hostmap;
    lighthouse_addrmap_entries = s.tables.lighthouse_addrmap_entries ++ a.addrmap;
    relay_snapshots = s.tables.relay_snapshots ++ a.relays;
  };
  next_run = s.next_run;
  next_payload = s.next_payload + length a.raw;
  faults = faults;
}

-- A query that succeeded added exactly these rows.
abbrev pub Adds : Query (Unit {0}) → Session → Added → Type 0
Adds q s a = (faults : List (Option Fault)) × (q s ≡ (ok tt, add a faults s))

abbrev pub nothing : Added
nothing = record { raw = []; hostmap = []; addrmap = []; relays = [] }

abbrev pub both : Added → Added → Added
both a b = record {
  raw = a.raw ++ b.raw;
  hostmap = a.hostmap ++ b.hostmap;
  addrmap = a.addrmap ++ b.addrmap;
  relays = a.relays ++ b.relays;
}

pub add-nothing : (s : Session) → add nothing s.faults s ≡ s
add-nothing s = simp (append-nil, unary_clauses)

pub add-both :
    (a b : Added) (f g : List (Option Fault)) (s : Session)
    → add b g (add a f s) ≡ add (both a b) g s
add-both a b f g s = simp (append_assoc, length-append, add_assoc)

pub pure-Adds : (s : Session) → Adds (pure tt) s nothing
pure-Adds s = (s.faults, ap (λ t. (ok tt, t)) (sym (add-nothing s)))

-- Two queries one behind the other.
pub then-Adds :
    (q k : Query (Unit {0})) (s : Session) (a b : Added)
    → ((q s).0 ≡ ok tt → Adds q s a)
    → ((f : List (Option Fault)) → (k (add a f s)).0 ≡ ok tt → Adds k (add a f s) b)
    → ((q >> k) s).0 ≡ ok tt
    → Adds (q >> k) s (both a b)
then-Adds q k s a b first second h =
    let (_, e, split) = >>=-eq-ok q (λ _. k) s h in
    let (f, ran) = first e in
    let go : (q >> k) s ≡ k (add a f s) = split ∙ ap (λ r. k r.1) ran in
    let (g, rest) = second f (sym (ap (λ r. r.0) go) ∙ h) in
    (g, go ∙ rest ∙ ap (λ t. (ok tt, t)) (add-both a b f g s))

pub wrapping-Adds :
    (ps : List Piece) (q : Query (Unit {0})) (s : Session) (a : Added)
    → ((q s).0 ≡ ok tt → Adds q s a)
    → (wrapping ps q s).0 ≡ ok tt
    → Adds (wrapping ps q) s a
wrapping-Adds ps q s a first h =
    let (f, ran) = first (wrap_result-ok ps (q s).0 h) in
    (f, ap (λ r. (wrap_result ps r.0, r.1)) ran)

-- One statement, and the rest behind it.
pub first-Adds :
    (ps : List Piece) (q k : Query (Unit {0})) (s : Session) (a b : Added)
    → ((q s).0 ≡ ok tt → Adds q s a)
    → ((f : List (Option Fault)) → (k (add a f s)).0 ≡ ok tt → Adds k (add a f s) b)
    → ((wrapping ps q >> k) s).0 ≡ ok tt
    → Adds (wrapping ps q >> k) s (both a b)
first-Adds ps q k s a b first second h =
    then-Adds (wrapping ps q) k s a b (wrapping-Adds ps q s a first) second h
