-- ===== src/Storage/Save/Valid.antt =====
-- Queries that succeed if nothing outside fails: the statements, each with its constraints.
use nebula_mnemosina.Prelude.{ℕ, true, false, List, [], ◌∷◌, none, some, ◌≡◌, refl, sym, ap, subst}
use nebula_mnemosina.Text.{Text}
use nebula_mnemosina.Time.{Time, is_zero}
use nebula_mnemosina.Errors.{Piece, ok}
use nebula_mnemosina.Model.{Slice, CommandResult, HostmapEntry, LighthouseAddrmapEntry}
use nebula_mnemosina.Db.{Session, Query, ◌>>◌, continue, wrapping, wrap_result, pure, NoFaults}
use nebula_mnemosina.Db.Params.{
  InsertRawCommandPayloadParams, InsertHostmapEntryParams, InsertLighthouseAddrmapEntryParams,
  InsertRelaySnapshotParams,
}
use nebula_mnemosina.Db.PollRuns.{
  has_run, given, hostmap_valid, addrmap_valid, insert_raw_command_payload, insert_hostmap_entry,
  insert_lighthouse_addrmap_entry, insert_relay_snapshot,
}
use nebula_mnemosina.Db.PollRuns.Laws.{checked_runs}
use nebula_mnemosina.Storage.{timestamptz, non_nil}

-- Nothing will fail, and the run is there.
abbrev pub Ready : ℕ → Session → Type 0
Ready id s = NoFaults s.faults × (has_run id s.tables.poll_runs ≡ true)

-- A query that succeeds whenever nothing fails and the run is there, and keeps it so.
abbrev pub Safe : ℕ → Query (Unit {0}) → Type 0
Safe id q = (s : Session) → Ready id s → ((q s).0 ≡ ok tt) × Ready id (q s).1

pub then-Safe : (id : ℕ) (q k : Query (Unit {0})) → Safe id q → Safe id k → Safe id (q >> k)
then-Safe id q k first second s ready =
    let (e, kept) = first s ready in
    let go : (q >> k) s ≡ k (q s).1 = ap (λ r. continue r (λ _. k) (q s).1) e in
    subst (λ r. (r.0 ≡ ok tt) × Ready id r.1) (sym go) (second (q s).1 kept)

pub wrapping-Safe :
    (id : ℕ) (ps : List Piece) (q : Query (Unit {0})) → Safe id q → Safe id (wrapping ps q)
wrapping-Safe id ps q first s ready = let (e, kept) = first s ready in (ap (wrap_result ps) e, kept)

pub first-Safe :
    (id : ℕ) (ps : List Piece) (q k : Query (Unit {0}))
    → Safe id q
    → Safe id k
    → Safe id (wrapping ps q >> k)
first-Safe id ps q k first second =
    then-Safe id (wrapping ps q) k (wrapping-Safe id ps q first) second

pub pure-Safe : (id : ℕ) → Safe id (pure tt)
pure-Safe id s ready = (refl, ready)

pub given-non_nil : (xs : Slice Text) → given (non_nil xs) ≡ true
unfolding non_nil
given-non_nil none = refl
given-non_nil (some xs) = refl

pub insert_raw-Safe :
    (p : InsertRawCommandPayloadParams)
    → p.observed_at.valid ≡ true
    → Safe p.poll_run_id (insert_raw_command_payload p)
unfolding insert_raw_command_payload
insert_raw-Safe p v s (quiet, there) =
    let (f, rest, ran) = checked_runs _ _ s quiet (λ f. rw (there, v)) in
    subst (λ r. (r.0 ≡ ok tt) × Ready p.poll_run_id r.1) (sym ran) (refl, (rest, there))

pub insert_hostmap-Safe :
    (p : InsertHostmapEntryParams)
    → hostmap_valid p ≡ true
    → Safe p.poll_run_id (insert_hostmap_entry p)
unfolding insert_hostmap_entry
insert_hostmap-Safe p v s (quiet, there) =
    let (f, rest, ran) = checked_runs _ _ s quiet (λ f. rw (there, v)) in
    subst (λ r. (r.0 ≡ ok tt) × Ready p.poll_run_id r.1) (sym ran) (refl, (rest, there))

pub insert_addrmap-Safe :
    (p : InsertLighthouseAddrmapEntryParams)
    → addrmap_valid p ≡ true
    → Safe p.poll_run_id (insert_lighthouse_addrmap_entry p)
unfolding insert_lighthouse_addrmap_entry
insert_addrmap-Safe p v s (quiet, there) =
    let (f, rest, ran) = checked_runs _ _ s quiet (λ f. rw (there, v)) in
    subst (λ r. (r.0 ≡ ok tt) × Ready p.poll_run_id r.1) (sym ran) (refl, (rest, there))

pub insert_relay-Safe :
    (p : InsertRelaySnapshotParams)
    → p.observed_at.valid ≡ true
    → given p.relays ≡ true
    → Safe p.poll_run_id (insert_relay_snapshot p)
unfolding insert_relay_snapshot
insert_relay-Safe p v g s (quiet, there) =
    let (f, rest, ran) = checked_runs _ _ s quiet (λ f. rw (there, v, g)) in
    subst (λ r. (r.0 ≡ ok tt) × Ready p.poll_run_id r.1) (sym ran) (refl, (rest, there))

-- Every command has a start time.
abbrev pub AllStarted : List CommandResult → Type 0
AllStarted [] = Unit
AllStarted (c ∷ cs) = (is_zero c.started_at ≡ false) × AllStarted cs

-- Every hostmap entry has its bytes, as the parser leaves it.
abbrev pub AllKept : List HostmapEntry → Type 0
AllKept [] = Unit
AllKept (e ∷ es) = ((c : ℕ) × (cs : List ℕ) × (e.raw ≡ some (c ∷ cs))) × AllKept es

-- Every entry of the address map has its bytes.
abbrev pub AllGiven : List LighthouseAddrmapEntry → Type 0
AllGiven [] = Unit
AllGiven (e ∷ es) = (given e.raw ≡ true) × AllGiven es

pub timestamptz-valid : (t : Time) → is_zero t ≡ false → (timestamptz t).valid ≡ true
unfolding timestamptz
timestamptz-valid t h = rw h refl
