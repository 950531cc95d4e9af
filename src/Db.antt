-- ===== src/Db.antt =====
-- internal/db: the queries that sqlc generates, over PostgreSQL tables as lists of rows. Db holds
-- the rows of models.go and what a session is; Params the parameters, Select what the queries use of
-- SQL, PollRuns and Peers the statements of poll_runs.sql.go, Retention those of retention.sql.go,
-- Views the materialized views.
pub mod Params
pub mod Select
pub mod PollRuns
pub mod Retention
pub mod Peers
pub mod Views
use nebula_mnemosina.Prelude.{
  ℕ, String, Bool, true, false, List, [], ◌∷◌, ◌++◌, Option, none, some, ◌≡◌, ◌⊎◌, inl, inr, refl,
  arith,
}
use nebula_mnemosina.Prelude.Int.{ℤ}
use nebula_mnemosina.Text.{Text, codes}
use nebula_mnemosina.Time.{Time, micros}
use nebula_mnemosina.Errors.{Piece, Error, foreign, wrap, Result, ok, err}

-- The value types of pgtype: Text, Int4, Bool, Timestamptz. An invalid value is NULL.
pub record Nullable (A : Type 0) : Type 0 where
  pub value : A
  pub valid : Bool

unfoldable pub column : {A : Type 0} → Nullable A → Option A
column n = elim n.valid [ true ↦ some n.value | false ↦ none ]

-- A timestamptz.
unfoldable pub time_column : Nullable Time → Option Time
time_column n = elim n.valid [ true ↦ some (micros n.value) | false ↦ none ]

pub record PollRun : Type 0 where
  pub id : ℕ
  pub started_at : Time
  pub finished_at : Option Time
  pub lighthouse_name : Text
  pub ssh_target : Text
  pub success : Bool
  pub duration_ms : ℤ
  pub error : Option Text
  pub nebula_version : Option Text
  pub device_name : Option Text
  pub device_cidrs : List Text
  pub command_count : ℤ

pub record RawCommandPayload : Type 0 where
  pub id : ℕ
  pub poll_run_id : ℕ
  pub observed_at : Time
  pub lighthouse_name : Text
  pub command : Text
  pub success : Bool
  pub duration_ms : ℤ
  pub output : Text
  pub error : Option Text

-- The three tables below have an `id` that no statement reads; it is left out.
pub record HostmapRow : Type 0 where
  pub poll_run_id : ℕ
  pub observed_at : Time
  pub lighthouse_name : Text
  pub source : String
  pub entry_index : ℤ
  pub vpn_addrs : List Text
  pub primary_vpn_addr : Option Text
  pub local_index : ℤ
  pub remote_index : ℤ
  pub remote_addrs : List Text
  pub message_counter : ℤ
  pub current_remote : Text
  pub current_relays_to_me : List Text
  pub current_relays_through_me : List Text
  pub cert_curve : Option Text
  pub cert_name : Option Text
  pub cert_fingerprint : Option Text
  pub cert_public_key : Option Text
  pub cert_signature : Option Text
  pub cert_version : Option ℤ
  pub cert_groups : List Text
  pub cert_is_ca : Option Bool
  pub cert_issuer : Option Text
  pub cert_networks : List Text
  pub cert_unsafe_networks : List Text
  pub cert_not_before : Option Time
  pub cert_not_after : Option Time
  pub raw : Text

pub record AddrmapRow : Type 0 where
  pub poll_run_id : ℕ
  pub observed_at : Time
  pub lighthouse_name : Text
  pub vpn_addr : Text
  pub reporter_vpn_addr : Option Text
  pub learned_addrs : List Text
  pub reported_addrs : List Text
  pub relay_vpn_addrs : List Text
  pub raw : Text

pub record RelaySnapshot : Type 0 where
  pub poll_run_id : ℕ
  pub observed_at : Time
  pub lighthouse_name : Text
  pub relays : Text

pub record Tables : Type 0 where
  pub poll_runs : List PollRun
  pub raw_command_payloads : List RawCommandPayload
  pub hostmap_entries : List HostmapRow
  pub lighthouse_addrmap_entries : List AddrmapRow
  pub relay_snapshots : List RelaySnapshot

abbrev pub no_rows_at_all : Tables
no_rows_at_all = record {
  poll_runs = [];
  raw_command_payloads = [];
  hostmap_entries = [];
  lighthouse_addrmap_entries = [];
  relay_snapshots = [];
}

-- A statement fails before it is carried out, or behind that, when only its answer is lost.
pub data Fault : Type 0 where
  refused lost : Error → Fault

-- The tables, the two sequences of ids (a rollback does not set them back), and the failures to
-- come: one entry for each statement, BEGIN and COMMIT, with the fault if the server, the
-- connection or the context makes it fail. Behind the end of the list nothing fails. That the server
-- refuses a value for its type (bytes that are no JSON, a zero byte in a text) is such a failure.
pub record Session : Type 0 where
  pub tables : Tables
  pub next_run : ℕ
  pub next_payload : ℕ
  pub faults : List (Option Fault)

abbrev pub Query : Type 0 → Type 0
Query A = Session → Result A × Session

abbrev pub pure : {A : Type 0} → A → Query A
pure a s = (ok a, s)

abbrev pub fail : {A : Type 0} → Error → Query A
fail e s = (err e, s)

abbrev pub continue : {A B : Type 0} → Result A → (A → Query B) → Query B
continue (ok a) f s = f a s
continue (err e) f s = (err e, s)

infixl 5 ◌>>=◌ ◌>>◌
abbrev pub ◌>>=◌ : {A B : Type 0} → Query A → (A → Query B) → Query B
◌>>=◌ m f s = continue (m s).0 f (m s).1

abbrev pub ◌>>◌ : {B : Type 0} → Query (Unit {0}) → Query B → Query B
m >> k = m >>= λ _. k

abbrev pub wrap_result : {A : Type 0} → List Piece → Result A → Result A
wrap_result ps (ok a) = ok a
wrap_result ps (err e) = err (wrap ps e)

pub wrap_result-ok :
    {A : Type 0} (ps : List Piece) (r : Result A) {a : A} → wrap_result ps r ≡ ok a → r ≡ ok a
wrap_result-ok ps (ok a) h = h
wrap_result-ok ps (err e) h = absurd (ground arith)

-- `if err != nil { return fmt.Errorf("…: %w", err) }` behind a query.
abbrev pub wrapping : {A : Type 0} → List Piece → Query A → Query A
wrapping ps m s = (wrap_result ps (m s).0, (m s).1)

take_fault : {A : Type 0} → List (Option Fault) → Query A → Query A
take_fault [] q s = q s
take_fault (none ∷ faults) q s = q (record s { faults = faults })
take_fault (some (refused e) ∷ faults) q s = (err e, record s { faults = faults })
take_fault (some (lost e) ∷ faults) q s = (err e, (q (record s { faults = faults })).1)

-- A statement fails as the next fault says, and answers if there is none.
unfoldable pub statement : {A : Type 0} → Query A → Query A
unfolding take_fault
statement q s = take_fault s.faults q s

-- A row that breaks a constraint; PostgreSQL's text for it is not modelled.
abbrev pub violation : Error
violation = foreign (codes "constraint violation")

-- The inversion of a query that succeeds.
pub >>=-eq-ok :
    {A B : Type 0} (m : Query A) (f : A → Query B) (s : Session) {b : B}
    → ((m >>= f) s).0 ≡ ok b
    → (a : A) × ((m s).0 ≡ ok a) × ((m >>= f) s ≡ f a (m s).1)
>>=-eq-ok m f s {b} h = go (m s).0 (m s).1 h
  where
    go :
        (r : Result _) (s' : Session)
        → (continue r f s').0 ≡ ok b
        → (a : _) × (r ≡ ok a) × (continue r f s' ≡ f a s')
    go (ok a) s' h = (a, refl, refl)
    go (err e) s' h = absurd (ground arith)

-- Nothing fails from here on.
abbrev pub NoFaults : List (Option Fault) → Type 0
NoFaults [] = Unit
NoFaults (none ∷ faults) = NoFaults faults
NoFaults (some e ∷ faults) = ⊥

-- A statement that succeeds is carried out.
pub statement_ok :
    {A : Type 0} (q : Query A) (s : Session) {a : A}
    → (statement q s).0 ≡ ok a
    → (faults : List (Option Fault)) × (statement q s ≡ q (record s { faults = faults }))
unfolding statement
statement_ok q s {a} = go s.faults refl
  where
    go :
        (f : List (Option Fault))
        → s.faults ≡ f
        → (take_fault f q s).0 ≡ ok a
        → (faults : List (Option Fault)) × (take_fault f q s ≡ q (record s { faults = faults }))
    go [] e h = ([], rw (← e))
    go (none ∷ faults) e h = (faults, refl)
    go (some (refused x) ∷ faults) e h = absurd (ground arith)
    go (some (lost x) ∷ faults) e h = absurd (ground arith)

pub statement_runs :
    {A : Type 0} (q : Query A) (s : Session)
    → NoFaults s.faults
    → (faults : List (Option Fault)) × (statement q s ≡ q (record s { faults = faults }))
      × NoFaults faults
unfolding statement
statement_runs q s = go s.faults refl
  where
    go :
        (f : List (Option Fault))
        → s.faults ≡ f
        → NoFaults f
        → (faults : List (Option Fault)) × (take_fault f q s ≡ q (record s { faults = faults }))
          × NoFaults faults
    go [] e h = ([], rw (← e), tt)
    go (none ∷ faults) e h = (faults, refl, h)
    go (some x ∷ faults) e h = absurd h

-- A statement answers, or fails, whether it was carried out or not.
pub statement_cases :
    {A : Type 0} (q : Query A) (s : Session)
    → (faults : List (Option Fault)) × ((statement q s ≡ q (record s { faults = faults }))
        ⊎ ((e : Error) × (statement q s ≡ (err e, record s { faults = faults })))
        ⊎ ((e : Error) × (statement q s ≡ (err e, (q (record s { faults = faults })).1))))
unfolding statement
statement_cases q s = go s.faults refl
  where
    go :
        (f : List (Option Fault))
        → s.faults ≡ f
        → (faults : List (Option Fault)) × ((take_fault f q s ≡ q (record s { faults = faults }))
            ⊎ ((e : Error) × (take_fault f q s ≡ (err e, record s { faults = faults })))
            ⊎ ((e : Error) × (take_fault f q s ≡ (err e, (q (record s { faults = faults })).1))))
    go [] e = ([], inl (rw (← e)))
    go (none ∷ faults) e = (faults, inl refl)
    go (some (refused x) ∷ faults) e = (faults, inr (inl (x, refl)))
    go (some (lost x) ∷ faults) e = (faults, inr (inr (x, refl)))
