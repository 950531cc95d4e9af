-- ===== src/Db/PollRuns.antt =====
-- The statements of internal/db/poll_runs.sql.go that write, with the constraints of
-- db/migrations/core/001_schema.sql: NOT NULL, the CHECK on `source`, and the foreign keys. A nil
-- slice is written as NULL, and an instant in microseconds. A statement whose row breaks a constraint
-- fails and writes nothing.
pub mod Laws
use text.Mathlib.Text.{◌==◌ as str_eq}
use nebula_mnemosina.Prelude.{
  ℕ, suc, String, Bool, true, false, ◌&&◌, ◌||◌, not, List, [], ◌∷◌, ◌++◌, Option, none, some, ◌==◌,
  map, if◌then◌else◌,
}
use nebula_mnemosina.Prelude.Int.{pos}
use nebula_mnemosina.Text.{Text}
use nebula_mnemosina.Time.{Time, micros}
use nebula_mnemosina.Model.{Slice}
use nebula_mnemosina.Errors.{ok, err}
use nebula_mnemosina.Db.{
  Nullable, column, time_column, PollRun, RawCommandPayload, HostmapRow, AddrmapRow, RelaySnapshot,
  Tables, Session, Query, statement, violation,
}
use nebula_mnemosina.Db.Params.{
  CreatePollRunParams, CompletePollRunParams, InsertRawCommandPayloadParams,
  InsertHostmapEntryParams, InsertLighthouseAddrmapEntryParams, InsertRelaySnapshotParams,
}

-- A statement that fails if `valid` does, and else acts on the session.
unfoldable pub checked : {A : Type 0} → (Session → Bool) → (Session → A × Session) → Query A
checked valid act =
    statement (λ s. if valid s then (ok (act s).0, (act s).1) else (err violation, s))

unfoldable pub has_run : ℕ → List PollRun → Bool
has_run id [] = false
has_run id (r ∷ rs) = (r.id == id) || has_run id rs

-- The slice is not NULL.
abbrev pub given : {A : Type 0} → Slice A → Bool
given none = false
given (some xs) = true

abbrev pub or_empty : {A : Type 0} → Slice A → List A
or_empty none = []
or_empty (some xs) = xs

-- Changes the tables alone.
abbrev pub on_tables : (Tables → Tables) → Session → Unit {0} × Session
on_tables f s = (tt, record s { tables = f s.tables })

abbrev pub new_run : ℕ → CreatePollRunParams → PollRun
new_run id p = record {
  id = id;
  started_at = micros p.started_at.value;
  finished_at = none;
  lighthouse_name = p.lighthouse_name;
  ssh_target = p.ssh_target;
  success = false;
  duration_ms = pos 0;
  error = none;
  nebula_version = none;
  device_name = none;
  device_cidrs = [];
  command_count = pos 0;
}

-- INSERT INTO poll_runs … RETURNING id
unfoldable pub create_poll_run : CreatePollRunParams → Query ℕ
create_poll_run p =
    checked (λ s. p.started_at.valid)
      (λ s. (
        s.next_run,
        record s {
          tables = record s.tables { poll_runs = s.tables.poll_runs ++ new_run s.next_run p ∷ [] };
          next_run = suc s.next_run;
        },
      ))

abbrev pub completed : CompletePollRunParams → PollRun → PollRun
completed p r =
    if r.id == p.id
    then record r {
      finished_at = time_column p.finished_at;
      success = p.success;
      duration_ms = p.duration_ms;
      error = column p.error;
      nebula_version = column p.nebula_version;
      device_name = column p.device_name;
      device_cidrs = or_empty p.device_cidrs;
      command_count = p.command_count;
    }
    else r

-- UPDATE poll_runs SET … WHERE id = $1; a NULL breaks NOT NULL only if there is a row to update.
unfoldable pub complete_poll_run : CompletePollRunParams → Query (Unit {0})
complete_poll_run p =
    checked (λ s. given p.device_cidrs || not (has_run p.id s.tables.poll_runs))
      (on_tables (λ t. record t { poll_runs = map (completed p) t.poll_runs }))

abbrev pub raw_row : ℕ → InsertRawCommandPayloadParams → RawCommandPayload
raw_row id p = record {
  id = id;
  poll_run_id = p.poll_run_id;
  observed_at = micros p.observed_at.value;
  lighthouse_name = p.lighthouse_name;
  command = p.command;
  success = p.success;
  duration_ms = p.duration_ms;
  output = p.output;
  error = column p.error;
}

unfoldable pub insert_raw_command_payload : InsertRawCommandPayloadParams → Query (Unit {0})
insert_raw_command_payload p =
    checked (λ s. has_run p.poll_run_id s.tables.poll_runs && p.observed_at.valid)
      (λ s. (
        tt,
        record s {
          tables = record s.tables {
            raw_command_payloads = s.tables.raw_command_payloads ++ raw_row s.next_payload p ∷ [];
          };
          next_payload = suc s.next_payload;
        },
      ))

-- CHECK (source IN ('hostmap', 'pending', 'tunnel'))
unfoldable pub is_source : String → Bool
is_source s = str_eq s "hostmap" || (str_eq s "pending" || str_eq s "tunnel")

abbrev pub hostmap_row : InsertHostmapEntryParams → HostmapRow
hostmap_row p = record {
  poll_run_id = p.poll_run_id;
  observed_at = micros p.observed_at.value;
  lighthouse_name = p.lighthouse_name;
  source = p.source;
  entry_index = p.entry_index;
  vpn_addrs = or_empty p.vpn_addrs;
  primary_vpn_addr = column p.primary_vpn_addr;
  local_index = p.local_index;
  remote_index = p.remote_index;
  remote_addrs = or_empty p.remote_addrs;
  message_counter = p.message_counter;
  current_remote = p.current_remote;
  current_relays_to_me = or_empty p.current_relays_to_me;
  current_relays_through_me = or_empty p.current_relays_through_me;
  cert_curve = column p.cert_curve;
  cert_name = column p.cert_name;
  cert_fingerprint = column p.cert_fingerprint;
  cert_public_key = column p.cert_public_key;
  cert_signature = column p.cert_signature;
  cert_version = column p.cert_version;
  cert_groups = or_empty p.cert_groups;
  cert_is_ca = column p.cert_is_ca;
  cert_issuer = column p.cert_issuer;
  cert_networks = or_empty p.cert_networks;
  cert_unsafe_networks = or_empty p.cert_unsafe_networks;
  cert_not_before = time_column p.cert_not_before;
  cert_not_after = time_column p.cert_not_after;
  raw = or_empty p.raw;
}

-- The constraints of hostmap_entries but the foreign key.
unfoldable pub hostmap_valid : InsertHostmapEntryParams → Bool
unfolding is_source
hostmap_valid p =
    is_source p.source
    && (p.observed_at.valid
        && (given p.vpn_addrs
            && (given p.remote_addrs
                && (given p.current_relays_to_me
                    && (given p.current_relays_through_me
                        && (given p.cert_groups
                            && (given p.cert_networks
                                && (given p.cert_unsafe_networks && given p.raw))))))))

unfoldable pub insert_hostmap_entry : InsertHostmapEntryParams → Query (Unit {0})
insert_hostmap_entry p =
    checked (λ s. has_run p.poll_run_id s.tables.poll_runs && hostmap_valid p)
      (on_tables (λ t. record t { hostmap_entries = t.hostmap_entries ++ hostmap_row p ∷ [] }))

abbrev pub addrmap_row : InsertLighthouseAddrmapEntryParams → AddrmapRow
addrmap_row p = record {
  poll_run_id = p.poll_run_id;
  observed_at = micros p.observed_at.value;
  lighthouse_name = p.lighthouse_name;
  vpn_addr = p.vpn_addr;
  reporter_vpn_addr = column p.reporter_vpn_addr;
  learned_addrs = or_empty p.learned_addrs;
  reported_addrs = or_empty p.reported_addrs;
  relay_vpn_addrs = or_empty p.relay_vpn_addrs;
  raw = or_empty p.raw;
}

-- The constraints of lighthouse_addrmap_entries but the foreign key.
unfoldable pub addrmap_valid : InsertLighthouseAddrmapEntryParams → Bool
addrmap_valid p =
    p.observed_at.valid
    && (given p.learned_addrs
        && (given p.reported_addrs && (given p.relay_vpn_addrs && given p.raw)))

unfoldable pub insert_lighthouse_addrmap_entry :
    InsertLighthouseAddrmapEntryParams → Query (Unit {0})
insert_lighthouse_addrmap_entry p =
    checked (λ s. has_run p.poll_run_id s.tables.poll_runs && addrmap_valid p)
      (on_tables (λ t. record t {
        lighthouse_addrmap_entries = t.lighthouse_addrmap_entries ++ addrmap_row p ∷ [];
      }))

abbrev pub relay_row : InsertRelaySnapshotParams → RelaySnapshot
relay_row p = record {
  poll_run_id = p.poll_run_id;
  observed_at = micros p.observed_at.value;
  lighthouse_name = p.lighthouse_name;
  relays = or_empty p.relays;
}

unfoldable pub insert_relay_snapshot : InsertRelaySnapshotParams → Query (Unit {0})
insert_relay_snapshot p =
    checked
      (λ s. has_run p.poll_run_id s.tables.poll_runs && (p.observed_at.valid && given p.relays))
      (on_tables (λ t. record t { relay_snapshots = t.relay_snapshots ++ relay_row p ∷ [] }))
