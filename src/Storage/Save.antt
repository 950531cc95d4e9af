-- ===== src/Storage/Save.antt =====
-- SavePollResult of internal/storage/storage.go, one transaction for one poll. json.Marshal is a
-- parameter.
use nebula_mnemosina.Prelude.{
  ℕ, suc, String, Bool, true, false, List, [], ◌∷◌, ◌++◌, Option, none, some, length, if◌then◌else◌,
}
pub mod Rows
pub mod Loops
pub mod Reporters
pub mod Body
pub mod Exact
pub mod References
pub mod Valid
pub mod Total
pub mod Succeeds
use nebula_mnemosina.Prelude.Int.{ℤ, pos}
use nebula_mnemosina.Text.{Text, codes, is_empty}
use nebula_mnemosina.Errors.{Piece, lit, str, quoted, number, Error, Result, ok, err}
use nebula_mnemosina.Time.{zero_time}
use nebula_mnemosina.Model.{
  Slice, Lighthouse, target, CommandResult, command_success, command_duration, Certificate,
  HostmapEntry, primary_vpn_addr, LighthouseAddrEntry, LighthouseAddrmapEntry, PollResult,
  poll_success, poll_duration,
}
use nebula_mnemosina.Db.{
  Nullable, Tables, Session, Query, pure, fail, ◌>>=◌, ◌>>◌, wrapping, statement,
}
use nebula_mnemosina.Db.Params.{
  CreatePollRunParams, CompletePollRunParams, InsertRawCommandPayloadParams,
  InsertHostmapEntryParams, InsertLighthouseAddrmapEntryParams, InsertRelaySnapshotParams,
}
use nebula_mnemosina.Db.PollRuns.{
  create_poll_run, complete_poll_run, insert_raw_command_payload, insert_hostmap_entry,
  insert_lighthouse_addrmap_entry, insert_relay_snapshot,
}
use nebula_mnemosina.Storage.{
  timestamptz, nullable_time, nullable_string, nullable_error, millis, non_nil, uint64_to_int64,
  to_int32,
}

-- json.Marshal of a hostmap entry.
abbrev pub Marshal : Type 0
Marshal = HostmapEntry → Result Text

unfoldable pub command_params : ℕ → PollResult → CommandResult → InsertRawCommandPayloadParams
command_params run_id result c = record {
  poll_run_id = run_id;
  observed_at = timestamptz c.started_at;
  lighthouse_name = result.lighthouse.name;
  command = c.command;
  success = command_success c;
  duration_ms = millis (command_duration c);
  output = c.output;
  error = nullable_error c.error;
}

unfoldable pub insert_commands : ℕ → PollResult → List CommandResult → Query (Unit {0})
insert_commands run_id result [] = pure tt
insert_commands run_id result (c ∷ cs) = do
  wrapping (lit "insert raw command " ∷ quoted c.command ∷ [])
      (insert_raw_command_payload (command_params run_id result c))
  insert_commands run_id result cs

no_text : Nullable Text
no_text = record { value = []; valid = false }

-- The parameters of an entry before the fields of its certificate are set.
unfoldable pub hostmap_params :
    ℕ → PollResult → String → ℕ → HostmapEntry → Slice ℕ → InsertHostmapEntryParams
unfolding no_text
hostmap_params run_id result source i entry raw = record {
  poll_run_id = run_id;
  observed_at = timestamptz result.started_at;
  lighthouse_name = result.lighthouse.name;
  source = source;
  entry_index = to_int32 i;
  vpn_addrs = non_nil entry.vpn_addrs;
  primary_vpn_addr = nullable_string (primary_vpn_addr entry);
  local_index = pos entry.local_index;
  remote_index = pos entry.remote_index;
  remote_addrs = non_nil entry.remote_addrs;
  message_counter = uint64_to_int64 entry.message_counter;
  current_remote = entry.current_remote;
  current_relays_to_me = non_nil entry.current_relays_to_me;
  current_relays_through_me = non_nil entry.current_relays_through_me;
  cert_curve = no_text;
  cert_name = no_text;
  cert_fingerprint = no_text;
  cert_public_key = no_text;
  cert_signature = no_text;
  cert_version = record { value = pos 0; valid = false };
  cert_groups = some [];
  cert_is_ca = record { value = false; valid = false };
  cert_issuer = no_text;
  cert_networks = some [];
  cert_unsafe_networks = some [];
  cert_not_before = record { value = zero_time; valid = false };
  cert_not_after = record { value = zero_time; valid = false };
  raw = raw;
}

-- `if entry.Cert != nil { … }`
unfoldable pub with_cert : Option Certificate → InsertHostmapEntryParams → InsertHostmapEntryParams
with_cert none p = p
with_cert (some cert) p = record p {
  cert_curve = nullable_string cert.curve;
  cert_name = nullable_string cert.details.name;
  cert_fingerprint = nullable_string cert.fingerprint;
  cert_public_key = nullable_string cert.public_key;
  cert_signature = nullable_string cert.signature;
  cert_version = record { value = cert.version; valid = true };
  cert_groups = non_nil cert.details.groups;
  cert_is_ca = record { value = cert.details.is_ca; valid = true };
  cert_issuer = nullable_string cert.details.issuer;
  cert_networks = non_nil cert.details.networks;
  cert_unsafe_networks = non_nil cert.details.unsafe_networks;
  cert_not_before = nullable_time cert.details.not_before;
  cert_not_after = nullable_time cert.details.not_after;
}

unfoldable pub marshalled : String → Result Text → Query (Slice ℕ)
marshalled source (ok encoded) = pure (some encoded)
marshalled source (err e) = wrapping (lit "marshal " ∷ lit source ∷ lit " entry raw" ∷ []) (fail e)

-- `raw := entry.Raw; if len(raw) == 0 { … }`
unfoldable pub raw_of : Marshal → String → HostmapEntry → Slice ℕ → Query (Slice ℕ)
raw_of marshal source entry none = marshalled source (marshal entry)
raw_of marshal source entry (some []) = marshalled source (marshal entry)
raw_of marshal source entry (some (c ∷ raw)) = pure (some (c ∷ raw))

-- The loop of insertHostmapEntries from index `i` on.
unfoldable pub insert_hostmap_entries :
    Marshal → ℕ → PollResult → String → ℕ → List HostmapEntry → Query (Unit {0})
insert_hostmap_entries marshal run_id result source i [] = pure tt
insert_hostmap_entries marshal run_id result source i (entry ∷ entries) = do
  raw ← raw_of marshal source entry entry.raw
  wrapping (lit "insert " ∷ lit source ∷ lit " entry " ∷ number i ∷ []) (
      insert_hostmap_entry (with_cert entry.cert (hostmap_params run_id result source i entry raw)))
  insert_hostmap_entries marshal run_id result source (suc i) entries

unfoldable pub empty_addrmap_params :
    ℕ → PollResult → LighthouseAddrmapEntry → InsertLighthouseAddrmapEntryParams
unfolding no_text
empty_addrmap_params run_id result entry = record {
  poll_run_id = run_id;
  observed_at = timestamptz result.started_at;
  lighthouse_name = result.lighthouse.name;
  vpn_addr = entry.vpn_addr;
  reporter_vpn_addr = no_text;
  learned_addrs = some [];
  reported_addrs = some [];
  relay_vpn_addrs = some [];
  raw = entry.raw;
}

unfoldable pub addrmap_params :
    ℕ
    → PollResult
    → LighthouseAddrmapEntry
    → Text
    → LighthouseAddrEntry
    → InsertLighthouseAddrmapEntryParams
addrmap_params run_id result entry reporter addrs = record {
  poll_run_id = run_id;
  observed_at = timestamptz result.started_at;
  lighthouse_name = result.lighthouse.name;
  vpn_addr = entry.vpn_addr;
  reporter_vpn_addr = nullable_string reporter;
  learned_addrs = non_nil addrs.learned;
  reported_addrs = non_nil addrs.reported;
  relay_vpn_addrs = non_nil addrs.relay;
  raw = entry.raw;
}

-- `for reporter, addrs := range entry.Addrs`
unfoldable pub insert_reporters :
    ℕ → PollResult → LighthouseAddrmapEntry → List (Text × LighthouseAddrEntry) → Query (Unit {0})
insert_reporters run_id result entry [] = pure tt
insert_reporters run_id result entry ((reporter, addrs) ∷ rest) = do
  wrapping
      (lit "insert lighthouse addrmap " ∷ str entry.vpn_addr ∷ lit " reporter " ∷ str reporter ∷ [])
      (insert_lighthouse_addrmap_entry (addrmap_params run_id result entry reporter addrs))
  insert_reporters run_id result entry rest

unfoldable pub insert_addrs :
    ℕ → PollResult → LighthouseAddrmapEntry → List (Text × LighthouseAddrEntry) → Query (Unit {0})
insert_addrs run_id result entry [] =
    wrapping (lit "insert empty lighthouse addrmap " ∷ str entry.vpn_addr ∷ [])
      (insert_lighthouse_addrmap_entry (empty_addrmap_params run_id result entry))
insert_addrs run_id result entry (a ∷ as') = insert_reporters run_id result entry (a ∷ as')

unfoldable pub insert_lighthouse_addrmap :
    ℕ → PollResult → List LighthouseAddrmapEntry → Query (Unit {0})
insert_lighthouse_addrmap run_id result [] = pure tt
insert_lighthouse_addrmap run_id result (entry ∷ entries) = do
  insert_addrs run_id result entry entry.addrs
  insert_lighthouse_addrmap run_id result entries

-- `if len(result.Relays) > 0 { … }`
unfoldable pub insert_relays : ℕ → PollResult → Query (Unit {0})
insert_relays run_id result =
    if is_empty result.relays
    then pure tt
    else wrapping (lit "insert relay snapshot" ∷ []) (
        insert_relay_snapshot (record {
          poll_run_id = run_id;
          observed_at = timestamptz result.started_at;
          lighthouse_name = result.lighthouse.name;
          relays = some result.relays;
        }))

unfoldable pub complete_params : ℕ → PollResult → CompletePollRunParams
complete_params run_id result = record {
  id = run_id;
  finished_at = timestamptz result.finished_at;
  success = poll_success result;
  duration_ms = millis (poll_duration result);
  error = nullable_error result.error;
  nebula_version = nullable_string result.nebula_version;
  device_name = nullable_string result.device.name;
  device_cidrs = non_nil result.device.cidr;
  command_count = to_int32 (length result.commands);
}

-- Everything between BeginTx and Commit.
unfoldable pub save_body : Marshal → PollResult → Query (Unit {0})
save_body marshal result = do
  run_id ← wrapping (lit "create poll run" ∷ []) (
      create_poll_run (record {
        started_at = timestamptz result.started_at;
        lighthouse_name = result.lighthouse.name;
        ssh_target = target result.lighthouse;
      }))
  insert_commands run_id result result.commands
  insert_hostmap_entries marshal run_id result "hostmap" 0 result.hostmap
  insert_hostmap_entries marshal run_id result "pending" 0 result.pending
  insert_lighthouse_addrmap run_id result result.addrmap
  insert_relays run_id result
  wrapping (lit "complete poll run" ∷ []) (complete_poll_run (complete_params run_id result))

-- BEGIN, and what stands between it and Commit.
unfoldable pub in_transaction : Query (Unit {0}) → Query (Unit {0})
in_transaction body = do
  wrapping (lit "begin poll result transaction" ∷ []) (statement (pure tt))
  body

abbrev pub committing : List Piece
committing = lit "commit poll result" ∷ []

-- The deferred Rollback puts the tables back. Commit puts those of the transaction in place; it may
-- report an error although it did.
unfoldable pub commit_or_rollback : Tables → Result (Unit {0}) → Query (Unit {0})
commit_or_rollback before (err e) s = (err e, record s { tables = before })
commit_or_rollback before (ok u) s =
    wrapping committing (statement (λ t. (ok tt, record t { tables = s.tables })))
      (record s { tables = before })

unfoldable pub save_poll_result : Marshal → PollResult → Query (Unit {0})
save_poll_result marshal result s =
    let (r, s') = in_transaction (save_body marshal result) s in commit_or_rollback s.tables r s'
