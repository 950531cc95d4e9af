-- ===== src/Tests/Polling.antt =====
-- Polls and rounds, on a world that counts the calls and a store that counts the saves.
use mathlib.Core.List.{Perm}
use nebula_mnemosina.Prelude.{
  ℕ, suc, ◌+◌, true, List, [], ◌∷◌, map, none, some, arith, ◌≡◌, ◌↔◌, refl, length, ltb,
  if◌then◌else◌,
}
use nebula_mnemosina.Prelude.Int.{pos}
use nebula_mnemosina.Text.{Text, codes}
use nebula_mnemosina.Errors.{Error, canceled, deadline_exceeded, ok, err}
use nebula_mnemosina.Model.{
  Lighthouse, CommandResult, HostmapEntry, LighthouseAddrmapEntry, PollResult, poll_success,
}
use nebula_mnemosina.Metrics.{no_metrics}
use nebula_mnemosina.Config.{Config}
use nebula_mnemosina.Nebula.{Json, parse_hostmap}
use nebula_mnemosina.Nebula.Laws.{IsJson, HasRaws, hostmap_raws, parse_hostmap_raws}
use nebula_mnemosina.Collector.Poll.{Env, no_device, poll_lighthouse}
use nebula_mnemosina.Collector.Poll.Fields.{answers, described, poll_lighthouse_lem}
use nebula_mnemosina.Collector.Poll.Outcome.{IsComplete, poll_success_iff}
use nebula_mnemosina.Collector.Fanout.{
  Workers, start, Step, deliver, Reach, here, next, deliver_enabled, finished-Perm,
}
use nebula_mnemosina.Collector.Round.{Store, run_round}
use nebula_mnemosina.Collector.Round.Laws.{
  save_all, count_saved, observe_all, due, run_round_state, run_round_ok,
}
use nebula_mnemosina.Collector.Service.{
  Event, tick, done, returned, Service, run, all_rounds, run_lem,
}
use nebula_mnemosina.Tests.Options.{west, config}

abbrev pub entry : HostmapEntry
entry = record {
  vpn_addrs = some (codes "10.1.0.2" ∷ []);
  local_index = 1;
  remote_index = 2;
  remote_addrs = none;
  cert = none;
  message_counter = 7;
  current_remote = [];
  current_relays_to_me = none;
  current_relays_through_me = none;
  raw = none;
}

abbrev pub addrmap_entry : LighthouseAddrmapEntry
addrmap_entry = record { vpn_addr = codes "10.1.0.2"; addrs = []; raw = none }

-- One entry in every text.
abbrev json : Json
json = record {
  device = λ s. ok no_device;
  hostmap = λ s. ok (entry ∷ []);
  addrmap = λ s. ok (addrmap_entry ∷ []);
  raw_list = λ s. ok (codes "{}" ∷ []);
  raw = λ s. err (Error.foreign s);
}

json-IsJson : IsJson json
json-IsJson = record {
  hostmap_raw = λ s es e. (codes "{}" ∷ [], refl, ground arith, (λ h. ground arith, tt));
  addrmap_raw = λ s es e. (codes "{}" ∷ [], refl, ground arith, (λ h. ground arith, tt));
}

parse_hostmap_raws_example :
    (out : List HostmapEntry) × (rs : List Text) × (parse_hostmap json (codes "[{}]") ≡ ok out)
    × (json.raw_list (codes "[{}]") ≡ ok rs)
    × (hostmap_raws out ≡ map some rs)
    × HasRaws (hostmap_raws out)
parse_hostmap_raws_example = parse_hostmap_raws json json-IsJson (codes "[{}]") (entry ∷ []) refl

-- Every second command fails.
abbrev answer : Lighthouse → Text → ℕ → CommandResult × ℕ
answer l command n = (
  record {
    command = command;
    started_at = pos n;
    finished_at = pos (suc n);
    output = codes "out";
    error = if ltb 0 (Prim.Native.Nat.◌%◌ n 2) then some deadline_exceeded else none;
  },
  suc n,
)

abbrev env : Env ℕ
env = record { run = answer; now = λ n. (pos n, suc n) }

poll_lighthouse_lem_example :
    poll_lighthouse env json west 0
    ≡ (described json west (pos 0) (pos 7) (answers env west 1).0, 8)
poll_lighthouse_lem_example = poll_lighthouse_lem env json west 0

poll_success_iff_example :
    (poll_success (poll_lighthouse env json west 0).0 ≡ true)
    ↔ IsComplete json (answers env west 1).0
poll_success_iff_example = poll_success_iff env json west 0

abbrev pub polled : PollResult
polled = record {
  lighthouse = west;
  started_at = pos 1;
  finished_at = pos 2;
  commands = [];
  nebula_version = codes "1.9";
  device = no_device;
  hostmap = entry ∷ [];
  pending = [];
  addrmap = addrmap_entry ∷ [];
  relays = [];
  error = none;
}

abbrev one_target : Config
one_target = record config { lighthouse_targets = west ∷ [] }

abbrev sent : Workers
sent = record { running = []; sent = polled ∷ []; gone = [] }

all_sent : Reach one_target (start (west ∷ [])) sent
all_sent = next here (deliver [] [] west polled refl refl (omega arith) refl)

deliver_enabled_example : Step one_target (start (west ∷ [])) sent
deliver_enabled_example = deliver_enabled one_target [] [] west polled here refl refl

finished-Perm_example : Perm (west ∷ []) (west ∷ [])
finished-Perm_example = finished-Perm one_target all_sent refl

-- The first save fails and the others succeed; a refresh fails.
abbrev store : Store ℕ
store = record {
  save_poll_result = λ r n. (if ltb 0 n then none else some canceled, suc n);
  refresh_grafana_views = λ n. (some deadline_exceeded, n + 10);
}

abbrev two_results : List PollResult
two_results = polled ∷ polled ∷ []

run_round_state_example :
    let out = (run_round store true two_results 0 no_metrics).1 in
    (out.store ≡ (
      if due store true two_results 0
      then (store.refresh_grafana_views (save_all store two_results 0)).1
      else save_all store two_results 0))
    × (out.metrics ≡ observe_all store two_results no_metrics)
    × (out.saved ≡ count_saved store two_results 0)
run_round_state_example = run_round_state store true two_results 0 no_metrics

run_round_ok_example : ((run_round store true two_results 0 no_metrics).0 ≡ none) ↔ (
    (count_saved store two_results 0 ≡ length two_results)
    × (due store true two_results 0 ≡ true
        → (store.refresh_grafana_views (save_all store two_results 0)).0 ≡ none))
run_round_ok_example = run_round_ok store true two_results 0 no_metrics

abbrev service : Service ℕ
service = record { store = 0; metrics = no_metrics; rounds = 0 }

abbrev events : List Event
events = tick two_results ∷ done canceled ∷ tick [] ∷ []

run_lem_example : run store config.cli two_results events service ≡ (
  returned (some canceled),
  all_rounds store config.cli (two_results ∷ two_results ∷ []) service,
)
run_lem_example = run_lem store config.cli two_results events service
