-- ===== src/Tests/Storing.antt =====
-- Saves and retention.
use nebula_mnemosina.Prelude.{
  false, ℕ, ◌-◌, ◌<◌, ◌^◌, [], ◌∷◌, none, some, arith, ◌≡◌, refl, ltb, if◌then◌else◌, Bool-cases,
  inl, inr,
}
use nebula_mnemosina.Prelude.Int.{pos, ◌≤ℤ◌}
use nebula_mnemosina.Text.{codes}
use nebula_mnemosina.Time.{Time}
use nebula_mnemosina.Errors.{canceled, lit, number, wrap, Result, ok, err}
use nebula_mnemosina.Metrics.{no_metrics}
use nebula_mnemosina.Db.{lost, Session, no_rows_at_all, statement}
use nebula_mnemosina.Storage.{timestamptz, non_nil, uint64_to_int64}
use nebula_mnemosina.Storage.Convert.{uint64_to_int64_bounds}
use nebula_mnemosina.Storage.Save.{
  Marshal, save_poll_result, commit_or_rollback, raw_of, marshalled, in_transaction, save_body,
  insert_hostmap_entries, insert_commands, insert_lighthouse_addrmap, insert_relays,
}
use nebula_mnemosina.Db.PollRuns.{
  create_poll_run, complete_poll_run, insert_hostmap_entry, checked, has_run, hostmap_valid,
}
use nebula_mnemosina.Model.{target, Slice, PollResult}
use nebula_mnemosina.Storage.Save.Body.{saved_tables}
use nebula_mnemosina.Storage.Save.Exact.{IsAllOrNothing, save_poll_result_exact}
use nebula_mnemosina.Db.Select.{count_if}
use nebula_mnemosina.Storage.Save.References.{AreKeyed}
use nebula_mnemosina.Retention.{Store, World, delete_batches}
use nebula_mnemosina.Retention.Laws.{IsBatch, Emptied, delete_batches_lem}
use nebula_mnemosina.Tests.Polling.{polled, entry, addrmap_entry}
use nebula_mnemosina.Storage.Save.Succeeds.{IsStorable, save_poll_result_ok}

uint64_to_int64_bounds_example :
    (pos 0 ≤ℤ uint64_to_int64 7)
    × (uint64_to_int64 7 ≤ℤ pos (2 ^ 63 - 1))
    × (uint64_to_int64 7 ≤ℤ uint64_to_int64 9)
    × (7 < 2 ^ 63 → uint64_to_int64 7 ≡ pos 7)
uint64_to_int64_bounds_example = uint64_to_int64_bounds 7 9 (omega arith)

abbrev marshal : Marshal
marshal e = ok (codes "{}")

-- Nothing fails.
abbrev empty : Session
empty = record { tables = no_rows_at_all; next_run = 4; next_payload = 9; faults = [] }

empty_fresh : has_run empty.next_run empty.tables.poll_runs ≡ false
unfolding has_run
empty_fresh = refl

abbrev bytes : Slice ℕ
bytes = some (codes "{}")

abbrev storable : PollResult
storable = record polled {
  hostmap = record entry { raw = bytes } ∷ [];
  addrmap = record addrmap_entry { raw = bytes } ∷ [];
}

storable-IsStorable : IsStorable storable
storable-IsStorable = record {
  started = refl;
  commands = tt;
  hostmap = ((b'{', b'}' ∷ [], refl), tt);
  pending = tt;
  addrmap = (refl, tt);
}

save_poll_result_ok_example : (save_poll_result marshal storable empty).0 ≡ ok tt
save_poll_result_ok_example = save_poll_result_ok marshal storable storable-IsStorable empty tt

-- The poll run is created, and the first insert behind it fails.
abbrev failing : Session
failing = record {
  tables = no_rows_at_all;
  next_run = 4;
  next_payload = 9;
  faults = none ∷ none ∷ some (lost canceled) ∷ [];
}

save_fails :
    (save_poll_result marshal polled failing).0
    ≡ err (wrap (lit "insert " ∷ lit "hostmap" ∷ lit " entry " ∷ number 0 ∷ []) canceled)
unfolding save_poll_result commit_or_rollback in_transaction save_body raw_of marshalled statement
    create_poll_run complete_poll_run insert_hostmap_entry insert_hostmap_entries insert_commands
    insert_lighthouse_addrmap insert_relays checked has_run timestamptz hostmap_valid target non_nil
save_fails = refl

save_poll_result_exact_example :
    IsAllOrNothing empty.tables
      (saved_tables marshal polled empty)
      (save_poll_result marshal polled empty).0
      (save_poll_result marshal polled empty).1.tables
save_poll_result_exact_example = save_poll_result_exact marshal polled empty empty_fresh

empty-AreKeyed : AreKeyed empty.tables
unfolding count_if
empty-AreKeyed = ((λ k. omega arith), (tt, tt, tt, tt))

-- A store that is a number of expired rows.
abbrev delete : Time → ℕ → ℕ → Result ℕ × ℕ
delete cutoff n rows = if ltb n rows then (ok n, rows - n) else (ok rows, 0)

abbrev pub store : Store ℕ
store = record {
  context_error = λ s. none;
  drop_chunks = λ table cutoff s. (ok 0, s);
  delete_expired_poll_runs = delete;
  delete_expired_raw_command_payloads = delete;
}

delete_IsBatch : IsBatch (λ s. Unit {0}) (λ (rows : ℕ). rows) (delete (pos 5))
delete_IsBatch = record {
  deleted = λ n rows {d} inv h. elim (Bool-cases (ltb n rows)) [
    | inl e ↦ (tt, ground arith, inl (ground arith), ground arith)
    | inr e ↦ (tt, ground arith, inr (ground arith), ground arith)
  ];
}

abbrev pub world : World ℕ
world = record { store = 2005; metrics = no_metrics }

delete_batches_lem_example :
    Emptied store "poll_runs"
      (pos 5)
      delete
      (λ s. Unit {0})
      (λ n. n)
      delete_IsBatch
      world
      (delete_batches store 3 "poll_runs" (pos 5) delete world)
delete_batches_lem_example =
    delete_batches_lem store "poll_runs" (pos 5) delete (λ s. Unit {0}) (λ n. n) delete_IsBatch 3
      world tt (omega arith)
