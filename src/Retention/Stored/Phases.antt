-- ===== src/Retention/Stored/Phases.antt =====
-- A prune of internal/retention/retention.go on the store of internal/storage/storage.go: first the
-- payloads, then the runs.
use nebula_mnemosina.Prelude.{
  if◌then◌else◌, ℕ, ◌*◌, ◌<◌, ◌≤◌, String, Bool, true, false, not, List, [], ◌∷◌, Option, ◌≡◌, inl,
  inr, refl, sym, ◌∙◌, ap, arith, Bool-cases,
}
use nebula_mnemosina.Prelude.Int.{pos, ltb_ℤ}
use nebula_mnemosina.Time.{Time, before_by}
use nebula_mnemosina.Errors.{Error, ok}
use nebula_mnemosina.Db.{PollRun, RawCommandPayload, Session}
use nebula_mnemosina.Db.Select.{select, count_if, has_key}
use nebula_mnemosina.Db.Select.Keys.{HasKeys, count_if-le}
use nebula_mnemosina.Db.Retention.{run_id, expired_run, expired_payload}
use nebula_mnemosina.Storage.{timestamptz}
use nebula_mnemosina.Storage.Expire.{delete_expired_poll_runs, delete_expired_payloads}
use nebula_mnemosina.Storage.Expire.Batches.{listed_run, delete_expired_poll_runs-eq}
use nebula_mnemosina.Storage.Expire.IsBatch.{
  expired_runs, expired_payloads, delete_expired_payloads-eq, delete_expired_poll_runs-IsBatch,
  delete_expired_payloads-IsBatch, delete_expired_poll_runs-keeps,
}
use nebula_mnemosina.Storage.Peers.{drop_table_chunks}
use nebula_mnemosina.Storage.Consistent.{IsConsistent}
use nebula_mnemosina.Storage.Consistent.Save.{
  delete_expired_poll_runs-Keeps, delete_expired_payloads-Keeps,
}
use nebula_mnemosina.Retention.{Pruner, World, delete_batches, prune_raw, prune_runs, prune}
use nebula_mnemosina.Retention.Laws.{IsBatch}
use nebula_mnemosina.Retention.Ends.{
  prune_raw-Ends, prune_runs-Ends, Ends, Ends-imp, and_then-Ends, observe_run-Ends,
  delete_batches-Ends,
}
use nebula_mnemosina.Retention.Stored.{Drop, IsDropping, stored, drop-keeps}

if_zero : (b : Bool) (n : ℕ) → n ≡ 0 → (if b then n else 0) ≡ 0
if_zero true n h = h
if_zero false n h = refl

if_less : (b : Bool) (m n : ℕ) → m ≤ n → (if b then n else 0) ≡ 0 → (if b then m else 0) ≡ 0
if_less true m n le h = omega arith
if_less false m n le h = refl

-- A run that did not start before the cutoff of the period.
abbrev pub is_live : Pruner → Time → PollRun → Bool
is_live p now r = not (expired_run (timestamptz (before_by now p.cfg.period)) r)

-- No payload is left that was observed before the cutoff of the raw period, if that is set.
abbrev pub NoPayloads : Pruner → Time → Session → Type 0
NoPayloads p now s =
    (if ltb_ℤ (pos 0) p.cfg.raw_period
      then expired_payloads (before_by now p.cfg.raw_period) s
      else 0)
    ≡ 0

-- What a prune leaves of these runs: the live ones in order, if the period is set.
abbrev pub IsPruned : Pruner → Time → List PollRun → Session → Type 0
IsPruned p now runs s =
    IsConsistent s
    × (s.tables.poll_runs
        ≡ (if ltb_ℤ (pos 0) p.cfg.period then select (is_live p now) runs else runs))
    × NoPayloads p now s

module _ (context_error : Session → Option Error) (drop : Drop) (dropping : IsDropping drop)
    (p : Pruner) (fuel : ℕ) (now : Time) (runs : List PollRun) where
  abbrev cutoff : Time
  cutoff = before_by now p.cfg.period

  abbrev raw_cutoff : Time
  raw_cutoff = before_by now p.cfg.raw_period

  abbrev live : PollRun → Bool
  live = is_live p now

  -- While payloads are deleted, and behind it.
  abbrev RawPhase : Session → Type 0
  RawPhase s =
      IsConsistent s × (s.tables.poll_runs ≡ runs) × (expired_payloads raw_cutoff s < 1000 * fuel)

  abbrev RawDone : Session → Type 0
  RawDone s = IsConsistent s × (s.tables.poll_runs ≡ runs) × NoPayloads p now s

  -- While runs are deleted: those that have not expired stay.
  abbrev RunPhase : Session → Type 0
  RunPhase s =
      IsConsistent s × (select live s.tables.poll_runs ≡ select live runs) × NoPayloads p now s

  raw_drop :
      (table : String) (c : Time) (s : Session)
      → RawPhase s
      → RawPhase (drop_table_chunks drop table c s).1
  raw_drop table c s (h, same, few) =
      let (h', same', less) = drop-keeps drop dropping table c raw_cutoff s h in
      (h', same' ∙ same, omega arith)

  run_drop :
      (table : String) (c : Time) (s : Session)
      → RawDone s
      → RawDone (drop_table_chunks drop table c s).1
  run_drop table c s (h, same, gone) =
      let (h', same', less) = drop-keeps drop dropping table c raw_cutoff s h in
      (h', same' ∙ same, if_less (ltb_ℤ (pos 0) p.cfg.raw_period) _ _ less gone)

  raw_batches : IsBatch RawPhase (expired_payloads raw_cutoff) (delete_expired_payloads raw_cutoff)
  raw_batches = record {
    deleted = λ n s {d} (h, same, few) e.
        let (unique, sum, full, le) =
          (delete_expired_payloads-IsBatch raw_cutoff).deleted n s h.3 e in
        let (count, tables) = delete_expired_payloads-eq raw_cutoff n s e in
        (
          (
            ((delete_expired_payloads-Keeps raw_cutoff n).follows s h).2,
            ap (λ t. t.poll_runs) tables ∙ same,
            omega arith,
          ),
          sum,
          full,
          le,
        );
  }

  fewer_payloads :
      (n : ℕ) (s : Session) {d : ℕ}
      → HasKeys run_id s.tables.poll_runs
      → (delete_expired_poll_runs cutoff n s).0 ≡ ok d
      → expired_payloads raw_cutoff (delete_expired_poll_runs cutoff n s).1
        ≤ expired_payloads raw_cutoff s
  unfolding expired_payloads
  fewer_payloads n s keys e =
      let expired = expired_payload (timestamptz raw_cutoff) in
      let (count, tables) = delete_expired_poll_runs-eq cutoff n s keys e in
      let left : RawCommandPayload → Bool = λ c.
        not
          (has_key run_id c.poll_run_id (select (listed_run cutoff n s keys) s.tables.poll_runs)) in
      omega (
        arith,
        ap (λ t. count_if expired t.raw_command_payloads) tables,
        count_if-le expired left s.tables.raw_command_payloads,
      )

  run_batches : IsBatch RunPhase (expired_runs cutoff) (delete_expired_poll_runs cutoff)
  run_batches = record {
    deleted = λ n s {d} (h, same, gone) e.
        let (unique, sum, full, le) = (delete_expired_poll_runs-IsBatch cutoff).deleted n s h.1 e in
        let (count, tables) = delete_expired_poll_runs-eq cutoff n s h.1 e in
        (
          (
            ((delete_expired_poll_runs-Keeps cutoff n).follows s h).2,
            delete_expired_poll_runs-keeps cutoff n s h.1 e ∙ same,
            if_less (ltb_ℤ (pos 0) p.cfg.raw_period) _ _ (fewer_payloads n s h.1 e) gone,
          ),
          sum,
          full,
          le,
        );
  }

  raw_batches_end :
      (w : World Session)
      → RawPhase w.store
      → Ends RawDone (
          delete_batches
            (stored context_error drop)
            fuel
            "raw_command_payloads"
            raw_cutoff
            delete_expired_payloads
            w)
  raw_batches_end w phase =
      let ran =
        delete_batches (stored context_error drop) fuel "raw_command_payloads" raw_cutoff
          delete_expired_payloads w in
      Ends-imp (λ s. RawPhase s × (expired_payloads raw_cutoff s ≡ 0)) RawDone ran
        (λ s (done, none_left).
          (done.0, done.1, if_zero (ltb_ℤ (pos 0) p.cfg.raw_period) _ none_left))
        (delete_batches-Ends (stored context_error drop) "raw_command_payloads" raw_cutoff
          delete_expired_payloads RawPhase (expired_payloads raw_cutoff) raw_batches fuel w phase
          phase.2)

  raw_end :
      (w : World Session)
      → RawPhase w.store
      → Ends RawDone (prune_raw (stored context_error drop) p fuel now w)
  unfolding stored
  raw_end =
      prune_raw-Ends (stored context_error drop) p fuel now RawPhase RawDone raw_drop
        raw_batches_end (λ s off (h, same, few). (h, same, rw off refl))

  -- Where no run has expired, the live ones are all.
  all_live :
      (rows : List PollRun)
      → count_if (expired_run (timestamptz cutoff)) rows ≡ 0
      → select live rows ≡ rows
  unfolding count_if select
  all_live [] h = refl
  all_live (r ∷ rows) h = elim (Bool-cases (expired_run (timestamptz cutoff) r)) [
    | inl e ↦ absurd (ground (arith, e))
    | inr e ↦ let rest = all_live rows (ground (arith, e)) in ground (arith, e, rest)
  ]

  run_batches_end :
      count_if (expired_run (timestamptz cutoff)) runs < 1000 * fuel
      → (w : World Session) → ltb_ℤ (pos 0) p.cfg.period ≡ true
      → RawDone w.store
      → Ends (IsPruned p now runs) (
          delete_batches
            (stored context_error drop)
            fuel
            "poll_runs"
            cutoff
            delete_expired_poll_runs
            w)
  unfolding expired_runs
  run_batches_end few w on (h, same, gone) =
      let ran =
        delete_batches (stored context_error drop) fuel "poll_runs" cutoff delete_expired_poll_runs
          w in
      Ends-imp (λ s. RunPhase s × (expired_runs cutoff s ≡ 0)) (IsPruned p now runs) ran
        (λ s ((h, same, gone), empty).
          (h, sym (all_live s.tables.poll_runs empty) ∙ same ∙ rw on refl, gone))
        (delete_batches-Ends (stored context_error drop) "poll_runs" cutoff delete_expired_poll_runs
          RunPhase (expired_runs cutoff) run_batches fuel w (h, ap (select live) same, gone)
          (omega (arith, few, ap (count_if (expired_run (timestamptz cutoff))) same)))

  run_end :
      count_if (expired_run (timestamptz cutoff)) runs < 1000 * fuel
      → (w : World Session) → RawDone w.store
      → Ends (IsPruned p now runs) (prune_runs (stored context_error drop) p fuel now w)
  unfolding stored
  run_end few =
      prune_runs-Ends (stored context_error drop) p fuel now RawDone (IsPruned p now runs) run_drop
        (run_batches_end few) (λ s off (h, same, gone). (h, same ∙ rw off refl, gone))

-- A prune on the store, with fuel for the batches of either table and one more, ends with an error;
-- or with none, and then, if a period is set, exactly the runs are left that did not start before
-- its cutoff, in order, and else all; no payload is left that was observed before the cutoff of the
-- raw period, if that is set; and the tables are consistent. A cutoff counts in whole microseconds,
-- rounded down. The tables were consistent before, and
-- dropping chunks only removes rows of hypertables.
pub prune-Ends :
    (context_error : Session → Option Error) (drop : Drop)
    → IsDropping drop
    → (p : Pruner) (fuel : ℕ) (now : Time) (w : World Session) → IsConsistent w.store
    → expired_runs (before_by now p.cfg.period) w.store < 1000 * fuel
    → expired_payloads (before_by now p.cfg.raw_period) w.store < 1000 * fuel
    → Ends
        (IsPruned p now w.store.tables.poll_runs)
        (prune (stored context_error drop) p fuel now w)
unfolding prune expired_runs
prune-Ends context_error drop dropping p fuel now w h few_runs few_payloads =
    let runs = w.store.tables.poll_runs in
    let raw = prune_raw (stored context_error drop) p fuel now w in
    observe_run-Ends (IsPruned p now runs) _ (
      and_then-Ends (RawDone context_error drop dropping p fuel now runs) (IsPruned p now runs) raw
        (prune_runs (stored context_error drop) p fuel now)
        (raw_end context_error drop dropping p fuel now runs w (h, refl, few_payloads))
        (run_end context_error drop dropping p fuel now runs few_runs))
