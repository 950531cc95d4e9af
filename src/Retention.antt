-- ===== src/Retention.antt =====
-- internal/retention/retention.go: one run of the pruner; the loop around it is in Loop. Log lines are
-- left out. The store's methods pass its state along.
pub mod Laws
pub mod Loop
pub mod Ends
pub mod Stored
use nebula_mnemosina.Prelude.{
  ℕ, zero, suc, Bool, true, false, ◌||◌, String, List, [], ◌∷◌, Option, none, some, ltb,
  if◌then◌else◌,
}
use nebula_mnemosina.Prelude.Int.{ℤ, pos, negsuc, ltb_ℤ}
use nebula_mnemosina.Time.{Time, before_by, is_zero}
use nebula_mnemosina.Errors.{Piece, lit, Error, wrap, Result, ok, err}
use nebula_mnemosina.Config.{RetentionConfig}
use nebula_mnemosina.Model.{is_none}
use nebula_mnemosina.Metrics.{
  Metrics, observe_retention_run, observe_deleted_rows, observe_dropped_chunks,
}

abbrev pub batch_size : ℕ
batch_size = 1000

abbrev pub poll_hypertables : List String
poll_hypertables = "hostmap_entries" ∷ "lighthouse_addrmap_entries" ∷ "relay_snapshots" ∷ []

-- The interface `Store`, and ctx.Err().
pub record Store (S : Type 0) : Type 0 where
  pub context_error : S → Option Error
  pub drop_chunks : String → Time → S → Result ℕ × S
  pub delete_expired_poll_runs : Time → ℕ → S → Result ℕ × S
  pub delete_expired_raw_command_payloads : Time → ℕ → S → Result ℕ × S

pub record Pruner : Type 0 where
  pub cfg : RetentionConfig
  pub timescale : Bool

unfoldable pub enabled : Pruner → Bool
enabled p = ltb_ℤ (pos 0) p.cfg.period || ltb_ℤ (pos 0) p.cfg.raw_period

pub record World (S : Type 0) : Type 0 where
  pub store : S
  pub metrics : Metrics

-- What a function returns: an error or none; or it has run out of fuel.
pub data Outcome : Type 0 where
  returned : Option Error → Outcome
  unfinished : Outcome

module _ {S : Type 0} where
  -- `if err := …; err != nil { return err }`
  abbrev pub and_then : Outcome × World S → (World S → Outcome × World S) → Outcome × World S
  and_then (returned none, w) next = next w
  and_then (returned (some e), w) next = (returned (some e), w)
  and_then (unfinished, w) next = (unfinished, w)

  unfoldable pub count_chunks : String → Result ℕ → World S → Outcome × World S
  count_chunks table (err e) w = (returned (some e), w)
  count_chunks table (ok dropped) w =
      (returned none, record w { metrics = observe_dropped_chunks table dropped w.metrics })

  -- What follows a call of deleteBatch that gave `answer`; `more` is the rest of the loop.
  unfoldable pub count_batch :
      String → Result ℕ → World S → (World S → Outcome × World S) → Outcome × World S
  count_batch table (err e) w more = (returned (some (wrap (lit "prune " ∷ lit table ∷ []) e)), w)
  count_batch table (ok deleted) w more =
      let counted : World S = record w { metrics = observe_deleted_rows table deleted w.metrics } in
      let rest = more counted in if ltb deleted batch_size then (returned none, counted) else rest

  unfoldable pub observe_run : Outcome × World S → Outcome × World S
  observe_run (returned e, w) =
      (returned e, record w { metrics = observe_retention_run (is_none e) w.metrics })
  observe_run (unfinished, w) = (unfinished, w)

module _ {S : Type 0} (store : Store S) where
  unfoldable pub drop_chunks : String → Time → World S → Outcome × World S
  unfolding count_chunks
  drop_chunks table cutoff w =
      let (dropped, s) = store.drop_chunks table cutoff w.store in
      count_chunks table dropped (record w { store = s })

  unfoldable pub drop_all : List String → Time → World S → Outcome × World S
  drop_all [] cutoff w = (returned none, w)
  drop_all (table ∷ tables) cutoff w =
      and_then (drop_chunks table cutoff w) (drop_all tables cutoff)

  -- The endless loop; each round of it takes one unit of fuel.
  unfoldable pub delete_batches :
      ℕ → String → Time → (Time → ℕ → S → Result ℕ × S) → World S → Outcome × World S
  unfolding count_batch
  delete_batches zero table cutoff delete_batch w = (unfinished, w)
  delete_batches (suc fuel) table cutoff delete_batch w = elim (store.context_error w.store) [
    | some e ↦ (returned (some e), w)
    | none ↦
        let (answer, s) = delete_batch cutoff batch_size w.store in
        count_batch table answer (record w { store = s })
          (delete_batches fuel table cutoff delete_batch)
  ]

module _ {S : Type 0} (store : Store S) (p : Pruner) (fuel : ℕ) where
  -- `if p.cfg.RawPeriod > 0 { … }`
  unfoldable pub prune_raw : Time → World S → Outcome × World S
  prune_raw now w =
      let cutoff = before_by now p.cfg.raw_period in
      let rest : World S → Outcome × World S = λ w.
        delete_batches store fuel "raw_command_payloads" cutoff
          store.delete_expired_raw_command_payloads w in
      if ltb_ℤ (pos 0) p.cfg.raw_period
      then (if p.timescale
          then and_then (drop_chunks store "raw_command_payloads" cutoff w) rest
          else rest w)
      else (returned none, w)

  -- RawPeriod == 0
  abbrev pub run_tables : List String
  run_tables =
      if is_zero p.cfg.raw_period
      then "raw_command_payloads" ∷ poll_hypertables
      else poll_hypertables

  -- `if p.cfg.Period > 0 { … }`
  unfoldable pub prune_runs : Time → World S → Outcome × World S
  prune_runs now w =
      let cutoff = before_by now p.cfg.period in
      let rest : World S → Outcome × World S =
        λ w. delete_batches store fuel "poll_runs" cutoff store.delete_expired_poll_runs w in
      if ltb_ℤ (pos 0) p.cfg.period
      then (if p.timescale then and_then (drop_all store run_tables cutoff w) rest else rest w)
      else (returned none, w)

  unfoldable pub prune : Time → World S → Outcome × World S
  unfolding observe_run
  prune now w = observe_run (and_then (prune_raw now w) (prune_runs now))
