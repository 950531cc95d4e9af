-- ===== src/Retention/Ends.antt =====
-- How the parts of a prune of internal/retention/retention.go end: with an error, or with none and the
-- store in a state that a predicate holds of.
use nebula_mnemosina.Prelude.{
  ℕ, zero, suc, ◌*◌, ◌<◌, String, Bool, true, false, List, [], ◌∷◌, none, some, ltb, if◌then◌else◌,
  ◌≡◌, ◌⊎◌, inl, inr, refl, arith, Bool-cases, Option-cases,
}
use nebula_mnemosina.Prelude.Int.{pos, ltb_ℤ}
use nebula_mnemosina.Time.{Time, before_by}
use nebula_mnemosina.Errors.{Error, Result, ok, err}
use nebula_mnemosina.Metrics.{observe_deleted_rows, observe_dropped_chunks}
use nebula_mnemosina.Retention.{
  Store, World, Outcome, returned, unfinished, and_then, count_chunks, count_batch, drop_chunks,
  drop_all, delete_batches, batch_size, observe_run, Pruner, prune_raw, prune_runs, run_tables,
}
use nebula_mnemosina.Retention.Laws.{IsBatch, delete_batches_lem}

module _ {S : Type 0} where
  abbrev pub Ends : (S → Type 0) → Outcome × World S → Type 0
  Ends P r = ((e : Error) × (r.0 ≡ returned (some e))) ⊎ ((r.0 ≡ returned none) × P r.1.store)

  pub Ends-imp :
      (P Q : S → Type 0) (r : Outcome × World S) → ((s : S) → P s → Q s) → Ends P r → Ends Q r
  Ends-imp P Q r f (inl e) = inl e
  Ends-imp P Q r f (inr (h, p)) = inr (h, f r.1.store p)

  pub and_then-Ends :
      (P Q : S → Type 0) (r : Outcome × World S) (rest : World S → Outcome × World S)
      → Ends P r
      → ((w : World S) → P w.store → Ends Q (rest w))
      → Ends Q (and_then r rest)
  and_then-Ends P Q (returned none, w) rest (inl (e, h)) more = absurd (ground arith)
  and_then-Ends P Q (returned none, w) rest (inr (h, p)) more = more w p
  and_then-Ends P Q (returned (some e), w) rest h more = inl (e, refl)
  and_then-Ends P Q (unfinished, w) rest (inl (e, h)) more = absurd (ground arith)
  and_then-Ends P Q (unfinished, w) rest (inr (h, p)) more = absurd (ground arith)

  pub observe_run-Ends :
      (P : S → Type 0) (r : Outcome × World S) → Ends P r → Ends P (observe_run r)
  unfolding observe_run
  observe_run-Ends P (returned e, w) h = h
  observe_run-Ends P (unfinished, w) h = h

  if-Ends :
      (P : S → Type 0) (b : Bool) (x y : Outcome × World S)
      → (b ≡ true → Ends P x)
      → (b ≡ false → Ends P y)
      → Ends P (if b then x else y)
  if-Ends P true x y f g = f refl
  if-Ends P false x y f g = g refl

  count_chunks-Ends :
      (P : S → Type 0) (table : String) (answer : Result ℕ) (w : World S)
      → P w.store
      → Ends P (count_chunks table answer w)
  unfolding count_chunks observe_dropped_chunks
  count_chunks-Ends P table (err e) w p = inl (e, refl)
  count_chunks-Ends P table (ok dropped) w p = inr (refl, p)

module _ {S : Type 0} (store : Store S) (P : S → Type 0)
    (keep : (table : String) (cutoff : Time) (s : S)
      → P s
      → P (store.drop_chunks table cutoff s).1) where
  pub drop_chunks-Ends :
      (table : String) (cutoff : Time) (w : World S)
      → P w.store
      → Ends P (drop_chunks store table cutoff w)
  unfolding drop_chunks
  drop_chunks-Ends table cutoff w p =
      count_chunks-Ends P table (store.drop_chunks table cutoff w.store).0 _
        (keep table cutoff w.store p)

  pub drop_all-Ends :
      (tables : List String) (cutoff : Time) (w : World S)
      → P w.store
      → Ends P (drop_all store tables cutoff w)
  unfolding drop_all
  drop_all-Ends [] cutoff w p = inr (refl, p)
  drop_all-Ends (table ∷ tables) cutoff w p =
      and_then-Ends P P (drop_chunks store table cutoff w) (drop_all store tables cutoff)
        (drop_chunks-Ends table cutoff w p) (drop_all-Ends tables cutoff)

module _ {S : Type 0} (store : Store S) (table : String) (cutoff : Time)
    (delete : Time → ℕ → S → Result ℕ × S) (Inv : S → Type 0) (expired : S → ℕ)
    (laws : IsBatch Inv expired (delete cutoff)) where
  count_batch_keeps :
      (answer : Result ℕ) (w : World S) (more : World S → Outcome × World S)
      → ((d : ℕ) → answer ≡ ok d → Inv w.store)
      → ((w : World S) → Inv w.store → (more w).0 ≡ returned none → Inv (more w).1.store)
      → (count_batch table answer w more).0 ≡ returned none
      → Inv (count_batch table answer w more).1.store
  unfolding count_batch observe_deleted_rows
  count_batch_keeps (err e) w more law rest = λ h. absurd (ground arith)
  count_batch_keeps (ok d) w more law rest = elim (Bool-cases (ltb d 1000)) [
    | inl short ↦ rw short (λ h. law d refl)
    | inr long ↦ rw long (λ h. rest _ (law d refl) h)
  ]

  -- The invariant is kept up to the end.
  delete_batches_keeps :
      (fuel : ℕ) (w : World S)
      → Inv w.store
      → (delete_batches store fuel table cutoff delete w).0 ≡ returned none
      → Inv (delete_batches store fuel table cutoff delete w).1.store
  unfolding delete_batches
  delete_batches_keeps zero w inv = λ h. absurd (ground arith)
  delete_batches_keeps (suc fuel) w inv = elim (Option-cases (store.context_error w.store)) [
    | inr (e, p) ↦ rw (p, delete_batches) (λ h. absurd (ground arith))
    | inl p ↦
        rw (p, delete_batches)
          (count_batch_keeps (delete cutoff batch_size w.store).0
            (record w { store = (delete cutoff batch_size w.store).1 })
            (delete_batches store fuel table cutoff delete)
            (λ d e. (laws.deleted 1000 w.store inv e).0) (delete_batches_keeps fuel))
  ]

  pub delete_batches-Ends :
      (fuel : ℕ) (w : World S)
      → Inv w.store
      → expired w.store < 1000 * fuel
      → Ends (λ s. Inv s × (expired s ≡ 0)) (delete_batches store fuel table cutoff delete w)
  delete_batches-Ends fuel w inv h =
      elim (delete_batches_lem store table cutoff delete Inv expired laws fuel w inv h) [
        | inl e ↦ inl e
        | inr (fine, empty, counted) ↦ inr (fine, (delete_batches_keeps fuel w inv fine, empty))
      ]

-- The parts of a prune, from what its deletions and drops do to the state.
module _ {S : Type 0} (store : Store S) (p : Pruner) (fuel : ℕ) (now : Time) (P Q : S → Type 0)
    (keep : (table : String) (cutoff : Time) (s : S)
      → P s
      → P (store.drop_chunks table cutoff s).1) where
  pub prune_raw-Ends :
      ((w : World S)
        → P w.store
        → Ends Q (
            delete_batches store fuel "raw_command_payloads"
              (before_by now p.cfg.raw_period)
              store.delete_expired_raw_command_payloads
              w))
      → ((s : S) → ltb_ℤ (pos 0) p.cfg.raw_period ≡ false → P s → Q s)
      → (w : World S) → P w.store
      → Ends Q (prune_raw store p fuel now w)
  unfolding prune_raw
  prune_raw-Ends batches off w h =
      let cutoff = before_by now p.cfg.raw_period in
      if-Ends Q (ltb_ℤ (pos 0) p.cfg.raw_period) _ _
        (λ on.
          if-Ends Q p.timescale _ _
            (λ chunks.
              and_then-Ends P Q (drop_chunks store "raw_command_payloads" cutoff w) _
                (drop_chunks-Ends store P keep "raw_command_payloads" cutoff w h) batches)
            (λ plain. batches w h))
        (λ e. inr (refl, off w.store e h))

  pub prune_runs-Ends :
      ((w : World S)
        → ltb_ℤ (pos 0) p.cfg.period ≡ true
        → P w.store
        → Ends Q (
            delete_batches store fuel "poll_runs"
              (before_by now p.cfg.period)
              store.delete_expired_poll_runs
              w))
      → ((s : S) → ltb_ℤ (pos 0) p.cfg.period ≡ false → P s → Q s)
      → (w : World S) → P w.store
      → Ends Q (prune_runs store p fuel now w)
  unfolding prune_runs
  prune_runs-Ends batches off w h =
      let cutoff = before_by now p.cfg.period in
      if-Ends Q (ltb_ℤ (pos 0) p.cfg.period) _ _
        (λ on.
          if-Ends Q p.timescale _ _
            (λ chunks.
              and_then-Ends P Q (drop_all store (run_tables store p fuel) cutoff w) _
                (drop_all-Ends store P keep (run_tables store p fuel) cutoff w h)
                (λ w. batches w on))
            (λ plain. batches w on h))
        (λ e. inr (refl, off w.store e h))
