-- ===== src/Retention/Laws.antt =====
-- The batches of the pruner against a store that deletes what it says.
use nebula_mnemosina.Prelude.{
  ℕ, zero, suc, ◌+◌, ◌*◌, ◌<◌, ◌≤◌, String, List, [], ◌∷◌, ◌++◌, none, some, ltb, ltb→lt, ◌≡◌, ◌⊎◌,
  inl, inr, refl, arith, Option-cases, Bool-cases,
}
use nebula_mnemosina.Time.{Time}
use nebula_mnemosina.Errors.{Error, Result, ok, err}
use nebula_mnemosina.Metrics.{observe_deleted_rows}
use nebula_mnemosina.Retention.{
  Store, World, Outcome, returned, delete_batches, count_batch, batch_size,
}

-- What SQL's `LIMIT` and the count of affected rows promise of a batch, for the number of rows that
-- are expired: a batch takes as many of them as it may, and says how many; one that fails adds none.
-- `Inv` is what the store keeps true, such as unique ids.
pub record IsBatch {S : Type 0} (Inv : S → Type 0) (expired : S → ℕ) (delete : ℕ → S → Result ℕ × S)
    : Type 0 where
  pub deleted :
      (n : ℕ) (s : S) {d : ℕ}
      → Inv s
      → (delete n s).0 ≡ ok d
      → Inv (delete n s).1
        × (d + expired (delete n s).1 ≡ expired s)
        × ((d ≡ n) ⊎ (expired (delete n s).1 ≡ 0))
        × (d ≤ n)

-- The numbers that a metric holds, added up.
abbrev pub total : List (String × ℕ) → ℕ
total [] = 0
total ((table, n) ∷ xs) = n + total xs

total-append : (xs ys : List (String × ℕ)) → total (xs ++ ys) ≡ total xs + total ys
total-append [] ys = omega arith
total-append ((table, n) ∷ xs) ys = omega (arith, total-append xs ys)

module _ {S : Type 0} (store : Store S) (table : String) (cutoff : Time)
    (delete : Time → ℕ → S → Result ℕ × S) (Inv : S → Type 0) (expired : S → ℕ)
    (laws : IsBatch Inv expired (delete cutoff)) where
  abbrev rows_deleted : World S → ℕ
  rows_deleted w = total w.metrics.retention_deleted_rows_total

  -- An error; or no expired row is left, and the metric has grown by their number.
  abbrev pub Emptied : World S → Outcome × World S → Type 0
  Emptied w r =
      ((e : Error) × (r.0 ≡ returned (some e)))
      ⊎ ((r.0 ≡ returned none)
          × (expired r.1.store ≡ 0)
          × (rows_deleted r.1 ≡ rows_deleted w + expired w.store))

  count_batch_lem :
      (fuel : ℕ) (w : World S) (s : S) (answer : Result ℕ) (more : World S → Outcome × World S)
      → expired w.store < 1000 * suc fuel
      → ((d : ℕ)
          → answer ≡ ok d
          → Inv s × (d + expired s ≡ expired w.store) × ((d ≡ 1000) ⊎ (expired s ≡ 0)) × (d ≤ 1000))
      → ((w : World S) → Inv w.store → expired w.store < 1000 * fuel → Emptied w (more w))
      → Emptied w (count_batch table answer (record w { store = s }) more)
  unfolding count_batch observe_deleted_rows
  count_batch_lem fuel w s (err e) more h law rest = inl (_, refl)
  count_batch_lem fuel w s (ok d) more h law rest =
      let (keeps, sum, full, le) = law d refl in
      let grown = total-append w.metrics.retention_deleted_rows_total ((table, d) ∷ []) in
      elim (Bool-cases (ltb d 1000)) [
        | inl short ↦
            let lt = ltb→lt d 1000 short in rw short (inr (refl, omega arith, omega (arith, grown)))
        | inr long ↦
            let counted : World S = record {
              store = s;
              metrics = observe_deleted_rows table d w.metrics;
            } in
            let ge : 1000 ≤ d = ground arith in
            rw long (elim (rest counted keeps (omega arith)) [
              | inl e ↦ inl e
              | inr (none_left, empty, same) ↦ inr (none_left, empty, omega (arith, grown, same))
            ])
      ]

  -- The loop ends, on fuel for the batches that the expired rows fill and one more. It ends with
  -- the error of the context or of a batch; or else no expired row is left, and the metric has
  -- grown by their number. The store keeps an invariant, under which each batch deletes as many
  -- expired rows as it may.
  pub delete_batches_lem :
      (fuel : ℕ) (w : World S)
      → Inv w.store
      → expired w.store < 1000 * fuel
      → Emptied w (delete_batches store fuel table cutoff delete w)
  unfolding delete_batches
  delete_batches_lem zero w inv h = absurd (omega arith)
  delete_batches_lem (suc fuel) w inv h = elim (Option-cases (store.context_error w.store)) [
    | inr (e, p) ↦ rw (p, delete_batches) (inl (e, refl))
    | inl p ↦
        rw (p, delete_batches)
          (count_batch_lem fuel w (delete cutoff batch_size w.store).1
            (delete cutoff batch_size w.store).0 (delete_batches store fuel table cutoff delete) h
            (λ d e. laws.deleted 1000 w.store inv e) (delete_batches_lem fuel))
  ]
