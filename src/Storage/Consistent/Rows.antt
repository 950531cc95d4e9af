-- ===== src/Storage/Consistent/Rows.antt =====
-- Rows with ids from a sequence, and rows that refer to them.
use nebula_mnemosina.Prelude.{
  ℕ, suc, ◌<◌, Bool, true, ◌||◌, List, [], ◌∷◌, ◌++◌, map, ◌==◌, ◌≡◌, inl, inr, refl, sym, ◌∙◌, ap,
  subst, arith, Bool-cases,
}
use nebula_mnemosina.Db.{PollRun}
use nebula_mnemosina.Db.Select.{select, count_if, has_key}
use nebula_mnemosina.Db.Select.All.{All, All-imp, All-append, All-map, All-select}
use nebula_mnemosina.Db.Select.Keys.{HasKeys, count_if-append}
use nebula_mnemosina.Db.PollRuns.{has_run}
use nebula_mnemosina.Db.Retention.{run_id}

module _ {A : Type 0} (key : A → ℕ) (next : ℕ) where
  -- Ids below the next of the sequence leave that free.
  count_next :
      (rows : List A) → All (λ r. key r < next) rows → count_if (λ r. key r == next) rows ≡ 0
  unfolding count_if
  count_next [] h = refl
  count_next (r ∷ rows) (h, hs) = ground (arith, h, count_next rows hs)

  -- A row with the next id.
  pub append-HasKeys :
      (rows : List A) (r : A)
      → key r ≡ next
      → All (λ r. key r < next) rows
      → HasKeys key rows
      → HasKeys key (rows ++ r ∷ [])
  append-HasKeys rows r e below keys k =
      let more = count_if-append (λ r. key r == k) rows r in
      let before = keys k in
      elim (Bool-cases (key r == k)) [
        | inl same ↦
            let at : k ≡ next = ground (arith, same, e) in
            let free = ap (λ k. count_if (λ r. key r == k) rows) at ∙ count_next rows below in
            ground (arith, more, same, free)
        | inr other ↦ ground (arith, more, other, before)
      ]

  pub append_below :
      (rows : List A) (r : A)
      → key r ≡ next
      → All (λ r. key r < next) rows
      → All (λ r. key r < suc next) (rows ++ r ∷ [])
  append_below rows r e below =
      All-append _ rows (r ∷ []) (All-imp (λ x (h : key x < next). omega arith) rows below)
        (omega arith, tt)

-- A run that the foreign key's check finds.
has_run-has_key : (id : ℕ) (runs : List PollRun) → has_key run_id id runs ≡ has_run id runs
unfolding has_run has_key
has_run-has_key id [] = refl
has_run-has_key id (r ∷ runs) = ap (λ b. (r.id == id) || b) (has_run-has_key id runs)

-- Changing what is no id changes no key.
module _ (f : PollRun → PollRun) (same : (r : PollRun) → (f r).id ≡ r.id) where
  pub has_key-map :
      (k : ℕ) (runs : List PollRun) → has_key run_id k (map f runs) ≡ has_key run_id k runs
  unfolding has_key
  has_key-map k [] = refl
  has_key-map k (r ∷ runs) = rw (same r, has_key-map k runs) refl

  pub count_key-map :
      (k : ℕ) (runs : List PollRun)
      → count_if (λ r. r.id == k) (map f runs) ≡ count_if (λ r. r.id == k) runs
  unfolding count_if
  count_key-map k [] = refl
  count_key-map k (r ∷ runs) = rw (same r, count_key-map k runs) refl

  pub below-map :
      (next : ℕ) (runs : List PollRun)
      → All (λ r. run_id r < next) runs
      → All (λ r. run_id r < next) (map f runs)
  below-map next runs h =
      All-map f (λ r. run_id r < next) runs
        (All-imp (λ r lt. subst (λ n. n < next) (sym (same r)) lt) runs h)

module _ {A : Type 0} (ref : A → ℕ) where
  abbrev pub Refer : List PollRun → List A → Type 0
  Refer runs rows = All (λ c. has_key run_id (ref c) runs ≡ true) rows

  -- A row whose run is checked.
  pub Refer-more :
      (runs : List PollRun) (rows : List A) (c : A)
      → has_run (ref c) runs ≡ true
      → Refer runs rows
      → Refer runs (rows ++ c ∷ [])
  Refer-more runs rows c found h =
      All-append _ rows (c ∷ []) h (has_run-has_key (ref c) runs ∙ found, tt)

  -- More runs keep what is found.
  has_key-append :
      (k : ℕ) (runs more : List PollRun)
      → has_key run_id k runs ≡ true
      → has_key run_id k (runs ++ more) ≡ true
  unfolding has_key
  has_key-append k [] more h = absurd (ground arith)
  has_key-append k (r ∷ runs) more h = ground (arith, has_key-append k runs more)

  pub Refer-append :
      (runs : List PollRun) (r : PollRun) (rows : List A)
      → Refer runs rows
      → Refer (runs ++ r ∷ []) rows
  Refer-append runs r rows h = All-imp (λ c. has_key-append (ref c) runs (r ∷ [])) rows h

  pub Refer-map :
      (f : PollRun → PollRun)
      → ((r : PollRun) → (f r).id ≡ r.id)
      → (runs : List PollRun) (rows : List A) → Refer runs rows
      → Refer (map f runs) rows
  Refer-map f same runs rows h = All-imp (λ c e. has_key-map f same (ref c) runs ∙ e) rows h

-- Fewer rows keep what holds of each.
pub select_below :
    {A : Type 0} (P : A → Type 0) (q : A → Bool) (rows : List A)
    → All P rows
    → All P (select q rows)
select_below P q rows h = All-imp (λ r (e, p). p) _ (All-select P q rows h)
