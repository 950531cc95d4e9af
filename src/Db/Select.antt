-- ===== src/Db/Select.antt =====
-- What the queries use of SQL, on tables as lists of rows: WHERE, ORDER BY, LIMIT,
-- DISTINCT ON and GROUP BY. Rows that
-- ORDER BY does not tell apart, whose order SQL leaves open, keep the order of the table.
pub mod All
pub mod Keys
pub mod Batch
pub mod Distinct
pub mod Group
use nebula_mnemosina.Prelude.Eq.{Eq}
use nebula_mnemosina.Prelude.{
  map, ℕ, ◌+◌, Bool, true, false, ◌||◌, not, List, [], ◌∷◌, ◌==◌, if◌then◌else◌,
}

module _ {A : Type 0} where
  unfoldable pub select : (A → Bool) → List A → List A
  select p [] = []
  select p (r ∷ rs) = let rest = select p rs in if p r then r ∷ rest else rest

  unfoldable pub count_if : (A → Bool) → List A → ℕ
  count_if p [] = 0
  count_if p (r ∷ rs) = (if p r then 1 else 0) + count_if p rs

  unfoldable pub place : (A → A → Bool) → A → List A → List A
  place before r [] = r ∷ []
  place before r (x ∷ xs) =
      let rest = place before r xs in if before x r then x ∷ rest else r ∷ x ∷ xs

  -- Sorted by a strict order: from the last row on, each row goes behind those before it.
  unfoldable pub order_by : (A → A → Bool) → List A → List A
  unfolding place
  order_by before [] = []
  order_by before (r ∷ rs) = place before r (order_by before rs)

  -- `id IN (SELECT id FROM …)`
  unfoldable pub has_key : (A → ℕ) → ℕ → List A → Bool
  has_key key k [] = false
  has_key key k (r ∷ rs) = (key r == k) || has_key key k rs

  -- DISTINCT ON, and `row_number() … = 1`: the first row of those that `same` does not tell apart.
  unfoldable pub distinct_on : (A → A → Bool) → List A → List A
  distinct_on same [] = []
  distinct_on same (r ∷ rs) = r ∷ select (λ x. not (same r x)) (distinct_on same rs)

module _ {A K : Type 0} ⦃e : Eq K⦄ where
  -- Rows of one key are not told apart.
  abbrev pub same_by : (A → K) → A → A → Bool
  same_by key a b = e.beq (key a) (key b)

  -- GROUP BY: each key that occurs, with the rows that have it.
  unfoldable pub group_by : (A → K) → List A → List (K × List A)
  unfolding select distinct_on
  group_by key rs =
      map (λ k. (k, select (λ r. e.beq (key r) k) rs)) (distinct_on e.beq (map key rs))
