-- ===== src/Db/Select/Batch.antt =====
-- A batch: the first `n` of the rows that are expired, in some order, and the rows that a DELETE by
-- their keys removes.
use nebula_mnemosina.Prelude.{
  ℕ, suc, ◌+◌, ◌≤◌, Bool, ◌&&◌, not, List, [], ◌∷◌, ◌==◌, length, length-take, take, ◌≡◌, ◌⊎◌, refl,
  sym, ◌∙◌, arith,
}
use nebula_mnemosina.Db.Select.{select, count_if, place, order_by, has_key}
use nebula_mnemosina.Db.Select.Keys.{
  count_if_eq, count_if-split, count_if-select, length-select, order_by-count, count_if-take,
  HasKeys, count_key, select-HasKeys, count_if-has_key,
}

module _ {A : Type 0} where
  place-length :
      (before : A → A → Bool) (r : A) (rs : List A) → length (place before r rs) ≡ suc (length rs)
  unfolding place
  place-length before r [] = refl
  place-length before r (x ∷ xs) = ground (arith, place-length before r xs)

  order_by-length : (before : A → A → Bool) (rs : List A) → length (order_by before rs) ≡ length rs
  unfolding order_by
  order_by-length before [] = refl
  order_by-length before (r ∷ rs) =
      omega (arith, place-length before r (order_by before rs), order_by-length before rs)

  -- A row that is not expired is not touched.
  pub select-keeps :
      (expired gone : A → Bool) (rs : List A)
      → count_if (λ r. gone r && not (expired r)) rs ≡ 0
      → select (λ r. not (expired r)) (select (λ r. not (gone r)) rs)
        ≡ select (λ r. not (expired r)) rs
  unfolding select count_if
  select-keeps expired gone [] h = refl
  select-keeps expired gone (r ∷ rs) h = ground (arith, select-keeps expired gone rs)

module _ {A : Type 0} (key : A → ℕ) (expired : A → Bool) (before : A → A → Bool) (n : ℕ)
    (rs : List A) (keys : HasKeys key rs) where
  -- The rows that SELECT … WHERE … ORDER BY … LIMIT returns.
  abbrev pub picked : List A
  picked = take n (order_by before (select expired rs))

  picked_le : (k : ℕ) → count_key key k picked ≤ count_key key k (select expired rs)
  picked_le k = omega (
    arith,
    count_if-take (λ r. key r == k) n (order_by before (select expired rs)),
    order_by-count (λ r. key r == k) before (select expired rs),
  )

  -- The number of rows that a batch deletes.
  pub batch-count : count_if (λ r. expired r && has_key key (key r) picked) rs ≡ length picked
  batch-count =
      sym (count_if-select (λ r. has_key key (key r) picked) expired rs)
      ∙ count_if-has_key key picked (select expired rs) (select-HasKeys key expired rs keys)
          picked_le

  and_comm :
      (r : A)
      → (has_key key (key r) picked && expired r) ≡ (expired r && has_key key (key r) picked)
  and_comm r = ground arith

  picked_le_all : (k : ℕ) → count_key key k picked ≤ count_key key k rs
  picked_le_all k = omega (
    arith,
    picked_le k,
    count_if-select (λ r. key r == k) expired rs,
    count_if-split (λ r. key r == k) expired rs,
    count_if_eq (λ r. expired r && (key r == k)) (λ r. (key r == k) && expired r) rs
        (λ r. ground arith),
  )

  -- The rows with the keys that were picked are as many as were picked.
  pub batch-gone : count_if (λ r. has_key key (key r) picked) rs ≡ length picked
  batch-gone = count_if-has_key key picked rs keys picked_le_all

  -- Only expired rows have a key that was picked.
  pub batch_only : count_if (λ r. has_key key (key r) picked && not (expired r)) rs ≡ 0
  batch_only =
      let has : A → Bool = λ r. has_key key (key r) picked in
      omega (
        arith,
        batch-gone,
        count_if-split has expired rs,
        count_if_eq (λ r. has r && expired r) (λ r. expired r && has r) rs and_comm,
        batch-count,
      )

  length-picked :
      (length picked ≤ n) × ((length picked ≡ n) ⊎ (length picked ≡ count_if expired rs))
  length-picked =
      let t = length-take n (order_by before (select expired rs)) in
      let l = order_by-length before (select expired rs) in
      let e = length-select expired rs in (omega arith, omega arith)

  -- For a DELETE that removes, of the expired rows, those whose keys were picked.
  pub batch_lem :
      (gone : A → Bool)
      → ((r : A) → (expired r && gone r) ≡ (expired r && has_key key (key r) picked))
      → let left = select (λ r. not (gone r)) rs in
        (length picked + count_if expired left ≡ count_if expired rs)
        × ((length picked ≡ n) ⊎ (count_if expired left ≡ 0))
        × (length picked ≤ n)
  batch_lem gone same =
      let has : A → Bool = λ r. has_key key (key r) picked in
      let left = count_if-select expired (λ r. not (gone r)) rs in
      let swap =
        count_if_eq (λ r. not (gone r) && expired r) (λ r. expired r && not (has r)) rs
          (λ r. ground (arith, same r)) in
      let whole = count_if-split expired has rs in
      let gone_count = batch-count in
      let (le, cases) = length-picked in (omega arith, omega arith, le)
