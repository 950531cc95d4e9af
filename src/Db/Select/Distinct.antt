-- ===== src/Db/Select/Distinct.antt =====
-- The first row of each key, after a sort or without one.
use nebula_mnemosina.Prelude.{
  ℕ, zero, suc, ◌+◌, ◌<◌, Bool, true, false, ◌&&◌, not, List, [], ◌∷◌, ◌≡◌, inl, inr, refl, sym,
  ◌∙◌, ap, arith, Bool-cases,
}
use nebula_mnemosina.Prelude.Eq.{Eq, beq_comm}
use nebula_mnemosina.Db.Select.{count_if, place, order_by, distinct_on, same_by}
use nebula_mnemosina.Db.Select.All.{
  All, All-imp, All-select, All-place, All-of_order_by, All-of_select,
}
use nebula_mnemosina.Db.Select.Keys.{count_if_eq, count_if-select}

-- One if there is any.
abbrev pub at_most_one : ℕ → ℕ
at_most_one zero = 0
at_most_one (suc n) = 1

pub at_most_one_pos : (n : ℕ) → 0 < n → at_most_one n ≡ 1
at_most_one_pos zero h = absurd (omega arith)
at_most_one_pos (suc n) h = refl

zero_plus : (n : ℕ) → 0 + n ≡ n
zero_plus n = omega arith

pub count_never : {A : Type 0} (rs : List A) → count_if (λ x. false) rs ≡ 0
unfolding count_if
count_never [] = refl
count_never (r ∷ rs) = omega (arith, count_never rs)

module _ {A K : Type 0} ⦃e : Eq K⦄ (key : A → K) (k : K) where
  drop_same :
      (r x : A) → e.beq (key r) k ≡ true → (not (e.beq (key r) (key x)) && e.beq (key x) k) ≡ false
  drop_same r x h =
      let swap = ap (λ t. e.beq t (key x)) ((e.beq_iff (key r) k).0 h) ∙ beq_comm k (key x) in
      ground (arith, swap)

  keep_other :
      (r x : A)
      → e.beq (key r) k ≡ false
      → (not (e.beq (key r) (key x)) && e.beq (key x) k) ≡ e.beq (key x) k
  keep_other r x h = elim (Bool-cases (e.beq (key x) k)) [
    | inl f ↦
        let same = ap (e.beq (key r)) ((e.beq_iff (key x) k).0 f) in ground (arith, same, h, f)
    | inr f ↦ ground (arith, f)
  ]

  -- Every key that occurs stays once.
  pub count_if-distinct_on :
      (rs : List A)
      → count_if (λ x. e.beq (key x) k) (distinct_on (λ a b. e.beq (key a) (key b)) rs)
        ≡ at_most_one (count_if (λ x. e.beq (key x) k) rs)
  unfolding distinct_on count_if
  count_if-distinct_on [] = refl
  count_if-distinct_on (r ∷ rs) =
      let same : A → A → Bool = λ a b. e.beq (key a) (key b) in
      let left =
        count_if-select (λ x. e.beq (key x) k) (λ x. not (same r x)) (distinct_on same rs) in
      elim (Bool-cases (e.beq (key r) k)) [
        | inl h ↦
            let gone =
              count_if_eq (λ x. not (same r x) && e.beq (key x) k) (λ x. false)
                (distinct_on same rs) (λ x. drop_same r x h) in
            let one = at_most_one_pos (1 + count_if (λ x. e.beq (key x) k) rs) (omega arith) in
            rw h (omega (arith, left, gone, count_never (distinct_on same rs), one))
        | inr h ↦
            let kept =
              count_if_eq (λ x. not (same r x) && e.beq (key x) k) (λ x. e.beq (key x) k)
                (distinct_on same rs) (λ x. keep_other r x h) in
            rw h (
              zero_plus _
              ∙ left
              ∙ kept
              ∙ count_if-distinct_on rs
              ∙ ap at_most_one (sym (zero_plus _)))
      ]

module _ {A : Type 0} where
  pub All-distinct_on :
      (same : A → A → Bool) (P : A → Type 0) (xs : List A) → All P xs → All P (distinct_on same xs)
  unfolding distinct_on
  All-distinct_on same P [] h = tt
  All-distinct_on same P (x ∷ xs) (h, hs) = (
    h,
    All-imp (λ y (e, p). p) _
        (All-select P (λ y. not (same x y)) (distinct_on same xs) (All-distinct_on same P xs hs)),
  )

  -- A property that rows of one kind share holds of every row if it does of the first of each kind.
  pub All-of_distinct_on :
      (same : A → A → Bool) (P : A → Type 0)
      → ((a b : A) → same a b ≡ true → P a → P b)
      → (xs : List A) → All P (distinct_on same xs)
      → All P xs
  unfolding distinct_on
  All-of_distinct_on same P share [] h = tt
  All-of_distinct_on same P share (x ∷ xs) (h, hs) = (
    h,
    All-of_distinct_on same P share xs (
        All-imp
          (λ y new. elim (Bool-cases (same x y)) [
            | inl e ↦ share x y e h
            | inr e ↦ new (ground (arith, e))
          ])
          _ (All-of_select P (λ y. not (same x y)) (distinct_on same xs) hs)),
  )

module _ {A : Type 0} (before : A → A → Bool) where
  abbrev pub Sorted : List A → Type 0
  Sorted [] = Unit
  Sorted (x ∷ xs) = All (λ y. before y x ≡ false) xs × Sorted xs

  module _ (asym : (a b : A) → before a b ≡ true → before b a ≡ false)
      (trans : (a b c : A) → before b a ≡ false → before c b ≡ false → before c a ≡ false) where
    place-Sorted : (r : A) (xs : List A) → Sorted xs → Sorted (place before r xs)
    unfolding place
    place-Sorted r [] h = (tt, tt)
    place-Sorted r (x ∷ xs) (hx, hs) = elim (Bool-cases (before x r)) [
      | inl e ↦
          rw e
            (All-place before (λ y. before y x ≡ false) r xs (asym x r e) hx, place-Sorted r xs hs)
      | inr e ↦ rw e ((e, All-imp (λ y. trans r x y e) xs hx), (hx, hs))
    ]

    pub order_by-Sorted : (xs : List A) → Sorted (order_by before xs)
    unfolding order_by
    order_by-Sorted [] = tt
    order_by-Sorted (x ∷ xs) = place-Sorted x (order_by before xs) (order_by-Sorted xs)

    -- The first row of each kind comes before the others of it.
    pub distinct_on_first :
        (same : A → A → Bool)
        → ((a b : A) → same a b ≡ same b a)
        → (xs : List A) → Sorted xs
        → All (λ d. All (λ r. same d r ≡ true → before r d ≡ false) xs) (distinct_on same xs)
    unfolding distinct_on
    distinct_on_first same comm [] h = tt
    distinct_on_first same comm (x ∷ xs) (hx, hs) =
        let irreflexive : before x x ≡ false = elim (Bool-cases (before x x)) [
          | inl e ↦ asym x x e
          | inr e ↦ e
        ] in
        (
          (λ u. irreflexive, All-imp (λ r e u. e) xs hx),
          All-imp (λ d (new, rest). (λ u. absurd (ground (arith, new, u, comm d x)), rest)) _
              (All-select _ (λ y. not (same x y)) (distinct_on same xs)
                (distinct_on_first same comm xs hs)),
        )

-- Of the rows of each key, the first in the order.
pub first_in_order :
    {A K : Type 0} ⦃e : Eq K⦄ (key : A → K) (before : A → A → Bool)
    → ((a b : A) → before a b ≡ true → before b a ≡ false)
    → ((a b c : A) → before b a ≡ false → before c b ≡ false → before c a ≡ false)
    → (rs : List A)
    → All
        (λ d. All (λ r. e.beq (key d) (key r) ≡ true → before r d ≡ false) rs)
        (distinct_on (same_by key) (order_by before rs))
first_in_order key before asym trans rs =
    All-imp (λ d h. All-of_order_by before _ rs h) _
      (distinct_on_first before asym trans (same_by key) (λ a b. beq_comm (key a) (key b))
        (order_by before rs) (order_by-Sorted before asym trans rs))
