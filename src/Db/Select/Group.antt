-- ===== src/Db/Select/Group.antt =====
-- Rows gathered by their keys: each stands in one group.
use nebula_mnemosina.Prelude.{
  ℕ, ◌+◌, ◌<◌, Bool, true, false, ◌&&◌, List, [], ◌∷◌, map, if◌then◌else◌, ◌≡◌, refl, ◌∙◌, ap,
  arith,
}
use nebula_mnemosina.Prelude.Eq.{Eq, beq_refl, beq_comm}
use nebula_mnemosina.Db.Select.{select, count_if, distinct_on, group_by}
use nebula_mnemosina.Db.Select.All.{All, All-imp, All-map}
use nebula_mnemosina.Db.Select.Keys.{count_if_eq, count_if-select}
use nebula_mnemosina.Db.Select.Distinct.{
  at_most_one, at_most_one_pos, count_never, count_if-distinct_on, All-distinct_on,
}

-- The sum of a number of each element.
abbrev pub total {ℓ} : {A : Type ℓ} → (A → ℕ) → List A → ℕ
total f [] = 0
total f (x ∷ xs) = f x + total f xs

pub total_eq :
    {B : Type 0} (f g : B → ℕ) (ys : List B) → ((y : B) → f y ≡ g y) → total f ys ≡ total g ys
total_eq f g [] h = refl
total_eq f g (y ∷ ys) h = omega (arith, h y, total_eq f g ys h)

pub total-map :
    {A B : Type 0} (g : A → B) (f : B → ℕ) (xs : List A)
    → total f (map g xs) ≡ total (λ x. f (g x)) xs
total-map g f [] = refl
total-map g f (x ∷ xs) = omega (arith, total-map g f xs)

pub count_if-map :
    {A B : Type 0} (f : A → B) (p : B → Bool) (rs : List A)
    → count_if p (map f rs) ≡ count_if (λ r. p (f r)) rs
unfolding count_if
count_if-map f p [] = refl
count_if-map f p (r ∷ rs) = ap (λ n. (if p (f r) then 1 else 0) + n) (count_if-map f p rs)

module _ {A B : Type 0} (p : A → B → Bool) where
  total_none : (ys : List B) → total (λ y. count_if (λ x. p x y) []) ys ≡ 0
  unfolding count_if
  total_none [] = refl
  total_none (y ∷ ys) = omega (arith, total_none ys)

  total_one_more :
      (x : A) (xs : List A) (ys : List B)
      → total (λ y. count_if (λ x. p x y) (x ∷ xs)) ys
        ≡ count_if (p x) ys + total (λ y. count_if (λ x. p x y) xs) ys
  unfolding count_if
  total_one_more x xs [] = refl
  total_one_more x xs (y ∷ ys) = omega (arith, total_one_more x xs ys)

  -- Pairs are counted by either side.
  total_swap :
      (xs : List A) (ys : List B)
      → total (λ y. count_if (λ x. p x y) xs) ys ≡ total (λ x. count_if (p x) ys) xs
  total_swap [] ys = total_none ys
  total_swap (x ∷ xs) ys = omega (arith, total_one_more x xs ys, total_swap xs ys)

module _ {A K : Type 0} ⦃e : Eq K⦄ (key : A → K) where
  abbrev Occurs : List A → A → Type 0
  Occurs rs r = 0 < count_if (λ k. e.beq k (key r)) (map key rs)

  occurs : (rs : List A) → All (Occurs rs) rs
  unfolding count_if
  occurs [] = tt
  occurs (r ∷ rs) = (
    let self = beq_refl (key r) in ground (arith, self),
    All-imp (λ x (h : Occurs rs x). omega arith) rs (occurs rs),
  )

  -- The groups of a row, which counts or not.
  own_groups :
      (b : Bool) (rs : List A) (r : A)
      → Occurs rs r
      → count_if (λ k. e.beq (key r) k && b) (distinct_on e.beq (map key rs)) ≡ (if b then 1 else 0)
  own_groups true rs r h =
      count_if_eq (λ k. e.beq (key r) k && true) (λ k. e.beq k (key r))
        (distinct_on e.beq (map key rs)) (λ k. let c = beq_comm (key r) k in ground (arith, c))
      ∙ count_if-distinct_on (λ (k : K). k) (key r) (map key rs)
      ∙ at_most_one_pos _ h
  own_groups false rs r h =
      count_if_eq (λ k. e.beq (key r) k && false) (λ k. false) (distinct_on e.beq (map key rs))
        (λ k. ground arith)
      ∙ count_never (distinct_on e.beq (map key rs))

  sum_own :
      (q : A → Bool) (all rs : List A)
      → All (Occurs all) rs
      → total (λ r. count_if (λ k. e.beq (key r) k && q r) (distinct_on e.beq (map key all))) rs
        ≡ count_if q rs
  unfolding count_if
  sum_own q all [] h = refl
  sum_own q all (r ∷ rs) (h, hs) = omega (arith, own_groups (q r) all r h, sum_own q all rs hs)

  -- Counted group by group, every row counts once.
  pub group_by-count :
      (q : A → Bool) (rs : List A) → total (λ g. count_if q g.1) (group_by key rs) ≡ count_if q rs
  unfolding group_by
  group_by-count q rs =
      let ks = distinct_on e.beq (map key rs) in
      total-map (λ k. (k, select (λ r. e.beq (key r) k) rs)) (λ g. count_if q g.1) ks
      ∙ total_eq _ _ ks (λ k. count_if-select q (λ r. e.beq (key r) k) rs)
      ∙ total_swap (λ r k. e.beq (key r) k && q r) rs ks
      ∙ sum_own q rs rs (occurs rs)

  -- Each key that occurs has one group.
  pub group_by-once :
      (k : K) (rs : List A)
      → count_if (λ g. e.beq g.0 k) (group_by key rs)
        ≡ at_most_one (count_if (λ r. e.beq (key r) k) rs)
  unfolding group_by
  group_by-once k rs =
      count_if-map _ (λ g. e.beq g.0 k) (distinct_on e.beq (map key rs))
      ∙ count_if-distinct_on (λ (k : K). k) k (map key rs)
      ∙ ap at_most_one (count_if-map key (λ x. e.beq x k) rs)

  -- A group has the rows of its key, and at least one.
  pub group_by-rows :
      (rs : List A)
      → All
          (λ g.
            (g.1 ≡ select (λ r. e.beq (key r) g.0) rs) × (0 < count_if (λ r. e.beq (key r) g.0) rs))
          (group_by key rs)
  unfolding group_by
  group_by-rows rs = All-map _ _ (distinct_on e.beq (map key rs)) (
      All-imp (λ k h. (refl, h)) _
        (All-distinct_on e.beq (λ k. 0 < count_if (λ r. e.beq (key r) k) rs) (map key rs)
          (All-map key _ rs (
            All-imp (λ r h. omega (arith, count_if-map key (λ k. e.beq k (key r)) rs)) rs
              (occurs rs)))))
