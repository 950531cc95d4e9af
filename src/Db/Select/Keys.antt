-- ===== src/Db/Select/Keys.antt =====
-- Rows picked and deleted by their keys, where no two rows share one.
use nebula_mnemosina.Prelude.{
  ◌++◌, if◌then◌else◌, ℕ, zero, suc, ◌+◌, ◌≤◌, Bool, false, ◌&&◌, not, List, [], ◌∷◌, ◌==◌, length,
  take, ◌≡◌, inl, inr, refl, arith, Bool-cases,
}
use nebula_mnemosina.Db.Select.{select, count_if, place, order_by, has_key}

module _ {A : Type 0} where
  pub count_if_eq :
      (p q : A → Bool) (rs : List A) → ((r : A) → p r ≡ q r) → count_if p rs ≡ count_if q rs
  unfolding count_if
  count_if_eq p q [] h = refl
  count_if_eq p q (r ∷ rs) h = ground (arith, h r, count_if_eq p q rs h)

  -- A row counts once, with `q` or without.
  pub count_if-split :
      (p q : A → Bool) (rs : List A)
      → count_if (λ r. p r && q r) rs + count_if (λ r. p r && not (q r)) rs ≡ count_if p rs
  unfolding count_if
  count_if-split p q [] = omega arith
  count_if-split p q (r ∷ rs) = ground (arith, count_if-split p q rs)

  pub count_if-select :
      (p q : A → Bool) (rs : List A) → count_if p (select q rs) ≡ count_if (λ r. q r && p r) rs
  unfolding count_if select
  count_if-select p q [] = refl
  count_if-select p q (r ∷ rs) = ground (arith, count_if-select p q rs)

  pub length-select : (p : A → Bool) (rs : List A) → length (select p rs) ≡ count_if p rs
  unfolding count_if select
  length-select p [] = refl
  length-select p (r ∷ rs) = ground (arith, length-select p rs)

  place-count :
      (p : A → Bool) (before : A → A → Bool) (r : A) (rs : List A)
      → count_if p (place before r rs) ≡ count_if p (r ∷ rs)
  unfolding place count_if
  place-count p before r [] = refl
  place-count p before r (x ∷ xs) = ground (arith, place-count p before r xs)

  -- Sorting keeps every count.
  pub order_by-count :
      (p : A → Bool) (before : A → A → Bool) (rs : List A)
      → count_if p (order_by before rs) ≡ count_if p rs
  unfolding order_by count_if
  order_by-count p before [] = refl
  order_by-count p before (r ∷ rs) =
      omega (arith, place-count p before r (order_by before rs), order_by-count p before rs)

  pub count_if-take : (p : A → Bool) (n : ℕ) (rs : List A) → count_if p (take n rs) ≤ count_if p rs
  unfolding count_if
  count_if-take p zero rs = omega arith
  count_if-take p (suc n) [] = omega arith
  count_if-take p (suc n) (r ∷ rs) = omega (arith, count_if-take p n rs)

  pub count_if-le : (p q : A → Bool) (rs : List A) → count_if p (select q rs) ≤ count_if p rs
  unfolding count_if select
  count_if-le p q [] = omega arith
  count_if-le p q (r ∷ rs) = ground (arith, count_if-le p q rs)

pub count_if-append :
    {A : Type 0} (p : A → Bool) (rows : List A) (r : A)
    → count_if p (rows ++ r ∷ []) ≡ count_if p rows + (if p r then 1 else 0)
unfolding count_if
count_if-append p [] r = omega arith
count_if-append p (x ∷ rows) r = omega (arith, count_if-append p rows r)

module _ {A : Type 0} (key : A → ℕ) where
  abbrev pub count_key : ℕ → List A → ℕ
  count_key k = count_if (λ r. key r == k)

  -- PRIMARY KEY: no two rows share a key.
  abbrev pub HasKeys : List A → Type 0
  HasKeys rs = (k : ℕ) → count_if (λ r. key r == k) rs ≤ 1

  pub select-HasKeys : (q : A → Bool) (rs : List A) → HasKeys rs → HasKeys (select q rs)
  select-HasKeys q rs h k = omega (arith, count_if-le (λ r. key r == k) q rs, h k)

  has_key_none : (k : ℕ) (rs : List A) → count_key k rs ≡ 0 → has_key key k rs ≡ false
  unfolding has_key count_if
  has_key_none k [] h = refl
  has_key_none k (r ∷ rs) h = ground (arith, has_key_none k rs)

  -- One more key: the rows that have it come on top, since no other has it.
  count_one_more :
      (p : A) (ps rs : List A)
      → has_key key (key p) ps ≡ false
      → count_if (λ r. has_key key (key r) (p ∷ ps)) rs
        ≡ count_key (key p) rs + count_if (λ r. has_key key (key r) ps) rs
  unfolding has_key count_if
  count_one_more p ps [] h = omega arith
  count_one_more p ps (r ∷ rs) h = elim (Bool-cases (key r == key p)) [
    | inl e ↦
        let same : key r ≡ key p = ground arith in
        let no : has_key key (key r) ps ≡ false = rw same h in
        ground (arith, count_one_more p ps rs h)
    | inr e ↦ ground (arith, count_one_more p ps rs h)
  ]

  count_if_never : (rs : List A) → count_if (λ r. has_key key (key r) []) rs ≡ 0
  unfolding count_if has_key
  count_if_never [] = refl
  count_if_never (r ∷ rs) = omega (arith, count_if_never rs)

  count_key-cons : (k : ℕ) (p : A) (ps : List A) → count_key k ps ≤ count_key k (p ∷ ps)
  unfolding count_if
  count_key-cons k p ps = omega arith

  count_key_self : (p : A) (ps : List A) → count_key (key p) (p ∷ ps) ≡ suc (count_key (key p) ps)
  unfolding count_if
  count_key_self p ps = ground arith

  -- As many rows have one of the keys as there are keys.
  pub count_if-has_key :
      (ps rs : List A)
      → HasKeys rs
      → ((k : ℕ) → count_key k ps ≤ count_key k rs)
      → count_if (λ r. has_key key (key r) ps) rs ≡ length ps
  count_if-has_key [] rs keys sub = count_if_never rs
  count_if-has_key (p ∷ ps) rs keys sub =
      let self = count_key_self p ps in
      let le = sub (key p) in
      let one = keys (key p) in
      let none_left : count_key (key p) ps ≡ 0 = omega arith in
      let rest = count_if-has_key ps rs keys (λ k. omega (arith, count_key-cons k p ps, sub k)) in
      omega (arith, count_one_more p ps rs (has_key_none (key p) ps none_left))

pub count_if-append_all :
    {A : Type 0} (p : A → Bool) (xs ys : List A)
    → count_if p (xs ++ ys) ≡ count_if p xs + count_if p ys
unfolding count_if
count_if-append_all p [] ys = omega arith
count_if-append_all p (x ∷ xs) ys = omega (arith, count_if-append_all p xs ys)
