-- ===== src/Db/Select/All.antt =====
-- Predicates on every row, through the parts of a query.
use nebula_mnemosina.Prelude.{
  Bool, true, not, List, [], ◌∷◌, ◌++◌, map, ◌≡◌, ◌⊎◌, inl, inr, arith, Bool-cases,
}
use nebula_mnemosina.Db.Select.{select, place, order_by, distinct_on}

abbrev pub All : {A : Type 0} → (A → Type 0) → List A → Type 0
All P [] = Unit
All P (x ∷ xs) = P x × All P xs

abbrev pub Any : {A : Type 0} → (A → Type 0) → List A → Type 0
Any P [] = ⊥
Any P (x ∷ xs) = P x ⊎ Any P xs

-- What holds of a row holds of some row of the table.
abbrev pub Among : {A : Type 0} → A → List A → Type 1
Among x xs = (Q : _ → Type 0) → Q x → Any Q xs

module _ {A : Type 0} where
  pub All-imp : {P Q : A → Type 0} → ((x : A) → P x → Q x) → (xs : List A) → All P xs → All Q xs
  All-imp f [] h = tt
  All-imp f (x ∷ xs) (h, hs) = (f x h, All-imp f xs hs)

  pub All-select :
      (P : A → Type 0) (q : A → Bool) (xs : List A)
      → All P xs
      → All (λ x. (q x ≡ true) × P x) (select q xs)
  unfolding select
  All-select P q [] h = tt
  All-select P q (x ∷ xs) (h, hs) = elim (Bool-cases (q x)) [
    | inl e ↦ rw e ((e, h), All-select P q xs hs)
    | inr e ↦ rw e (All-select P q xs hs)
  ]

  pub All-of_select :
      (P : A → Type 0) (q : A → Bool) (xs : List A)
      → All P (select q xs)
      → All (λ x. q x ≡ true → P x) xs
  unfolding select
  All-of_select P q [] h = tt
  All-of_select P q (x ∷ xs) h = elim (Bool-cases (q x)) [
    | inl e ↦
        let (hx, hs) : All P (x ∷ select q xs) = rw e at h in (λ u. hx, All-of_select P q xs hs)
    | inr e ↦
        let hs : All P (select q xs) = rw e at h in
        (λ u. absurd (ground (arith, e, u)), All-of_select P q xs hs)
  ]

  pub All-both : (P Q : A → Type 0) (xs : List A) → All P xs → All Q xs → All (λ x. P x × Q x) xs
  All-both P Q [] h k = tt
  All-both P Q (x ∷ xs) (h, hs) (k, ks) = ((h, k), All-both P Q xs hs ks)

  pub All-Among : (P : A → Type 0) (xs : List A) → ((x : A) → Among x xs → P x) → All P xs
  All-Among P [] f = tt
  All-Among P (x ∷ xs) f =
      (f x (λ Q h. inl h), All-Among P xs (λ y among. f y (λ Q h. inr (among Q h))))

  pub All-Among_select :
      (P : A → Type 0) (q : A → Bool) (xs : List A)
      → ((x : A) → q x ≡ true → Among x xs → P x)
      → All P (select q xs)
  All-Among_select P q xs f =
      All-imp (λ x (e, h). h e) (select q xs)
        (All-select (λ x. q x ≡ true → P x) q xs (All-Among _ xs (λ x among e. f x e among)))

  pub Any-of_select :
      (P : A → Type 0) (q : A → Bool) (xs : List A)
      → Any P (select q xs)
      → Any (λ x. (q x ≡ true) × P x) xs
  unfolding select
  Any-of_select P q [] h = h
  Any-of_select P q (x ∷ xs) h = elim (Bool-cases (q x)) [
    | inr e ↦ let rest : Any P (select q xs) = rw e at h in inr (Any-of_select P q xs rest)
    | inl e ↦
        let found : Any P (x ∷ select q xs) = rw e at h in
        elim found [ inl k ↦ inl (e, k) | inr k ↦ inr (Any-of_select P q xs k) ]
  ]

  pub All-distinct_on :
      (P : A → Type 0) (same : A → A → Bool) (xs : List A) → All P xs → All P (distinct_on same xs)
  unfolding distinct_on
  All-distinct_on P same [] h = tt
  All-distinct_on P same (x ∷ xs) (h, hs) = (
    h,
    All-imp (λ y (e, k). k) _
        (All-select P (λ y. not (same x y)) (distinct_on same xs) (All-distinct_on P same xs hs)),
  )

  pub All-true : (xs : List A) → All (λ x. Unit {0}) xs
  All-true [] = tt
  All-true (x ∷ xs) = (tt, All-true xs)

module _ {A : Type 0} (before : A → A → Bool) where
  pub All-place :
      (P : A → Type 0) (r : A) (xs : List A) → P r → All P xs → All P (place before r xs)
  unfolding place
  All-place P r [] h hs = (h, tt)
  All-place P r (x ∷ xs) h (hx, hs) = elim (Bool-cases (before x r)) [
    | inl e ↦ rw e (hx, All-place P r xs h hs)
    | inr e ↦ rw e (h, (hx, hs))
  ]

  pub All-of_place :
      (P : A → Type 0) (r : A) (xs : List A) → All P (place before r xs) → P r × All P xs
  unfolding place
  All-of_place P r [] (h, hs) = (h, tt)
  All-of_place P r (x ∷ xs) h = elim (Bool-cases (before x r)) [
    | inl e ↦
        let (hx, rest) : All P (x ∷ place before r xs) = rw e at h in
        let (hr, hs) = All-of_place P r xs rest in (hr, (hx, hs))
    | inr e ↦ let k : All P (r ∷ x ∷ xs) = rw e at h in k
  ]

  pub All-of_order_by : (P : A → Type 0) (xs : List A) → All P (order_by before xs) → All P xs
  unfolding order_by
  All-of_order_by P [] h = tt
  All-of_order_by P (x ∷ xs) h =
      let (hx, hs) = All-of_place P x (order_by before xs) h in (hx, All-of_order_by P xs hs)

  pub All-order_by : (P : A → Type 0) (xs : List A) → All P xs → All P (order_by before xs)
  unfolding order_by
  All-order_by P [] h = tt
  All-order_by P (x ∷ xs) (h, hs) = All-place P x (order_by before xs) h (All-order_by P xs hs)

pub All-map :
    {A B : Type 0} (f : A → B) (P : B → Type 0) (xs : List A)
    → All (λ x. P (f x)) xs
    → All P (map f xs)
All-map f P [] h = tt
All-map f P (x ∷ xs) (h, hs) = (h, All-map f P xs hs)

pub All-append :
    {A : Type 0} (P : A → Type 0) (xs ys : List A) → All P xs → All P ys → All P (xs ++ ys)
All-append P [] ys h k = k
All-append P (x ∷ xs) ys (h, hs) k = (h, All-append P xs ys hs k)

pub All-of_map :
    {A B : Type 0} (f : A → B) (P : B → Type 0) (xs : List A)
    → All P (map f xs)
    → All (λ x. P (f x)) xs
All-of_map f P [] h = tt
All-of_map f P (x ∷ xs) (h, hs) = (h, All-of_map f P xs hs)

pub Any-of_map :
    {A B : Type 0} (f : A → B) (P : B → Type 0) (xs : List A)
    → Any P (map f xs)
    → Any (λ x. P (f x)) xs
Any-of_map f P [] h = h
Any-of_map f P (x ∷ xs) (inl h) = inl h
Any-of_map f P (x ∷ xs) (inr h) = inr (Any-of_map f P xs h)

pub Any-imp :
    {A : Type 0} {P Q : A → Type 0} → ((x : A) → P x → Q x) → (xs : List A) → Any P xs → Any Q xs
Any-imp f [] h = absurd h
Any-imp f (x ∷ xs) (inl h) = inl (f x h)
Any-imp f (x ∷ xs) (inr h) = inr (Any-imp f xs h)

pub All-of_append :
    {A : Type 0} (P : A → Type 0) (xs ys : List A) → All P (xs ++ ys) → All P xs × All P ys
All-of_append P [] ys h = (tt, h)
All-of_append P (x ∷ xs) ys (h, hs) =
    let (left, right) = All-of_append P xs ys hs in ((h, left), right)
