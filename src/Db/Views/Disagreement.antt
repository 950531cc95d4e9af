-- ===== src/Db/Views/Disagreement.antt =====
-- mnemo_lighthouse_disagreement of db/migrations/views/001_grafana_views.sql.
use nebula_mnemosina.Prelude.{
  ℕ, zero, suc, ◌≤◌, ◌<◌, Bool, true, false, ◌&&◌, not, List, [], ◌∷◌, map, length, ltb, ◌≡◌, ◌↔◌,
  ◌⊎◌, inl, inr, refl, sym, ◌∙◌, ap, arith, Bool-cases,
}
use nebula_mnemosina.Text.{Text, text_eq}
use nebula_mnemosina.Text.Laws.{texts_eq, text_eq_iff}
use nebula_mnemosina.Db.Select.{select, count_if, distinct_on, group_by}
use nebula_mnemosina.Db.Select.All.{All, All-imp, All-map, All-of_map}
use nebula_mnemosina.Db.Select.Keys.{count_if-select, length-select}
use nebula_mnemosina.Db.Select.Distinct.{
  at_most_one_pos, count_never, All-distinct_on, All-of_distinct_on,
}
use nebula_mnemosina.Db.Select.Group.{count_if-map, group_by-rows, group_by-once}
use nebula_mnemosina.Db.Views.{Functions, MnemoCurrentLighthouseAddrmap}
use nebula_mnemosina.Db.Views.Queries.{
  count_distinct, learned_text, disagrees, disagreement_row, lighthouse_disagreement,
}

-- All rows have one value.
abbrev pub Agree : {A : Type 0} → (A → Text) → List A → Type 0
Agree g rows = All (λ a. All (λ b. g a ≡ g b) rows) rows

-- A number is zero or not.
Nat-cases : (n : ℕ) → (n ≡ 0) ⊎ (0 < n)
Nat-cases zero = inl refl
Nat-cases (suc n) = inr (omega arith)

All-none : {A : Type 0} (P : A → Type 0) (xs : List A) → length xs ≡ 0 → All P xs
All-none P [] h = tt
All-none P (x ∷ xs) h = absurd (omega arith)

none_other :
    (x : Text) (xs : List Text) → All (λ z. x ≡ z) xs → count_if (λ z. not (text_eq x z)) xs ≡ 0
unfolding count_if
none_other x [] h = refl
none_other x (z ∷ zs) (h, hs) =
    let same = (text_eq_iff x z).1 h in ground (arith, same, none_other x zs hs)

one_value : (xs : List Text) → count_distinct xs ≤ 1 → Agree (λ x. x) xs
unfolding distinct_on
one_value [] h = tt
one_value (x ∷ xs) h =
    let others = select (λ y. not (text_eq x y)) (distinct_on text_eq xs) in
    let firsts : All (λ z. x ≡ z) (x ∷ others) = (refl, All-none _ others (omega arith)) in
    let all : All (λ z. x ≡ z) (x ∷ xs) =
      All-of_distinct_on text_eq (λ z. x ≡ z) (λ a b e u. u ∙ (text_eq_iff a b).0 e) (x ∷ xs)
        firsts in
    All-imp (λ a p. All-imp (λ b q. sym p ∙ q) (x ∷ xs) all) (x ∷ xs) all

at_most_one_value : (xs : List Text) → Agree (λ x. x) xs → count_distinct xs ≤ 1
unfolding distinct_on
at_most_one_value [] h = omega arith
at_most_one_value (x ∷ xs) (h, hs) =
    let gone = none_other x (distinct_on text_eq xs) (All-distinct_on text_eq _ xs h.1) in
    omega (arith, length-select (λ y. not (text_eq x y)) (distinct_on text_eq xs), gone)

-- A column has more than one value exactly if some rows differ in it.
count_distinct_iff :
    {A : Type 0} (g : A → Text) (rows : List A)
    → (ltb 1 (count_distinct (map g rows)) ≡ false) ↔ Agree g rows
count_distinct_iff g rows = (
  λ h.
      All-imp (λ a k. All-of_map g _ rows k) rows
        (All-of_map g _ rows (one_value (map g rows) (ground arith))),
  λ h.
      let few =
        at_most_one_value (map g rows)
          (All-map g _ rows (All-imp (λ a k. All-map g _ rows k) rows h)) in
      ground (arith, few),
)

count_if-All :
    {A : Type 0} (p q : A → Bool) (rs : List A)
    → All (λ r. p r ≡ q r) rs
    → count_if p rs ≡ count_if q rs
unfolding count_if
count_if-All p q [] h = refl
count_if-All p q (r ∷ rs) (h, hs) = ground (arith, h, count_if-All p q rs hs)

-- The current address maps of an address.
abbrev pub rows_of : Text → List MnemoCurrentLighthouseAddrmap → List MnemoCurrentLighthouseAddrmap
rows_of v rows = select (λ a. text_eq a.vpn_addr v) rows

module _ {F : Type 0} (f : Functions F) (rows : List MnemoCurrentLighthouseAddrmap) (v : Text) where
  group_test :
      (k : Text) (group : List MnemoCurrentLighthouseAddrmap)
      → group ≡ rows_of k rows
      → (disagrees f group && text_eq k v) ≡ (disagrees f (rows_of v rows) && text_eq k v)
  group_test k group e = elim (Bool-cases (text_eq k v)) [
    | inl same ↦
        let eq = e ∙ ap (λ k. rows_of k rows) ((text_eq_iff k v).0 same) in rw (same, eq) refl
    | inr other ↦ ground (arith, other)
  ]

  listed_count :
      count_if (λ d. text_eq d.vpn_addr v) (lighthouse_disagreement f rows)
      ≡ count_if
          (λ g. disagrees f (rows_of v rows) && text_eq g.0 v)
          (group_by (λ a. a.vpn_addr) rows)
  unfolding lighthouse_disagreement
  listed_count =
      let groups = group_by (λ a. a.vpn_addr) rows in
      count_if-map (disagreement_row f) (λ d. text_eq d.vpn_addr v) _
      ∙ count_if-select (λ g. text_eq g.0 v) (λ g. disagrees f g.1) groups
      ∙ count_if-All _ _ groups (
          All-imp (λ g (same, some_row). group_test g.0 g.1 same) groups
            (group_by-rows (λ a. a.vpn_addr) rows))

  listed_if :
      (b : Bool)
      → disagrees f (rows_of v rows) ≡ b
      → count_if (λ d. text_eq d.vpn_addr v) (lighthouse_disagreement f rows)
        ≡ count_if (λ g. b && text_eq g.0 v) (group_by (λ a. a.vpn_addr) rows)
  listed_if b e =
      listed_count
      ∙ ap (λ b. count_if (λ g. b && text_eq g.0 v) (group_by (λ a. a.vpn_addr) rows)) e

  -- What disagrees is no empty group.
  disagrees_some :
      disagrees f (rows_of v rows) ≡ true → 0 < count_if (λ a. text_eq a.vpn_addr v) rows
  unfolding disagrees
  disagrees_some h =
      let none_left = λ (e : length (rows_of v rows) ≡ 0).
        (count_distinct_iff (λ a. a.lighthouse_name) (rows_of v rows)).1
          (All-none _ (rows_of v rows) e) in
      let size = length-select (λ a. text_eq a.vpn_addr v) rows in
      elim (Nat-cases (length (rows_of v rows))) [
        | inl e ↦ absurd (ground (arith, h, none_left e))
        | inr e ↦ omega (arith, e, size)
      ]

  disagrees_iff :
      (disagrees f (rows_of v rows) ≡ false)
      ↔ (Agree (λ a. a.lighthouse_name) (rows_of v rows) ⊎ Agree (learned_text f) (rows_of v rows))
  unfolding disagrees
  disagrees_iff =
      let names = count_distinct_iff (λ a. a.lighthouse_name) (rows_of v rows) in
      let sets = count_distinct_iff (learned_text f) (rows_of v rows) in
      let more = ltb 1 (count_distinct (map (λ a. a.lighthouse_name) (rows_of v rows))) in
      (
        λ h. elim (Bool-cases more) [
          | inl t ↦ inr (sets.0 (ground (arith, h, t)))
          | inr n ↦ inl (names.0 n)
        ],
        λ h. elim h [
          | inl a ↦ let n = names.1 a in ground (arith, n)
          | inr a ↦ let n = sets.1 a in ground (arith, n)
        ],
      )

  -- An address is listed as a disagreement, and then once, unless all its current address maps are of
  -- one lighthouse or all have one text for the learned addresses; then it is not listed.
  pub lighthouse_disagreement_iff :
      let listed = count_if (λ d. text_eq d.vpn_addr v) (lighthouse_disagreement f rows) in
      ((listed ≡ 0) ⊎ (listed ≡ 1))
      × ((listed ≡ 0) ↔ (
          Agree (λ a. a.lighthouse_name) (rows_of v rows)
          ⊎ Agree (learned_text f) (rows_of v rows)))
  lighthouse_disagreement_iff = elim (Bool-cases (disagrees f (rows_of v rows))) [
    | inl t ↦
        let once : count_if (λ d. text_eq d.vpn_addr v) (lighthouse_disagreement f rows) ≡ 1 =
          listed_if true t
          ∙ group_by-once (λ a. a.vpn_addr) v rows
          ∙ at_most_one_pos _ (disagrees_some t) in
        (
          inr once,
          (λ none. absurd (omega arith), λ same. absurd (ground (arith, disagrees_iff.1 same, t))),
        )
    | inr n ↦
        let never : count_if (λ d. text_eq d.vpn_addr v) (lighthouse_disagreement f rows) ≡ 0 =
          listed_if false n ∙ count_never (group_by (λ a. a.vpn_addr) rows) in
        (inl never, (λ none. disagrees_iff.0 n, λ same. never))
  ]
