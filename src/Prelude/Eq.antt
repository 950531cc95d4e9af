-- ===== src/Prelude/Eq.antt =====
-- Types with a decided equality, as an interface.
use nebula_mnemosina.Prelude.{
  Bool, true, false, ◌&&◌, Option, none, some, ◌==◌, ◌≡◌, ◌↔◌, inl, inr, refl, sym, ◌∙◌, arith,
  Bool-cases,
}
use nebula_mnemosina.Prelude.Int.{ℤ, pos, negsuc}

pub record Eq (K : Type 0) : Type 0 where
  pub beq : K → K → Bool
  pub beq_iff : (a b : K) → (beq a b ≡ true) ↔ (a ≡ b)

module _ {K : Type 0} ⦃e : Eq K⦄ where
  pub beq_refl : (a : K) → e.beq a a ≡ true
  beq_refl a = (e.beq_iff a a).1 refl

  pub beq_comm : (a b : K) → e.beq a b ≡ e.beq b a
  beq_comm a b = elim (Bool-cases (e.beq a b)) [
    | inl p ↦ p ∙ sym ((e.beq_iff b a).1 (sym ((e.beq_iff a b).0 p)))
    | inr p ↦ elim (Bool-cases (e.beq b a)) [
      | inl q ↦ absurd (ground (arith, p, (e.beq_iff a b).1 (sym ((e.beq_iff b a).0 q))))
      | inr q ↦ p ∙ sym q
    ]
  ]

abbrev pub beq_ℤ : ℤ → ℤ → Bool
beq_ℤ (pos a) (pos b) = a == b
beq_ℤ (pos a) (negsuc b) = false
beq_ℤ (negsuc a) (pos b) = false
beq_ℤ (negsuc a) (negsuc b) = a == b

pub beq_ℤ_iff : (a b : ℤ) → (beq_ℤ a b ≡ true) ↔ (a ≡ b)
beq_ℤ_iff (pos a) (pos b) = ground arith
beq_ℤ_iff (pos a) (negsuc b) = ground arith
beq_ℤ_iff (negsuc a) (pos b) = ground arith
beq_ℤ_iff (negsuc a) (negsuc b) = ground arith

instance abbrev pub int_eq : Eq ℤ
int_eq = record { beq = beq_ℤ; beq_iff = beq_ℤ_iff }

module _ {K : Type 0} ⦃e : Eq K⦄ where
  -- As PARTITION BY compares: NULL is like NULL.
  abbrev pub beq_option : Option K → Option K → Bool
  beq_option none none = true
  beq_option none (some b) = false
  beq_option (some a) none = false
  beq_option (some a) (some b) = e.beq a b

  pub beq_option_iff : (a b : Option K) → (beq_option a b ≡ true) ↔ (a ≡ b)
  beq_option_iff none none = ground arith
  beq_option_iff none (some b) = ground arith
  beq_option_iff (some a) none = ground arith
  beq_option_iff (some a) (some b) = ground (arith, e.beq_iff a b)

  instance abbrev pub option_eq : Eq (Option K)
  option_eq = record { beq = beq_option; beq_iff = beq_option_iff }

module _ {K L : Type 0} ⦃e : Eq K⦄ ⦃f : Eq L⦄ where
  abbrev pub beq_pair : K × L → K × L → Bool
  beq_pair a b = e.beq a.0 b.0 && f.beq a.1 b.1

  pub beq_pair_iff : (a b : K × L) → (beq_pair a b ≡ true) ↔ (a ≡ b)
  beq_pair_iff (a, x) (b, y) = ground (arith, e.beq_iff a b, f.beq_iff x y)

  instance abbrev pub pair_eq : Eq (K × L)
  pair_eq = record { beq = beq_pair; beq_iff = beq_pair_iff }
