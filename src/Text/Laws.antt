-- ===== src/Text/Laws.antt =====
-- Laws of the string operations: what a cut finds, and what a test answers.
use nebula_mnemosina.Prelude.{
  ℕ, ◌≡◌, refl, ◌↔◌, inl, inr, true, false, [], ◌∷◌, ◌++◌, ◌+◌, ◌<◌, none, some, arith,
  Option-cases,
}
use nebula_mnemosina.Prelude.Eq.{Eq}
use nebula_mnemosina.Text.{Text, text_eq, has_byte, count_byte, cut, cut_last, Lacks}

pub text_eq_iff : (s t : Text) → (text_eq s t ≡ true) ↔ (s ≡ t)
unfolding text_eq
text_eq_iff [] [] = ground arith
text_eq_iff [] (d ∷ t) = ground arith
text_eq_iff (c ∷ s) [] = ground arith
text_eq_iff (c ∷ s) (d ∷ t) = ground (arith, text_eq_iff s t)

-- As an instance of the interface.
instance abbrev pub texts_eq : Eq Text
texts_eq = record { beq = text_eq; beq_iff = text_eq_iff }

pub text_eq_refl : (s : Text) → text_eq s s ≡ true
text_eq_refl s = (text_eq_iff s s).1 refl

pub Lacks-append : (b : ℕ) (s t : Text) → Lacks b s → Lacks b t → Lacks b (s ++ t)
Lacks-append b [] t hs ht = ht
Lacks-append b (c ∷ s) t (hc, hs) ht = (hc, Lacks-append b s t hs ht)

pub Lacks-append_left : (b : ℕ) (s t : Text) → Lacks b (s ++ t) → Lacks b s
Lacks-append_left b [] t h = tt
Lacks-append_left b (c ∷ s) t (hc, hs) = (hc, Lacks-append_left b s t hs)

pub Lacks-append_right : (b : ℕ) (s t : Text) → Lacks b (s ++ t) → Lacks b t
Lacks-append_right b [] t h = h
Lacks-append_right b (c ∷ s) t (hc, hs) = Lacks-append_right b s t hs

pub has_byte-Lacks : (b : ℕ) (s : Text) → Lacks b s → has_byte b s ≡ false
unfolding has_byte
has_byte-Lacks b [] h = refl
has_byte-Lacks b (c ∷ s) (hc, hs) = ground (arith, has_byte-Lacks b s hs)

pub Lacks-of_has_byte : (b : ℕ) (s : Text) → has_byte b s ≡ false → Lacks b s
unfolding has_byte
Lacks-of_has_byte b [] h = tt
Lacks-of_has_byte b (c ∷ s) h = ground (arith, Lacks-of_has_byte b s)

pub has_byte-append_cons : (b : ℕ) (s t : Text) → has_byte b (s ++ b ∷ t) ≡ true
unfolding has_byte
has_byte-append_cons b [] t = ground arith
has_byte-append_cons b (c ∷ s) t = ground (arith, has_byte-append_cons b s t)

-- A cut of a text that starts with a part free of the separator finds that part.
pub cut-append : (b : ℕ) (s t : Text) → Lacks b s → cut b (s ++ b ∷ t) ≡ some (s, t)
unfolding cut
cut-append b [] t h = ground arith
cut-append b (c ∷ s) t (hc, hs) = ground (arith, cut-append b s t hs)

pub cut_absent : (b : ℕ) (s : Text) → Lacks b s → cut b s ≡ none
unfolding cut
cut_absent b [] h = refl
cut_absent b (c ∷ s) (hc, hs) = ground (arith, cut_absent b s hs)

-- What a successful cut says of the text.
pub cut_sound : (b : ℕ) (s x y : Text) → cut b s ≡ some (x, y) → (s ≡ x ++ b ∷ y) × Lacks b x
unfolding cut
cut_sound b [] x y h = cc
cut_sound b (c ∷ s) x y h = elim (Option-cases (cut b s)) [
  | inl e ↦ ground (arith, e)
  | inr (p, e) ↦ ground (arith, e, cut_sound b s p.0 p.1 e)
]

pub cut-none : (b : ℕ) (s : Text) → cut b s ≡ none → Lacks b s
unfolding cut
cut-none b [] h = tt
cut-none b (c ∷ s) h = ground (arith, cut-none b s)

pub cut_last_absent : (b : ℕ) (s : Text) → Lacks b s → cut_last b s ≡ none
unfolding cut_last
cut_last_absent b [] h = refl
cut_last_absent b (c ∷ s) (hc, hs) = ground (arith, cut_last_absent b s hs)

pub cut_last-none : (b : ℕ) (s : Text) → cut_last b s ≡ none → Lacks b s
unfolding cut_last
cut_last-none b [] h = tt
cut_last-none b (c ∷ s) h = elim (Option-cases (cut_last b s)) [
  | inl e ↦ ground (arith, e, cut_last-none b s e)
  | inr (p, e) ↦ absurd (ground (arith, e))
]

pub cut_last-append : (b : ℕ) (s t : Text) → Lacks b t → cut_last b (s ++ b ∷ t) ≡ some (s, t)
unfolding cut_last
cut_last-append b [] t h = ground (arith, cut_last_absent b t h)
cut_last-append b (c ∷ s) t h = ground (arith, cut_last-append b s t h)

pub count_byte-Lacks : (b : ℕ) (s : Text) → Lacks b s → count_byte b s ≡ 0
unfolding count_byte
count_byte-Lacks b [] h = refl
count_byte-Lacks b (c ∷ s) (hc, hs) = ground (arith, count_byte-Lacks b s hs)

pub cut_last_sound :
    (b : ℕ) (s x y : Text) → cut_last b s ≡ some (x, y) → (s ≡ x ++ b ∷ y) × Lacks b y
unfolding cut_last
cut_last_sound b [] x y h = cc
cut_last_sound b (c ∷ s) x y h = elim (Option-cases (cut_last b s)) [
  | inl e ↦ ground (arith, e, cut_last-none b s)
  | inr (p, e) ↦ ground (arith, e, cut_last_sound b s p.0 p.1 e)
]

pub count_byte-append :
    (b : ℕ) (s t : Text) → count_byte b (s ++ t) ≡ count_byte b s + count_byte b t
unfolding count_byte
count_byte-append b [] t = omega arith
count_byte-append b (c ∷ s) t = omega (arith, count_byte-append b s t)

pub count_byte-has_byte : (b : ℕ) (s : Text) → has_byte b s ≡ true → 0 < count_byte b s
unfolding count_byte has_byte
count_byte-has_byte b [] h = cc
count_byte-has_byte b (c ∷ s) h = ground (arith, count_byte-has_byte b s)
