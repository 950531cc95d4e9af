-- ===== src/Config/Lighthouses/Spec.antt =====
-- What parseLighthouses accepts, against a description with no loop state.
use nebula_mnemosina.Prelude.{
  true, false, List, [], ◌∷◌, ◌++◌, append_assoc, append-nil, arith, ◌≡◌, ◌≢◌, ◌↔◌, refl, sym, ◌∙◌,
  ap, subst, inl, inr, Bool-cases,
}
use nebula_mnemosina.Text.{Text, is_empty, elem, trim_space}
use nebula_mnemosina.Text.Laws.{text_eq_iff}
use nebula_mnemosina.Errors.{Result, ok, ◌>>=◌, Result-cases}
use nebula_mnemosina.Model.{Lighthouse}
use nebula_mnemosina.Config.Lighthouses.{
  parse_entry, parse_loop, parse_lighthouses, require_targets,
}

-- The values read one by one, blank ones left out, with no regard to their names.
unfoldable pub entries : List Text → Result (List Lighthouse)
entries [] = ok []
entries (v ∷ vs) = elim (is_empty (trim_space v)) [
  | true ↦ entries vs
  | false ↦ do l ← parse_entry (trim_space v); ls ← entries vs; ok (l ∷ ls)
]

abbrev pub LacksName : Text → List Lighthouse → Type 0
LacksName n [] = Unit
LacksName n (l ∷ ls) = (l.name ≢ n) × LacksName n ls

-- No two lighthouses share a name.
abbrev pub NodupNames : List Lighthouse → Type 0
NodupNames [] = Unit
NodupNames (l ∷ ls) = LacksName l.name ls × NodupNames ls

-- No name is in `seen`.
abbrev AllFresh : List Text → List Lighthouse → Type 0
AllFresh seen [] = Unit
AllFresh seen (l ∷ ls) = (elem l.name seen ≡ false) × AllFresh seen ls

AllFresh-cons :
    (n : Text) (seen : List Text) (ls : List Lighthouse)
    → LacksName n ls
    → AllFresh seen ls
    → AllFresh (n ∷ seen) ls
AllFresh-cons n seen [] _ _ = tt
AllFresh-cons n seen (l ∷ ls) (hl, hls) (fl, fls) =
    (unfold elem in ground (arith, text_eq_iff n l.name), AllFresh-cons n seen ls hls fls)

AllFresh-uncons :
    (n : Text) (seen : List Text) (ls : List Lighthouse)
    → AllFresh (n ∷ seen) ls
    → LacksName n ls × AllFresh seen ls
AllFresh-uncons n seen [] _ = (tt, tt)
AllFresh-uncons n seen (l ∷ ls) (fl, fls) =
    let (hls, sls) = AllFresh-uncons n seen ls fls in
    ((unfold elem in ground (arith, text_eq_iff n l.name), hls), (unfold elem in ground arith, sls))

parse_loop_complete :
    (vs : List Text) (seen : List Text) (ts ls : List Lighthouse)
    → entries vs ≡ ok ls
    → AllFresh seen ls
    → NodupNames ls
    → parse_loop vs seen ts ≡ ok (ts ++ ls)
unfolding parse_loop entries
parse_loop_complete [] seen ts ls h f u = ground (arith, append-nil ts)
parse_loop_complete (v ∷ vs) seen ts ls h f u = elim (Bool-cases (is_empty (trim_space v))) [
  | inl blank ↦ ground (arith, parse_loop_complete vs seen ts ls)
  | inr full ↦ elim (Result-cases (parse_entry (trim_space v))) [
    | inr (e, p) ↦ ground arith
    | inl (l, p) ↦ elim (Result-cases (entries vs)) [
      | inr (e, q) ↦ ground arith
      | inl (rest, q) ↦
          subst
            (λ xs. AllFresh seen xs → NodupNames xs → parse_loop (v ∷ vs) seen ts ≡ ok (ts ++ xs))
            (let e : l ∷ rest ≡ ls = ground arith in e)
            (λ g w. ground (
              arith,
              parse_loop_complete vs (l.name ∷ seen) (ts ++ l ∷ []) rest q
                  (AllFresh-cons l.name seen rest w.0 g.1) w.1,
              append_assoc ts (l ∷ []) rest,
            ))
            f u
    ]
  ]
]

parse_loop_sound :
    (vs : List Text) (seen : List Text) (ts out : List Lighthouse)
    → parse_loop vs seen ts ≡ ok out
    → (ls : List Lighthouse) × (out ≡ ts ++ ls)
      × (entries vs ≡ ok ls)
      × AllFresh seen ls
      × NodupNames ls
unfolding parse_loop entries
parse_loop_sound [] seen ts out h = ([], ground (arith, append-nil ts), refl, tt, tt)
parse_loop_sound (v ∷ vs) seen ts out h = elim (Bool-cases (is_empty (trim_space v))) [
  | inl blank ↦
      let (ls, p, q, f, u) = parse_loop_sound vs seen ts out (ground arith) in
      (ls, p, ground arith, f, u)
  | inr full ↦ elim (Result-cases (parse_entry (trim_space v))) [
    | inr (e, p) ↦ absurd (ground arith)
    | inl (l, p) ↦ elim (Bool-cases (elem l.name seen)) [
      | inl dup ↦ absurd (ground arith)
      | inr fresh ↦
          let (ls, p', q, f, u) =
            parse_loop_sound vs (l.name ∷ seen) (ts ++ l ∷ []) out (ground arith) in
          let (hn, hf) = AllFresh-uncons l.name seen ls f in
          (l ∷ ls, p' ∙ append_assoc ts (l ∷ []) ls, ground arith, (fresh, hf), (hn, u))
    ]
  ]
]

AllFresh-nil : (ls : List Lighthouse) → AllFresh [] ls
AllFresh-nil [] = tt
AllFresh-nil (l ∷ ls) = (unfold elem in refl, AllFresh-nil ls)

require_targets_ok :
    (out ls : List Lighthouse) → require_targets out ≡ ok ls → (out ≡ ls) × (ls ≢ [])
unfolding require_targets
require_targets_ok [] ls h = cc
require_targets_ok (l ∷ out) ls h = (ground arith, λ e. ground arith)

require_targets_keeps : (ls : List Lighthouse) → ls ≢ [] → require_targets ls ≡ ok ls
unfolding require_targets
require_targets_keeps [] n = absurd (n refl)
require_targets_keeps (l ∷ ls) n = refl

parse_lighthouses_sound :
    (vs : List Text) (ls : List Lighthouse)
    → parse_lighthouses vs ≡ ok ls
    → (entries vs ≡ ok ls) × (ls ≢ []) × NodupNames ls
unfolding parse_lighthouses
parse_lighthouses_sound vs ls h = elim (Result-cases (parse_loop vs [] [])) [
  | inr (e, p) ↦ absurd (ground arith)
  | inl (out, p) ↦
      let (found, e, q, f, u) = parse_loop_sound vs [] [] out p in
      let (same, n) = require_targets_ok out ls (ground arith) in
      let e' : found ≡ ls = sym e ∙ same in (q ∙ ap ok e', n, subst NodupNames e' u)
]

parse_lighthouses_complete :
    (vs : List Text) (ls : List Lighthouse)
    → entries vs ≡ ok ls
    → ls ≢ []
    → NodupNames ls
    → parse_lighthouses vs ≡ ok ls
unfolding parse_lighthouses
parse_lighthouses_complete vs ls h n u =
    rw (parse_loop_complete vs [] [] ls h (AllFresh-nil ls) u) (require_targets_keeps ls n)

-- Accepted are exactly the lists of values that read one by one to at least one lighthouse, with
-- no name twice; and the result is then those lighthouses, in order.
pub parse_lighthouses_iff :
    (vs : List Text) (ls : List Lighthouse)
    → (parse_lighthouses vs ≡ ok ls) ↔ ((entries vs ≡ ok ls) × (ls ≢ []) × NodupNames ls)
parse_lighthouses_iff vs ls =
    (parse_lighthouses_sound vs ls, λ (h, n, u). parse_lighthouses_complete vs ls h n u)
