-- ===== src/Tests/KnownHosts.antt =====
-- A small known_hosts format that keeps the documented laws.
use nebula_mnemosina.Prelude.{
  ℕ, Bool, true, false, List, [], ◌∷◌, ◌++◌, Option, none, some, ◌==◌, if◌then◌else◌, ◌≡◌, ◌≢◌, inl,
  inr, refl, sym, ap, ◌∙◌, arith, Bool-cases, Option-cases,
}
use nebula_mnemosina.Text.{Text, text_eq, Lacks}
use nebula_mnemosina.Text.Laws.{text_eq_refl}
use nebula_mnemosina.Errors.{Error, key_error, as_key_error, Result, ok, err}
use nebula_mnemosina.SshClient.HostKeys.{Check, KnownHosts}
use nebula_mnemosina.SshClient.HostKeys.Answers.{is_unknown, entry}
use nebula_mnemosina.SshClient.HostKeys.Runs.{ends_line}
use nebula_mnemosina.SshClient.HostKeys.Pinned.{is_refusal, AreKnownHosts}

-- A line is a digit for the key, and the host name.
abbrev digit : Bool → ℕ
digit true = b'1'
digit false = b'0'

abbrev extend : ℕ → List Text → List Text
extend c [] = (c ∷ []) ∷ []
extend c (l ∷ ls) = (c ∷ l) ∷ ls

unfoldable pub extend_line : ℕ → List Text → List Text
extend_line c ls = if c == 10 then [] ∷ ls else extend c ls

unfoldable pub lines : Text → List Text
lines [] = []
lines (c ∷ s) = extend_line c (lines s)

abbrev lookup : Text → List Text → Option ℕ
lookup h [] = none
lookup h ([] ∷ ls) = lookup h ls
lookup h ((c ∷ name) ∷ ls) = if text_eq name h then some c else lookup h ls

abbrev answer : Option ℕ → Bool → Option Error
answer none k = some (key_error 0)
answer (some c) k = if c == digit k then none else some (key_error 1)

abbrev pub check_text : Text → Check Bool
check_text text hostname remote key = answer (lookup hostname (lines text)) key

abbrev pub toy : KnownHosts Bool
toy = record { load = λ text. ok (check_text text); line = λ hostname key. digit key ∷ hostname }

digit_ne : (k : Bool) → digit k ≢ 10
digit_ne true = ground arith
digit_ne false = ground arith

lines_whole : (l : Text) → Lacks 10 l → lines (l ++ 10 ∷ []) ≡ l ∷ []
unfolding lines extend_line
lines_whole [] h = refl
lines_whole (c ∷ l) (h, hs) = ground (arith, lines_whole l hs)

extend_line_some :
    (c : ℕ) (ls : List Text) → (l : Text) × (ms : List Text) × (extend_line c ls ≡ l ∷ ms)
unfolding extend_line
extend_line_some c ls = elim (Bool-cases (c == 10)) [
  | inl e ↦ ([], ls, rw e refl)
  | inr e ↦ rw e (go ls)
]
  where
    go : (ls : List Text) → (l : Text) × (ms : List Text) × (extend c ls ≡ l ∷ ms)
    go [] = (_, _, refl)
    go (l ∷ ls) = (_, _, refl)

extend_line-append :
    (c : ℕ) (l : Text) (ls ms : List Text)
    → extend_line c (l ∷ (ls ++ ms)) ≡ extend_line c (l ∷ ls) ++ ms
unfolding extend_line
extend_line-append c l ls ms = elim (Bool-cases (c == 10)) [ inl e ↦ rw e refl | inr e ↦ rw e refl ]

lines-append : (s t : Text) → ends_line s ≡ true → lines (s ++ t) ≡ lines s ++ lines t
unfolding lines
lines-append [] t h = refl
lines-append (c ∷ []) t h = unfold extend_line in rw h refl
lines-append (c ∷ d ∷ s) t h =
    let (l, ls, e) = extend_line_some d (lines s) in
    ap (extend_line c) (lines-append (d ∷ s) t h ∙ ap (λ ls. ls ++ lines t) e)
    ∙ extend_line-append c l ls (lines t)
    ∙ ap (λ ls. extend_line c ls ++ lines t) (sym e)

lookup-append :
    (h : Text) (ls : List Text) (l : Text)
    → (c : ℕ) → lookup h ls ≡ some c
    → lookup h (ls ++ l ∷ []) ≡ some c
lookup-append h [] l c e = absurd (ground arith)
lookup-append h ([] ∷ ls) l c e = lookup-append h ls l c e
lookup-append h ((d ∷ name) ∷ ls) l c e = ground (arith, lookup-append h ls l c)

lookup_last :
    (h : Text) (ls : List Text) (l : Text)
    → lookup h ls ≡ none
    → lookup h (ls ++ l ∷ []) ≡ lookup h (l ∷ [])
lookup_last h [] l e = refl
lookup_last h ([] ∷ ls) l e = lookup_last h ls l e
lookup_last h ((d ∷ name) ∷ ls) l e = ground (arith, lookup_last h ls l)

unknown_none : (found : Option ℕ) (key : Bool) → is_unknown (answer found key) ≡ true → found ≡ none
unfolding is_unknown as_key_error
unknown_none none key h = refl
unknown_none (some c) key h = elim (Bool-cases (c == digit key)) [
  | inl e ↦ absurd (ground (arith, h, e))
  | inr e ↦ absurd (ground (arith, h, e))
]

known_none : (key : Bool) → is_unknown (answer none key) ≡ true
unfolding is_unknown as_key_error
known_none key = refl

answer_same : (key : Bool) → answer (some (digit key)) key ≡ none
answer_same true = refl
answer_same false = refl

answer_other : (key k : Bool) → k ≢ key → is_refusal (answer (some (digit key)) k) ≡ true
unfolding is_refusal is_unknown as_key_error
answer_other true true ne = absurd (ne refl)
answer_other true false ne = refl
answer_other false true ne = refl
answer_other false false ne = absurd (ne refl)

abbrev check_of : Result (Check Bool) → Check Bool
check_of (ok check) = check
check_of (err e) = λ hostname remote key. none

module _ (text hostname : Text) (key : Bool) (plain : Lacks 10 hostname)
    (whole : ends_line text ≡ true) where
  entry_line : lines (text ++ entry toy hostname key) ≡ lines text ++ (digit key ∷ hostname) ∷ []
  entry_line =
      lines-append text (entry toy hostname key) whole
      ∙ ap (λ ls. lines text ++ ls) (lines_whole (digit key ∷ hostname) (digit_ne key, plain))

  entry_found :
      lookup hostname (lines text) ≡ none
      → lookup hostname (lines (text ++ entry toy hostname key)) ≡ some (digit key)
  entry_found e =
      ap (lookup hostname) entry_line
      ∙ lookup_last hostname (lines text) (digit key ∷ hostname) e
      ∙ (rw (text_eq_refl hostname) refl)

  entry_keeps :
      (h r : Text) (k : Bool)
      → is_unknown (check_text text h r k) ≡ false
      → check_text (text ++ entry toy hostname key) h r k ≡ check_text text h r k
  entry_keeps h r k u = elim (Option-cases (lookup h (lines text))) [
    | inl e ↦ absurd (ground (arith, sym (ap (λ f. is_unknown (answer f k)) e) ∙ u, known_none k))
    | inr (c, e) ↦
        ap (λ f. answer f k)
          (ap (lookup h) entry_line
            ∙ lookup-append h (lines text) (digit key ∷ hostname) c e
            ∙ sym e)
  ]

pub toy_AreKnownHosts : AreKnownHosts toy (Lacks 10)
toy_AreKnownHosts = record {
  learned = λ text check hostname remote key plain whole loaded u.
      let same : check_text text ≡ check = ap check_of loaded in
      let found =
        entry_found text hostname key plain whole
          (unknown_none _ key (ap (λ c. is_unknown (c hostname remote key)) same ∙ u)) in
      (
        check_text (text ++ entry toy hostname key),
        refl,
        ap (λ f. answer f key) found ∙ answer_same key,
        λ r k ne. ap (λ f. is_refusal (answer f k)) found ∙ answer_other key k ne,
        λ h r k known.
            entry_keeps text hostname key plain whole h r k
              (ap (λ c. is_unknown (c h r k)) same ∙ known)
            ∙ ap (λ c. c h r k) same,
      );
}
