-- ===== src/Net/Sound.antt =====
-- What an address that SplitHostPort accepts is made of.
use nebula_mnemosina.Prelude.{
  ◌≡◌, subst, inl, inr, [], ◌∷◌, ◌++◌, arith, ◌==◌, Bool-cases, Option-cases,
}
use nebula_mnemosina.Text.{Text, has_byte, cut, cut_last, Lacks}
use nebula_mnemosina.Text.Laws.{
  cut_sound, cut_last_sound, Lacks-of_has_byte, Lacks-append_left, Lacks-append_right,
}
use nebula_mnemosina.Errors.{ok}
use nebula_mnemosina.Net.{
  colon, open_bracket, close_bracket, split_host_port, split_at, split_plain, split_bracketed,
  split_closed, check_brackets,
}
use nebula_mnemosina.Net.Laws.{IsHost, IsPort}

check_brackets_sound :
    (addr opens closes h p : Text) (found : Text × Text)
    → check_brackets addr opens closes found ≡ ok (h, p)
    → (found ≡ (h, p)) × Lacks open_bracket opens × Lacks close_bracket closes
unfolding check_brackets
check_brackets_sound addr opens closes h p found e =
    ground (arith, Lacks-of_has_byte open_bracket opens, Lacks-of_has_byte close_bracket closes)

split_closed_sound :
    (addr host after h p : Text)
    → Lacks close_bracket host
    → split_closed addr (host ++ close_bracket ∷ after) host after ≡ ok (h, p)
    → IsHost h × IsPort p
unfolding split_closed
split_closed_sound addr host [] h p lacks e = cc
split_closed_sound addr host (c ∷ port) h p lacks e = elim (Bool-cases (c == colon)) [
  | inr k ↦ absurd (ground arith)
  | inl k ↦ elim (Bool-cases (has_byte colon port)) [
    | inl m ↦ absurd (ground arith)
    | inr m ↦
        let (same, opens, closes) =
          check_brackets_sound addr (host ++ close_bracket ∷ c ∷ port) (c ∷ port) h p (host, port)
            (ground arith) in
        let parts = Lacks-append_right open_bracket host (close_bracket ∷ c ∷ port) opens in
        subst (λ (x : Text × Text). IsHost x.0 × IsPort x.1) same
          (
            (Lacks-append_left open_bracket host (close_bracket ∷ c ∷ port) opens, lacks),
            (Lacks-of_has_byte colon port m, parts.1.1, closes.1),
          )
  ]
]

split_bracketed_sound :
    (addr rest h p : Text) → split_bracketed addr rest ≡ ok (h, p) → IsHost h × IsPort p
unfolding split_bracketed
split_bracketed_sound addr rest h p e = elim (Option-cases (cut close_bracket rest)) [
  | inl k ↦ absurd (ground arith)
  | inr ((host, after), k) ↦
      let (same, lacks) = cut_sound close_bracket rest host after k in
      split_closed_sound addr host after h p lacks
        (subst (λ r. split_closed addr r host after ≡ ok (h, p)) same (ground arith))
]

split_plain_sound :
    (host port h p : Text)
    → Lacks colon port
    → split_plain (host ++ colon ∷ port) (host, port) ≡ ok (h, p)
    → IsHost h × IsPort p
unfolding split_plain
split_plain_sound host port h p lacks e = elim (Bool-cases (has_byte colon host)) [
  | inl k ↦ absurd (ground arith)
  | inr k ↦
      let addr = host ++ colon ∷ port in
      let (same, opens, closes) =
        check_brackets_sound addr addr addr h p (host, port) (ground arith) in
      subst (λ (x : Text × Text). IsHost x.0 × IsPort x.1) same
        (
          (
            Lacks-append_left open_bracket host (colon ∷ port) opens,
            Lacks-append_left close_bracket host (colon ∷ port) closes,
          ),
          (
            lacks,
            (Lacks-append_right open_bracket host (colon ∷ port) opens).1,
            (Lacks-append_right close_bracket host (colon ∷ port) closes).1,
          ),
        )
]

split_at_sound :
    (addr host port h p : Text)
    → addr ≡ host ++ colon ∷ port
    → Lacks colon port
    → split_at addr (host, port) ≡ ok (h, p)
    → IsHost h × IsPort p
unfolding split_at
split_at_sound [] host port h p same lacks e =
    split_plain_sound host port h p lacks
      (subst (λ a. split_plain a (host, port) ≡ ok (h, p)) same e)
split_at_sound (c ∷ rest) host port h p same lacks e = elim (Bool-cases (c == open_bracket)) [
  | inl k ↦ split_bracketed_sound (c ∷ rest) rest h p (ground arith)
  | inr k ↦
      split_plain_sound host port h p lacks
        (subst (λ a. split_plain a (host, port) ≡ ok (h, p)) same (ground arith))
]

-- Of an address that is accepted, the host holds no bracket, and the port no colon and no bracket.
pub split_host_port_sound :
    (addr h p : Text) → split_host_port addr ≡ ok (h, p) → IsHost h × IsPort p
unfolding split_host_port
split_host_port_sound addr h p e = elim (Option-cases (cut_last colon addr)) [
  | inl k ↦ absurd (ground arith)
  | inr ((host, port), k) ↦
      let (same, lacks) = cut_last_sound colon addr host port k in
      split_at_sound addr host port h p same lacks (ground arith)
]
