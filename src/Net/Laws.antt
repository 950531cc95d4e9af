-- ===== src/Net/Laws.antt =====
-- SplitHostPort undoes JoinHostPort on hosts and ports that hold no stray delimiter.
use nebula_mnemosina.Prelude.{
  ◌≡◌, refl, ◌∙◌, append_assoc, inl, inr, [], ◌∷◌, ◌++◌, some, arith, Bool-cases,
}
use nebula_mnemosina.Text.{Text, has_byte, cut_last, Lacks}
use nebula_mnemosina.Text.Laws.{
  cut-append, cut_last-append, has_byte-Lacks, Lacks-of_has_byte, Lacks-append,
}
use nebula_mnemosina.Errors.{ok}
use nebula_mnemosina.Net.{
  colon, open_bracket, close_bracket, split_host_port, join_host_port, split_at, split_plain,
  split_bracketed, split_closed, check_brackets,
}

-- A host holds no bracket; it may hold colons, as an IPv6 address does.
abbrev pub IsHost : Text → Type 0
IsHost h = Lacks open_bracket h × Lacks close_bracket h

-- A port holds no delimiter.
abbrev pub IsPort : Text → Type 0
IsPort p = Lacks colon p × Lacks open_bracket p × Lacks close_bracket p

split_at_plain :
    (s : Text) (found : Text × Text) → Lacks open_bracket s → split_at s found ≡ split_plain s found
unfolding split_at
split_at_plain [] found lacks = refl
split_at_plain (c ∷ s) found (hc, hs) = ground arith

module _ (h p : Text) (host : IsHost h) (port : IsPort p) where
  plain_open : Lacks open_bracket (h ++ colon ∷ p)
  plain_open = Lacks-append open_bracket h (colon ∷ p) host.0 (ground arith)

  plain_close : Lacks close_bracket (h ++ colon ∷ p)
  plain_close = Lacks-append close_bracket h (colon ∷ p) host.1 (ground arith)

  split_plain_lem : Lacks colon h → split_plain (h ++ colon ∷ p) (h, p) ≡ ok (h, p)
  unfolding split_plain check_brackets
  split_plain_lem k = rw (
    has_byte-Lacks colon h k,
    has_byte-Lacks open_bracket _ plain_open,
    has_byte-Lacks close_bracket _ plain_close,
  )

  split_plain_host : Lacks colon h → split_host_port (h ++ colon ∷ p) ≡ ok (h, p)
  unfolding split_host_port
  split_plain_host k =
      rw (cut_last-append colon h p port.0, split_host_port)
        (split_at_plain _ _ plain_open ∙ split_plain_lem k)

  last_colon :
      cut_last colon (open_bracket ∷ (h ++ close_bracket ∷ colon ∷ p))
      ≡ some (open_bracket ∷ (h ++ close_bracket ∷ []), p)
  last_colon =
      rw (append_assoc h (close_bracket ∷ []) (colon ∷ p)) at
        (cut_last-append colon (open_bracket ∷ (h ++ close_bracket ∷ [])) p port.0)

  closed_open : Lacks open_bracket (h ++ close_bracket ∷ colon ∷ p)
  closed_open = Lacks-append open_bracket h (close_bracket ∷ colon ∷ p) host.0 (ground arith)

  split_bracketed_lem :
      (addr : Text) → split_bracketed addr (h ++ close_bracket ∷ colon ∷ p) ≡ ok (h, p)
  unfolding split_bracketed split_closed check_brackets
  split_bracketed_lem addr =
      rw (cut-append close_bracket h (colon ∷ p) host.1, split_bracketed)
        (ground (
          arith,
          has_byte-Lacks colon p port.0,
          has_byte-Lacks open_bracket _ closed_open,
          has_byte-Lacks close_bracket (colon ∷ p) (ground arith),
        ))

  split_bracketed_host :
      split_host_port (open_bracket ∷ (h ++ close_bracket ∷ colon ∷ p)) ≡ ok (h, p)
  unfolding split_host_port
  split_bracketed_host =
      rw (last_colon, split_host_port)
        (split_bracketed_lem (open_bracket ∷ (h ++ close_bracket ∷ colon ∷ p)))

-- Splitting a joined address gives the host and the port back.
pub split_host_port-join_host_port :
    (h p : Text) → IsHost h → IsPort p → split_host_port (join_host_port h p) ≡ ok (h, p)
unfolding join_host_port
split_host_port-join_host_port h p host port = elim (Bool-cases (has_byte colon h)) [
  | inl e ↦ rw e (split_bracketed_host h p host port)
  | inr e ↦ rw e (split_plain_host h p host port (Lacks-of_has_byte colon h e))
]
