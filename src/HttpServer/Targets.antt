-- ===== src/HttpServer/Targets.antt =====
-- The targets of all groups of internal/httpserver/prometheus_sd.go, and when they are distinct.
use nebula_mnemosina.Prelude.{
  false, List, [], ◌∷◌, ◌++◌, append_assoc, ◌≡◌, ◌≢◌, refl, sym, arith, inl, inr, Bool-cases,
}
use nebula_mnemosina.Text.{Text, is_empty, elem}
use nebula_mnemosina.Text.Laws.{text_eq_iff}
use nebula_mnemosina.Errors.{ok}
use nebula_mnemosina.Net.{split_host_port}
use nebula_mnemosina.Model.{Lighthouse, PresentPeer}
use nebula_mnemosina.Config.{PrometheusSdConfig}
use nebula_mnemosina.HttpServer.{
  TargetGroup, Groups, add_group, add_peer, add_peers, add_lighthouse, add_lighthouses,
  prometheus_target_groups,
}

abbrev pub all_targets : List TargetGroup → List Text
all_targets [] = []
all_targets (g ∷ gs) = g.targets ++ all_targets gs

abbrev pub Absent : Text → List Text → Type 0
Absent t [] = Unit
Absent t (x ∷ xs) = (x ≢ t) × Absent t xs

-- No text twice.
abbrev pub Distinct : List Text → Type 0
Distinct [] = Unit
Distinct (x ∷ xs) = Absent x xs × Distinct xs

Absent-append :
    (t : Text) (xs : List Text) (x : Text) → Absent t xs → x ≢ t → Absent t (xs ++ x ∷ [])
Absent-append t [] x _ d = (d, tt)
Absent-append t (y ∷ xs) x (dy, a) d = (dy, Absent-append t xs x a d)

Distinct-append : (xs : List Text) (x : Text) → Distinct xs → Absent x xs → Distinct (xs ++ x ∷ [])
Distinct-append [] x _ _ = (tt, tt)
Distinct-append (y ∷ xs) x (a, d) (dy, b) =
    (Absent-append y xs x a (λ e. dy (sym e)), Distinct-append xs x d b)

pub all_targets-append :
    (gs : List TargetGroup) (g : TargetGroup) (t : Text)
    → g.targets ≡ t ∷ []
    → all_targets (gs ++ g ∷ []) ≡ all_targets gs ++ t ∷ []
all_targets-append [] g t e = rw e refl
all_targets-append (x ∷ gs) g t e =
    rw (all_targets-append gs g t e, append_assoc x.targets (all_targets gs) (t ∷ [])) refl

-- The targets are distinct, and only a text that was seen can be one.
abbrev Fine : Groups → Type 0
Fine st =
    ((t : Text) → elem t st.seen ≡ false → Absent t (all_targets st.groups))
    × Distinct (all_targets st.groups)

add_group-Fine :
    (t : Text) (g : TargetGroup) (st : Groups)
    → g.targets ≡ t ∷ []
    → Fine st
    → Fine (add_group t g st)
unfolding add_group
add_group-Fine t g st e (absent, distinct) = elim (Bool-cases (elem t st.seen)) [
  | inl k ↦ rw k (absent, distinct)
  | inr k ↦
      rw (k, all_targets-append st.groups g t e)
        (
          λ u h.
              let new : (elem u st.seen ≡ false) × (t ≢ u) =
                unfold elem in ground (arith, text_eq_iff t u) in
              Absent-append u (all_targets st.groups) t (absent u new.0) new.1,
          Distinct-append (all_targets st.groups) t distinct (absent t k),
        )
]

module _ (cfg : PrometheusSdConfig) where
  add_peer-Fine : (p : PresentPeer) (st : Groups) → Fine st → Fine (add_peer cfg p st)
  unfolding add_peer
  add_peer-Fine p st fine = elim (Bool-cases (is_empty p.primary_vpn_addr)) [
    | inl e ↦ rw e fine
    | inr e ↦ rw e (add_group-Fine _ _ st refl fine)
  ]

  add_peers-Fine : (ps : List PresentPeer) (st : Groups) → Fine st → Fine (add_peers cfg ps st)
  unfolding add_peers
  add_peers-Fine [] st fine = fine
  add_peers-Fine (p ∷ ps) st fine = add_peers-Fine ps (add_peer cfg p st) (add_peer-Fine p st fine)

  add_lighthouse-Fine :
      (l : Lighthouse) (found : Text × Text) (st : Groups)
      → Fine st
      → Fine (add_lighthouse cfg l found st)
  unfolding add_lighthouse
  add_lighthouse-Fine l (host, port) st fine = add_group-Fine _ _ st refl fine

  -- Every address splits into a host and a port.
  abbrev pub AllSplit : List Lighthouse → Type 0
  AllSplit [] = Unit
  AllSplit (l ∷ ls) = ((found : Text × Text) × (split_host_port l.address ≡ ok found)) × AllSplit ls

  add_lighthouses-Fine :
      (ls : List Lighthouse) (st : Groups)
      → AllSplit ls
      → Fine st
      → (out : Groups) × (add_lighthouses cfg ls st ≡ ok out) × Fine out
  unfolding add_lighthouses
  add_lighthouses-Fine [] st _ fine = (st, refl, fine)
  add_lighthouses-Fine (l ∷ ls) st ((found, e), rest) fine =
      let (out, same, good) =
        add_lighthouses-Fine ls (add_lighthouse cfg l found st) rest
          (add_lighthouse-Fine l found st fine) in
      (out, rw e same, good)

  -- If the address of every lighthouse splits into a host and a port, target groups are returned,
  -- whatever the peers, and no target stands in them twice.
  pub prometheus_target_groups-Distinct :
      (ls : List Lighthouse) (ps : List PresentPeer)
      → AllSplit ls
      → (gs : List TargetGroup) × (prometheus_target_groups cfg ls ps ≡ ok gs)
        × Distinct (all_targets gs)
  unfolding prometheus_target_groups
  prometheus_target_groups-Distinct ls ps split =
      let start : Groups = record { seen = []; groups = [] } in
      let (out, same, fine) =
        add_lighthouses-Fine ls (add_peers cfg ps start) split
          (add_peers-Fine ps start (λ t h. tt, tt)) in
      (out.groups, rw same refl, fine.1)
