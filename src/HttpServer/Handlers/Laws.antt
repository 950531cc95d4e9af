-- ===== src/HttpServer/Handlers/Laws.antt =====
-- The statuses of the endpoints of internal/httpserver.
use nebula_mnemosina.Prelude.{
  ℕ, String, Bool, true, false, ◌||◌, List, [], Option, none, some, ◌≡◌, ◌↔◌, ◌⊎◌, inl, inr, refl,
  ap, ◌∙◌, arith, Bool-cases,
}
use nebula_mnemosina.Text.{Text, codes, text_eq}
use nebula_mnemosina.Errors.{ok_inj, Error, Result, ok, err}
use nebula_mnemosina.Model.{Lighthouse, PresentPeer}
use nebula_mnemosina.Config.{PrometheusSdConfig}
use nebula_mnemosina.HttpServer.{TargetGroup, prometheus_target_groups}
use nebula_mnemosina.HttpServer.Handlers.{
  Store, Response, http_error, ping_response, readyz, is_get, is_head, groups_response,
  peers_response, prometheus_sd_handler,
}

module _ {S : Type 0} (store : Store S) where
  ping_response_status :
      (e : Option Error)
      → (((ping_response e).status ≡ 200) × (e ≡ none))
        ⊎ (((ping_response e).status ≡ 503) × ((x : Error) × (e ≡ some x)))
  unfolding ping_response http_error
  ping_response_status none = inl (refl, refl)
  ping_response_status (some e) = inr (refl, (e, refl))

  -- /readyz answers 200 exactly if the migrations are done and the database answers a ping, and 503
  -- otherwise; before that the database is not asked.
  pub readyz_lem :
      (ready : Bool) (s : S)
      → (((readyz store ready s).0.status ≡ 200) ↔ ((ready ≡ true) × ((store.ping s).0 ≡ none)))
        × (((readyz store ready s).0.status ≡ 200) ⊎ ((readyz store ready s).0.status ≡ 503))
        × (ready ≡ false → (readyz store ready s).1 ≡ s)
  unfolding readyz http_error
  readyz_lem false s = (ground arith, inr refl, λ h. refl)
  readyz_lem true s = elim (ping_response_status (store.ping s).0) [
    | inl (st, e) ↦ ((λ h. (refl, e), λ h. st), inl st, λ h. absurd (ground arith))
    | inr (st, (x, e)) ↦ (
      (λ h. absurd (ground (arith, st, h)), λ (r, n). absurd (ground (arith, e, n))),
      inr st,
      λ h. absurd (ground arith),
    )
  ]

  module _ (cfg : PrometheusSdConfig) (lighthouses : List Lighthouse)
      (encode : List TargetGroup → Result Text) where
    -- There are groups to show.
    abbrev pub HasGroups : S → Type 0
    HasGroups s =
        (peers : List PresentPeer) × ((store.list_present_hostmap_peers s).0 ≡ ok peers)
        × ((groups : List TargetGroup) × (prometheus_target_groups cfg lighthouses peers
              ≡ ok groups))

    abbrev pub IsRead : Text → Type 0
    IsRead method = (is_get method || is_head method) ≡ true

    groups_response_iff :
        (method : Text) (r : Result (List TargetGroup))
        → ((groups_response store cfg lighthouses encode method r).status ≡ 200)
          ↔ ((groups : List TargetGroup) × (r ≡ ok groups))
    unfolding groups_response http_error
    groups_response_iff method (ok groups) = (λ h. (groups, refl), λ h. refl)
    groups_response_iff method (err e) =
        (λ h. absurd (ground arith), λ (g, h). absurd (ground arith))

    peers_response_iff :
        (method : Text) (r : Result (List PresentPeer))
        → ((peers_response store cfg lighthouses encode method r).status ≡ 200) ↔ (
            (peers : List PresentPeer) × (r ≡ ok peers)
            × ((groups : List TargetGroup) × (prometheus_target_groups cfg lighthouses peers
                  ≡ ok groups)))
    unfolding peers_response http_error
    peers_response_iff method (err e) =
        (λ h. absurd (ground arith), λ (g, h, x). absurd (ground arith))
    peers_response_iff method (ok peers) =
        let (to, back) =
          groups_response_iff method (prometheus_target_groups cfg lighthouses peers) in
        (
          λ h. (peers, refl, to h),
          λ (p, e, (gs, h)).
              back (gs, ap (prometheus_target_groups cfg lighthouses) (ok_inj e) ∙ h),
        )

    -- /prometheus-sd answers 200 exactly to GET and HEAD, if the present peers are listed and the
    -- groups can be built.
    pub prometheus_sd_handler_iff :
        (method : Text) (s : S)
        → ((prometheus_sd_handler store cfg lighthouses encode method s).0.status ≡ 200)
          ↔ (IsRead method × HasGroups s)
    unfolding prometheus_sd_handler http_error
    prometheus_sd_handler_iff method s =
        let (to, back) = peers_response_iff method (store.list_present_hostmap_peers s).0 in
        elim (Bool-cases (is_get method)) [
          | inl g ↦ rw g ((λ h. (refl, to h)), λ (r, h). back h)
          | inr g ↦ elim (Bool-cases (is_head method)) [
            | inl k ↦ rw (g, k) ((λ h. (refl, to h)), λ (r, h). back h)
            | inr k ↦ rw (g, k) ((λ h. absurd (ground arith)), λ (r, h). absurd (ground arith))
          ]
        ]

    groups_empty :
        (r : Result (List TargetGroup))
        → (groups_response store cfg lighthouses encode (codes "HEAD") r).status ≡ 200
        → (groups_response store cfg lighthouses encode (codes "HEAD") r).body ≡ []
    unfolding groups_response http_error text_eq
    groups_empty (ok groups) h = refl
    groups_empty (err e) h = absurd (ground arith)

    head_empty :
        (r : Result (List PresentPeer))
        → (peers_response store cfg lighthouses encode (codes "HEAD") r).status ≡ 200
        → (peers_response store cfg lighthouses encode (codes "HEAD") r).body ≡ []
    unfolding peers_response http_error
    head_empty (ok peers) h = groups_empty (prometheus_target_groups cfg lighthouses peers) h
    head_empty (err e) h = absurd (ground arith)

    -- The status and the headers of a response.
    abbrev pub head_of : Response → ℕ × String × Option String
    head_of r = (r.status, r.content_type, r.allow)

    groups_response-head :
        (r : Result (List TargetGroup)) (m n : Text)
        → head_of (groups_response store cfg lighthouses encode m r)
          ≡ head_of (groups_response store cfg lighthouses encode n r)
    unfolding groups_response
    groups_response-head (ok groups) m n = refl
    groups_response-head (err e) m n = refl

    peers_response-head :
        (r : Result (List PresentPeer)) (m n : Text)
        → head_of (peers_response store cfg lighthouses encode m r)
          ≡ head_of (peers_response store cfg lighthouses encode n r)
    unfolding peers_response
    peers_response-head (ok peers) m n =
        groups_response-head (prometheus_target_groups cfg lighthouses peers) m n
    peers_response-head (err e) m n = refl

    -- HEAD is answered like GET, with the same status and headers and the same effect on the store;
    -- a list of groups is not written.
    pub prometheus_sd_handler_head :
        (s : S)
        → let get = prometheus_sd_handler store cfg lighthouses encode (codes "GET") s in
          let head = prometheus_sd_handler store cfg lighthouses encode (codes "HEAD") s in
          (head_of head.0 ≡ head_of get.0)
          × (head.1 ≡ get.1)
          × (head.0.status ≡ 200 → head.0.body ≡ [])
    unfolding prometheus_sd_handler text_eq
    prometheus_sd_handler_head s =
        let r = (store.list_present_hostmap_peers s).0 in
        (peers_response-head r (codes "HEAD") (codes "GET"), refl, head_empty r)
