-- ===== src/Storage/Peers/Refresh.antt =====
-- RefreshGrafanaViews of internal/storage/storage.go, on the views of
-- db/migrations/views/001_grafana_views.sql.
use nebula_mnemosina.Prelude.{String, List, [], ◌∷◌, Option, none, some, ◌≡◌, refl, ◌∙◌, ap, arith}
use nebula_mnemosina.Errors.{Error}
use nebula_mnemosina.Db.{Tables, Session}
use nebula_mnemosina.Db.Views.{Functions}
use nebula_mnemosina.Db.Views.Queries.{
  current_peers, current_lighthouse_addrmap, poll_health_5m, peer_cert_inventory,
  lighthouse_disagreement,
}
use nebula_mnemosina.Db.Views.Refresh.{
  Views, Database, view_query, replaced, refresh_view, refresh_view_ok,
}
use nebula_mnemosina.Storage.Peers.{views, refreshed, refresh_all, refresh_grafana_views}

module _ {F : Type 0} (f : Functions F) where
  replaced_all : List String → Tables → Views F → Views F
  replaced_all [] t v = v
  replaced_all (name ∷ names) t v = replaced_all names t (replaced f (view_query f name) t v)

  -- A refresh that ends well, of the views of these names.
  abbrev Refreshes : List String → (Database F → Option Error × Database F) → Type 0
  Refreshes names run =
      (d : Database F)
      → (run d).0 ≡ none
      → (s : Session) × ((run d).1
          ≡ record { session = s; views = replaced_all names d.session.tables d.views })
        × (s.tables ≡ d.session.tables)

  then_rest :
      (name : String) (names : List String) (rest : Database F → Option Error × Database F)
      → Refreshes names rest
      → Refreshes (name ∷ names) (λ d. refreshed name (refresh_view f name d) rest)
  unfolding replaced_all
  then_rest name names rest more d h = go (refresh_view f name d) (refresh_view_ok f name d) h
    where
      go :
          (x : Option Error × Database F)
          → (x.0 ≡ none
              → (s : Session) × (x.1 ≡ record {
                session = s;
                views = replaced f (view_query f name) d.session.tables d.views;
              })
                × (s.tables ≡ d.session.tables))
          → (refreshed name x rest).0 ≡ none
          → (s : Session) × ((refreshed name x rest).1 ≡ record {
            session = s;
            views = replaced_all (name ∷ names) d.session.tables d.views;
          })
            × (s.tables ≡ d.session.tables)
      go (some e, d') ran h = absurd (ground arith)
      go (none, d') ran h =
          let (s, eq, same) = ran refl in
          let (s', eq', same') = more d' h in
          let tables : d'.session.tables ≡ d.session.tables =
            ap (λ x. x.session.tables) eq ∙ same in
          (
            s',
            eq'
                ∙ ap (λ t. record { session = s'; views = replaced_all names t d'.views }) tables
                ∙ ap
                    (λ (x : Database F). record {
                      session = s';
                      views = replaced_all names d.session.tables x.views;
                    })
                    eq,
            same' ∙ tables,
          )

  refresh_all_ok : (names : List String) → Refreshes names (refresh_all (refresh_view f) names)
  unfolding refresh_all replaced_all
  refresh_all_ok [] = λ d h. (d.session, refl, refl)
  refresh_all_ok (name ∷ names) =
      then_rest name names (refresh_all (refresh_view f) names) (refresh_all_ok names)

  -- What the views have when each is what it selects, the disagreements among it of the address maps
  -- as they are then.
  abbrev pub up_to_date : Tables → Views F
  up_to_date t = record {
    peers = current_peers t;
    addrmap = current_lighthouse_addrmap t;
    health = poll_health_5m f t;
    inventory = peer_cert_inventory t;
    disagreement = lighthouse_disagreement f (current_lighthouse_addrmap t);
  }

  -- When the refresh of the views succeeds, all five are up to date with the tables, whatever they
  -- were before, the disagreements with the address maps of the same refresh; no table has changed.
  pub refresh_grafana_views_lem :
      (d : Database F)
      → (refresh_grafana_views (refresh_view f) d).0 ≡ none
      → let d' = (refresh_grafana_views (refresh_view f) d).1 in
        (d'.views ≡ up_to_date d.session.tables) × (d'.session.tables ≡ d.session.tables)
  unfolding refresh_grafana_views replaced_all view_query
  refresh_grafana_views_lem d h =
      let (s, eq, same) = refresh_all_ok views d h in
      (ap (λ x. x.views) eq, ap (λ x. x.session.tables) eq ∙ same)
