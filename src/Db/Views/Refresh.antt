-- ===== src/Db/Views/Refresh.antt =====
-- REFRESH MATERIALIZED VIEW, on a database that keeps the rows of the views of
-- db/migrations/views/001_grafana_views.sql as they were when they were refreshed last.
use text.Mathlib.Text.{◌==◌ as str_eq}
use nebula_mnemosina.Prelude.{
  Bool, true, false, ◌∷◌, String, List, Option, none, some, if◌then◌else◌, ◌≡◌, refl, sym, ◌∙◌, ap,
  arith,
}
use nebula_mnemosina.Text.{codes}
use nebula_mnemosina.Errors.{Error, foreign, Result, ok, err}
use nebula_mnemosina.Db.{Fault, refused, Tables, Session, statement, statement_ok}
use nebula_mnemosina.Db.Views.{
  Functions, MnemoCurrentPeer, MnemoCurrentLighthouseAddrmap, MnemoPollHealth5m,
  MnemoPeerCertInventory, MnemoLighthouseDisagreement,
}
use nebula_mnemosina.Db.Views.Queries.{
  current_peers, current_lighthouse_addrmap, poll_health_5m, peer_cert_inventory,
  lighthouse_disagreement,
}

pub record Views (F : Type 0) : Type 0 where
  pub peers : List MnemoCurrentPeer
  pub addrmap : List MnemoCurrentLighthouseAddrmap
  pub health : List (MnemoPollHealth5m F)
  pub inventory : List MnemoPeerCertInventory
  pub disagreement : List MnemoLighthouseDisagreement

pub record Database (F : Type 0) : Type 0 where
  pub session : Session
  pub views : Views F

-- PostgreSQL's text for it is not modelled.
abbrev pub undefined_view : Error
undefined_view = foreign (codes "relation does not exist")

module _ {F : Type 0} (f : Functions F) where
  -- What a view has behind its refresh, if there is such a view. The last reads another view, as that
  -- was refreshed last.
  unfoldable pub view_query : String → Option (Tables → Views F → Views F)
  view_query name =
      if str_eq name "mnemo_current_peers"
      then some (λ t v. record v { peers = current_peers t })
      else (if str_eq name "mnemo_current_lighthouse_addrmap"
          then some (λ t v. record v { addrmap = current_lighthouse_addrmap t })
          else (if str_eq name "mnemo_poll_health_5m"
              then some (λ t v. record v { health = poll_health_5m f t })
              else (if str_eq name "mnemo_peer_cert_inventory"
                  then some (λ t v. record v { inventory = peer_cert_inventory t })
                  else (if str_eq name "mnemo_lighthouse_disagreement"
                      then some
                          (λ t v. record v { disagreement = lighthouse_disagreement f v.addrmap })
                      else none))))

  abbrev pub replaced : Option (Tables → Views F → Views F) → Tables → Views F → Views F
  replaced none t v = v
  replaced (some query) t v = query t v

  -- The next statement is carried out, whether its answer is lost or not.
  abbrev pub is_carried_out : List (Option Fault) → Bool
  is_carried_out (some (refused e) ∷ faults) = false
  is_carried_out _ = true

  unfoldable pub carry_out :
      Bool
      → Option (Tables → Views F → Views F)
      → Result (Unit {0}) × Session
      → Views F
      → Option Error × Database F
  carry_out done query (err e, s) v =
      (some e, record { session = s; views = if done then replaced query s.tables v else v })
  carry_out done none (ok u, s) v = (some undefined_view, record { session = s; views = v })
  carry_out done (some query) (ok u, s) v = (none, record { session = s; views = query s.tables v })

  unfoldable pub refresh_view : String → Database F → Option Error × Database F
  unfolding view_query carry_out
  refresh_view name d =
      carry_out (is_carried_out d.session.faults) (view_query name)
        (statement (λ s. (ok tt, s)) d.session) d.views

  -- A refresh that succeeds replaces the rows of its view, and changes no table.
  pub refresh_view_ok :
      (name : String) (d : Database F)
      → (refresh_view name d).0 ≡ none
      → (s : Session) × ((refresh_view name d).1
          ≡ record { session = s; views = replaced (view_query name) d.session.tables d.views })
        × (s.tables ≡ d.session.tables)
  unfolding refresh_view
  refresh_view_ok name d = go (view_query name) (statement (λ s. (ok tt, s)) d.session).0 _ refl
    where
      go :
          (query : Option (Tables → Views F → Views F)) (r : Result (Unit {0})) (s : Session)
          → statement (λ s. (ok tt, s)) d.session ≡ (r, s)
          → (carry_out (is_carried_out d.session.faults) query (r, s) d.views).0 ≡ none
          → (s' : Session) × ((carry_out (is_carried_out d.session.faults) query (r, s) d.views).1
              ≡ record { session = s'; views = replaced query d.session.tables d.views })
            × (s'.tables ≡ d.session.tables)
      go query (err e) s eq h = absurd (ground arith)
      go none (ok u) s eq h = absurd (ground arith)
      go (some query) (ok u) s eq h =
          let (faults, ran) = statement_ok (λ s. (ok tt, s)) d.session (ap (λ x. x.0) eq) in
          let same : s.tables ≡ d.session.tables = ap (λ x. x.1.tables) (sym eq ∙ ran) in
          (s, ap (λ t. record { session = s; views = query t d.views }) same, same)
