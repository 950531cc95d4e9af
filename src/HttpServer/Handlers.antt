-- ===== src/HttpServer/Handlers.antt =====
-- The handlers of internal/httpserver/server.go and of internal/httpserver/prometheus_sd.go. A
-- response is what the handler wrote: its status, the two headers that matter, and the body. The store
-- passes its state along; the JSON encoder and the handler of /metrics are parameters. Log lines are
-- left out.
pub mod Laws
use nebula_mnemosina.Prelude.{
  ℕ, String, Bool, true, false, not, ◌&&◌, List, [], ◌∷◌, ◌++◌, Option, none, some, if◌then◌else◌,
}
use nebula_mnemosina.Text.{Text, codes, text_eq}
use nebula_mnemosina.Errors.{Error, message, Result, ok, err}
use nebula_mnemosina.Model.{Lighthouse, PresentPeer}
use nebula_mnemosina.Config.{PrometheusSdConfig}
use nebula_mnemosina.HttpServer.{TargetGroup, prometheus_target_groups}

-- The interface `Store`.
pub record Store (S : Type 0) : Type 0 where
  pub ping : S → Option Error × S
  pub list_present_hostmap_peers : S → Result (List PresentPeer) × S

pub record Request : Type 0 where
  pub method : Text
  pub path : Text

pub record Response : Type 0 where
  pub status : ℕ
  pub content_type : String
  pub allow : Option String
  pub body : Text

abbrev pub status_ok : ℕ
status_ok = 200

abbrev pub not_found : ℕ
not_found = 404

abbrev pub method_not_allowed : ℕ
method_not_allowed = 405

abbrev pub internal_server_error : ℕ
internal_server_error = 500

abbrev pub service_unavailable : ℕ
service_unavailable = 503

-- http.Error
unfoldable pub http_error : Text → ℕ → Response
http_error text status = record {
  status = status;
  content_type = "text/plain; charset=utf-8";
  allow = none;
  body = text ++ 10 ∷ [];
}

-- A text that is written without a content type gets the one that net/http finds for it.
abbrev pub plain : Text → Response
plain text = record {
  status = status_ok;
  content_type = "text/plain; charset=utf-8";
  allow = none;
  body = text;
}

unfoldable pub healthz : Response
healthz = plain (codes "ok\n")

unfoldable pub ping_response : Option Error → Response
unfolding http_error
ping_response (some e) = http_error (message e) service_unavailable
ping_response none = plain (codes "ready\n")

abbrev pub is_get : Text → Bool
is_get method = text_eq method (codes "GET")

abbrev pub is_head : Text → Bool
is_head method = text_eq method (codes "HEAD")

-- What the encoder writes; an error of it is logged only.
abbrev pub encoded : Result Text → Text
encoded (ok text) = text
encoded (err e) = []

module _ {S : Type 0} (store : Store S) where
  unfoldable pub readyz : Bool → S → Response × S
  unfolding ping_response http_error
  readyz ready s =
      if not ready
      then (http_error (codes "starting") service_unavailable, s)
      else (ping_response (store.ping s).0, (store.ping s).1)

  module _ (cfg : PrometheusSdConfig) (lighthouses : List Lighthouse)
      (encode : List TargetGroup → Result Text) where
    unfoldable pub groups_response : Text → Result (List TargetGroup) → Response
    unfolding http_error
    groups_response method (err e) = http_error (message e) internal_server_error
    groups_response method (ok groups) = record {
      status = status_ok;
      content_type = "application/json";
      allow = none;
      body = if is_head method then [] else encoded (encode groups);
    }

    unfoldable pub peers_response : Text → Result (List PresentPeer) → Response
    unfolding http_error groups_response
    peers_response method (err e) = http_error (message e) internal_server_error
    peers_response method (ok peers) =
        groups_response method (prometheus_target_groups cfg lighthouses peers)

    unfoldable pub prometheus_sd_handler : Text → S → Response × S
    unfolding http_error peers_response
    prometheus_sd_handler method s =
        if not (is_get method) && not (is_head method)
        then (
          record (http_error (codes "method not allowed") method_not_allowed) {
            allow = some "GET, HEAD";
          },
          s,
        )
        else (
          peers_response method (store.list_present_hostmap_peers s).0,
          (store.list_present_hostmap_peers s).1,
        )

    -- The mux of Start, on paths that it has cleaned.
    unfoldable pub serve : Response → Bool → Request → S → Response × S
    unfolding healthz readyz prometheus_sd_handler http_error
    serve metrics ready r s =
        if text_eq r.path (codes "/healthz")
        then (healthz, s)
        else if text_eq r.path (codes "/readyz")
        then readyz ready s
        else if text_eq r.path (codes "/metrics")
        then (metrics, s)
        else if text_eq r.path (codes "/prometheus-sd")
        then prometheus_sd_handler r.method s
        else (http_error (codes "404 page not found") not_found, s)
