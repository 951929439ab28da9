-- ===== src/HttpApi/Router/Headers.antt =====
-- internal/httpapi/handler.go: the security headers of every response.
pub mod Keeping
use usage_viewer.Prelude.{
  ℕ, ◌≡◌, refl, sym, ◌∙◌, inl, inr, Bool, true, List, [], ◌∷◌, ◌++◌, Option, none, some, err, Text,
  bytes, text_eq, text_eq→eq, all_of, Option-cases, Result-cases, arith, if◌then◌else◌,
}
use usage_viewer.HttpApi.Sessions.{Store}
use usage_viewer.HttpApi.Messages.{
  HttpRequest, Platform, Decoder, Labels, Response, write_header, post_json, decode_body,
  write_error, write_json, set_header, allow_header, get,
}
use usage_viewer.HttpApi.Handlers.{
  Moment, serve_search, serve_daily_usage, serve_leaderboard, run_search, run_daily_usage,
  run_leaderboard, search_labels, daily_labels, leaderboard_labels, self_labels, login_labels,
  is_authenticated, Reply,
}
use usage_viewer.HttpApi.Accounts.{
  run_self_lookup, serve_self_lookup, serve_login, serve_logout, serve_auth_status, serve_health,
  set_cookie,
}
use usage_viewer.HttpApi.Router.{
  Server, Endpoint, health, login, logout, auth_status, search, key_usage, leaderboard, self_lookup,
  assets, routes, endpoint_of, dispatch, require_auth_api, route, serve, serve_asset, send_asset,
  redirect, not_found, security_headers, page_name, pages, query_escape,
}
use usage_viewer.HttpApi.Router.Headers.Keeping.{
  header_value, keeps_all, kept_value, value-append, keeps-serve_search, keeps-serve_daily_usage,
  keeps-serve_leaderboard, keeps-serve_self_lookup, keeps-serve_login, keeps-serve_logout,
  keeps-serve_auth_status, keeps-serve_health, keeps-send_asset, keeps-redirect, keeps-not_found,
  keeps-method_not_allowed, keeps-unauthenticated,
}

module _ (server : Server) (moment : Moment) (r : HttpRequest) where
  keeps-serve_asset :
      (store : Store) → keeps_all (serve_asset moment r store).response.headers ≡ true
  unfolding serve_asset
  keeps-serve_asset store = elim (Option-cases (page_name pages r.path)) [
    | inl n ↦ ground (arith, keeps-not_found server moment r store)
    | inr (name, n) ↦ ground (
      arith,
      keeps-send_asset server moment r store name,
      keeps-redirect server moment r store 302 (bytes "/login?next=" ++ query_escape r.path),
      keeps-method_not_allowed,
    )
  ]

  keeps-require_auth_api :
      (next : HttpRequest → Store → Reply) (store : Store)
      → ((kept : Store) → keeps_all (next r kept).response.headers ≡ true)
      → keeps_all (require_auth_api moment next r store).response.headers ≡ true
  unfolding require_auth_api
  keeps-require_auth_api next store h =
      ground (arith, h (is_authenticated r moment.now store).1, keeps-unauthenticated)

  keeps-dispatch :
      (e : Endpoint) (store : Store)
      → keeps_all (dispatch server moment e r store).response.headers ≡ true
  unfolding dispatch
  keeps-dispatch health store = keeps-serve_health server moment r store
  keeps-dispatch login store = keeps-serve_login server moment r store
  keeps-dispatch logout store = keeps-serve_logout server moment r store
  keeps-dispatch auth_status store = keeps-serve_auth_status server moment r store
  keeps-dispatch search store =
      keeps-require_auth_api (serve_search server.platform server.services) store
        (keeps-serve_search server moment r)
  keeps-dispatch key_usage store =
      keeps-require_auth_api (serve_daily_usage server.platform server.services) store
        (keeps-serve_daily_usage server moment r)
  keeps-dispatch leaderboard store =
      keeps-require_auth_api (serve_leaderboard server.platform server.services) store
        (keeps-serve_leaderboard server moment r)
  keeps-dispatch self_lookup store = keeps-serve_self_lookup server moment r store
  keeps-dispatch assets store = keeps-serve_asset store

  keeps-route : (store : Store) → keeps_all (route server moment r store).response.headers ≡ true
  unfolding route
  keeps-route store = elim (Option-cases (server.platform.mux_redirect r)) [
    | inl n ↦ ground (arith, keeps-dispatch (endpoint_of routes r.path) store)
    | inr (l, n) ↦ ground (arith, keeps-redirect server moment r store 301 l)
  ]

  -- Every response carries every security header with its value, whatever the handler sets: no
  -- handler's own headers replace one by another value.
  pub serve-security_headers :
      (store : Store) (name value : Text)
      → header_value name security_headers ≡ some value
      → header_value name (serve server moment r store).response.headers ≡ some value
  unfolding serve
  serve-security_headers store name value h =
      let hs = (route server moment r store).response.headers in
      elim (Option-cases (header_value name hs)) [
        | inl n ↦ ground (arith, value-append name security_headers hs)
        | inr (w, q) ↦ ground (
          arith,
          value-append name security_headers hs,
          kept_value name hs (keeps-route store) h q,
        )
      ]
