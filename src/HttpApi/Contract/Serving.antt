-- ===== src/HttpApi/Contract/Serving.antt =====
-- internal/httpapi: every response of a server whose services keep their contract.
use mathlib.Core.Path.{subst}
use usage_viewer.Prelude.{leb_ℤ, sym, pos, inl, inr, arith, Bool-cases, Option-cases, Result-cases}
use usage_viewer.Search.{validate, validate_days, validate_limit}
use usage_viewer.HttpApi.Sessions.{Store}
use usage_viewer.HttpApi.Messages.{
  HttpRequest, Platform, post_json, write_error, write_json, write_header, set_header,
}
use usage_viewer.HttpApi.Handlers.{
  Services, Moment, Reply, search_labels, daily_labels, leaderboard_labels, self_labels,
  login_labels, search_request, page_refused, run_search, run_daily_usage, run_leaderboard,
  serve_search, serve_daily_usage, serve_leaderboard, is_authenticated,
}
use usage_viewer.HttpApi.Accounts.{
  run_self_lookup, serve_self_lookup, serve_login, serve_logout, serve_auth_status, serve_health,
  set_cookie,
}
use usage_viewer.HttpApi.Router.{
  Server, Endpoint, health, login, logout, auth_status, search, key_usage, leaderboard, self_lookup,
  assets, routes, endpoint_of, dispatch, require_auth_api, route, serve, serve_asset, send_asset,
  redirect, not_found,
}
use usage_viewer.HttpApi.Contract.{Contract}
use usage_viewer.Search.Queries.{validate-is_valid}
use usage_viewer.HttpApi.Contract.Presenting.{
  Presented, Fine, is_report, quiet, shows, gives, quiet-post_json, run_search-Fine,
  run_daily_usage-Fine, run_leaderboard-Fine, run_self_lookup-Fine, validate_days_same,
  validate_limit_same,
}

module _ (p : Platform) (services : Services) (kept : Contract services) (r : HttpRequest)
    (store : Store) where
  serve_search-Fine : Fine (serve_search p services r store)
  unfolding serve_search write_error write_json is_report
  serve_search-Fine = elim (Result-cases (post_json p p.decode_search search_labels r)) [
    | inr (e, q) ↦
        shows (serve_search p services r store) e.content (ground arith)
          (quiet-post_json p p.decode_search search_labels r q)
    | inl (payload, q) ↦ elim (Bool-cases (page_refused payload)) [
      | inl refused ↦ quiet _ (ground arith)
      | inr fine ↦ elim (Result-cases (validate (search_request payload))) [
        | inr (e, v) ↦ quiet _ (ground arith)
        | inl (query, v) ↦
            gives (serve_search p services r store) (run_search services.search query store)
              (ground arith)
              (run_search-Fine services.search query store
                (validate-is_valid (search_request payload) query v).0)
      ]
    ]
  ]

  serve_daily_usage-Fine : Fine (serve_daily_usage p services r store)
  unfolding serve_daily_usage write_error write_json is_report
  serve_daily_usage-Fine = elim (Result-cases (post_json p p.decode_daily_usage daily_labels r)) [
    | inr (e, q) ↦
        shows (serve_daily_usage p services r store) e.content (ground arith)
          (quiet-post_json p p.decode_daily_usage daily_labels r q)
    | inl (payload, q) ↦ elim (Bool-cases (leb_ℤ payload.key_id (pos 0))) [
      | inl refused ↦ quiet _ (ground arith)
      | inr fine ↦ elim (Result-cases (validate_days payload.days)) [
        | inr (e, v) ↦ quiet _ (ground arith)
        | inl (days, v) ↦
            gives (serve_daily_usage p services r store)
              (run_daily_usage services.daily_usage payload.key_id days store) (ground arith)
              (run_daily_usage-Fine services.daily_usage payload.key_id days store
                (validate_days_same payload.days days v))
      ]
    ]
  ]

  serve_leaderboard-Fine : Fine (serve_leaderboard p services r store)
  unfolding serve_leaderboard write_error write_json is_report
  serve_leaderboard-Fine =
      elim (Result-cases (post_json p p.decode_leaderboard leaderboard_labels r)) [
        | inr (e, q) ↦
            shows (serve_leaderboard p services r store) e.content (ground arith)
              (quiet-post_json p p.decode_leaderboard leaderboard_labels r q)
        | inl (requested, q) ↦ elim (Result-cases (validate_limit requested)) [
          | inr (e, v) ↦ quiet _ (ground arith)
          | inl (limit, v) ↦
              gives (serve_leaderboard p services r store)
                (run_leaderboard services.leaderboard limit store) (ground arith)
                (run_leaderboard-Fine services.leaderboard limit store kept.leaderboards
                  (validate_limit_same requested limit v))
        ]
      ]

  serve_self_lookup-Fine : Fine (serve_self_lookup p services r store)
  unfolding serve_self_lookup
  serve_self_lookup-Fine = elim (Result-cases (post_json p p.decode_self_lookup self_labels r)) [
    | inr (e, q) ↦
        shows (serve_self_lookup p services r store) e.content (ground arith)
          (quiet-post_json p p.decode_self_lookup self_labels r q)
    | inl (credential, q) ↦
        gives (serve_self_lookup p services r store)
          (run_self_lookup services.self_lookup services.daily_usage credential store)
          (ground arith)
          (run_self_lookup-Fine services.self_lookup services.daily_usage credential store
            kept.self_lookups)
  ]

module _ (server : Server) (moment : Moment) (r : HttpRequest) where
  serve_login-Fine :
      (store : Store) → Fine (serve_login server.platform server.account moment r store)
  unfolding serve_login set_cookie write_error write_json is_report
  serve_login-Fine store =
      elim (Result-cases (post_json server.platform server.platform.decode_login login_labels r)) [
        | inr (e, q) ↦
            shows (serve_login server.platform server.account moment r store) e.content
              (ground arith)
              (quiet-post_json server.platform server.platform.decode_login login_labels r q)
        | inl (x, q) ↦ quiet _ (ground arith)
      ]

  serve_logout-Fine : (store : Store) → Fine (serve_logout server.platform r store)
  unfolding serve_logout set_cookie set_header write_error write_json is_report
  serve_logout-Fine store = quiet _ (ground arith)

  serve_auth_status-Fine : (store : Store) → Fine (serve_auth_status moment r store)
  unfolding serve_auth_status set_header write_error write_json is_report
  serve_auth_status-Fine store = quiet _ (ground arith)

  serve_health-Fine : (store : Store) → Fine (serve_health r store)
  unfolding serve_health set_header write_header is_report
  serve_health-Fine store = quiet _ (ground arith)

  serve_asset-Fine : (store : Store) → Fine (serve_asset moment r store)
  unfolding serve_asset send_asset not_found redirect set_header write_header is_report
  serve_asset-Fine store = quiet _ (ground arith)

  require_auth_api-Fine :
      (next : HttpRequest → Store → Reply) (store : Store)
      → ((kept : Store) → Fine (next r kept))
      → Fine (require_auth_api moment next r store)
  unfolding require_auth_api write_error write_json is_report
  require_auth_api-Fine next store h =
      let checked = is_authenticated r moment.now store in
      elim (Bool-cases checked.0) [
        | inl granted ↦
            gives (require_auth_api moment next r store) (next r checked.1) (ground arith)
              (h checked.1)
        | inr refused ↦ quiet _ (ground arith)
      ]

  dispatch-Fine :
      Contract server.services
      → (e : Endpoint) (store : Store) → Fine (dispatch server moment e r store)
  unfolding dispatch
  dispatch-Fine kept health store = serve_health-Fine store
  dispatch-Fine kept login store = serve_login-Fine store
  dispatch-Fine kept logout store = serve_logout-Fine store
  dispatch-Fine kept auth_status store = serve_auth_status-Fine store
  dispatch-Fine kept search store =
      require_auth_api-Fine (serve_search server.platform server.services) store
        (serve_search-Fine server.platform server.services kept r)
  dispatch-Fine kept key_usage store =
      require_auth_api-Fine (serve_daily_usage server.platform server.services) store
        (serve_daily_usage-Fine server.platform server.services kept r)
  dispatch-Fine kept leaderboard store =
      require_auth_api-Fine (serve_leaderboard server.platform server.services) store
        (serve_leaderboard-Fine server.platform server.services kept r)
  dispatch-Fine kept self_lookup store =
      serve_self_lookup-Fine server.platform server.services kept r store
  dispatch-Fine kept assets store = serve_asset-Fine store

  -- What a server shows whose services keep their contract: a search result is for a valid query and its
  -- page, daily costs are over an accepted number of days, a leaderboard has an accepted limit, its four
  -- windows and ranks within the limit, and the keys of leaderboards and self-lookups are masked.
  pub serve-Presented :
      (store : Store)
      → Contract server.services
      → Presented (serve server moment r store).response.content
  unfolding serve route redirect is_report
  serve-Presented store kept = elim (Option-cases (server.platform.mux_redirect r)) [
    | inr (l, n) ↦ quiet _ (ground arith)
    | inl n ↦
        subst Presented (sym (ground arith)) (dispatch-Fine kept (endpoint_of routes r.path) store)
  ]
