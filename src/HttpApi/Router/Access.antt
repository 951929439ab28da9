-- ===== src/HttpApi/Router/Access.antt =====
-- internal/httpapi: which requests reach a service, and what a request without a session sees.
use usage_viewer.Prelude.{
  ◌≡◌, refl, inl, inr, ◌⊎◌, true, false, List, [], ◌∷◌, none, some, Text, bytes, text_eq,
  text_eq→eq, text_eq_refl, All, Bool-cases, Option-cases, contains, text_key, arith,
}
use usage_viewer.HttpApi.Sessions.{Store}
use usage_viewer.HttpApi.Messages.{HttpRequest, get, no_content, write_error, write_json}
use usage_viewer.HttpApi.Handlers.{
  Moment, Reply, is_authenticated, serve_search, serve_daily_usage, serve_leaderboard,
}
use usage_viewer.HttpApi.Accounts.{serve_login, serve_logout, serve_auth_status, serve_health}
use usage_viewer.HttpApi.Router.{
  Server, Endpoint, health, login, logout, auth_status, search, key_usage, leaderboard, self_lookup,
  assets, routes, endpoint_of, dispatch, require_auth_api, route, serve, serve_asset, redirect,
  page_name, pages, protected_pages,
}
use usage_viewer.HttpApi.Router.Calls.{
  Permitted, Authenticated, same, none_made, serve_search-calls, serve_daily_usage-calls,
  serve_leaderboard-calls, serve_self_lookup-calls,
}

-- The routes behind `requireAuthAPI`.
abbrev pub protected_routes : List Text
protected_routes = bytes "/api/search" ∷ bytes "/api/key-usage" ∷ bytes "/api/leaderboard" ∷ []

-- The only path of an endpoint behind the login, and of the self-lookup.
pub endpoint_path :
    (path : Text)
    → (endpoint_of routes path ≡ search → path ≡ bytes "/api/search")
      × (endpoint_of routes path ≡ key_usage → path ≡ bytes "/api/key-usage")
      × (endpoint_of routes path ≡ leaderboard → path ≡ bytes "/api/leaderboard")
      × (endpoint_of routes path ≡ self_lookup → path ≡ bytes "/api/self-lookup")
      × (endpoint_of routes path ≡ login → path ≡ bytes "/api/login")
unfolding endpoint_of
endpoint_path path = (
  λ h. ground (arith, text_eq→eq (bytes "/api/search") path),
  λ h. ground (arith, text_eq→eq (bytes "/api/key-usage") path),
  λ h. ground (arith, text_eq→eq (bytes "/api/leaderboard") path),
  λ h. ground (arith, text_eq→eq (bytes "/api/self-lookup") path),
  λ h. ground (arith, text_eq→eq (bytes "/api/login") path),
)

protected_endpoint :
    (path : Text)
    → contains protected_routes path ≡ true
    → (endpoint_of routes path ≡ search)
      ⊎ ((endpoint_of routes path ≡ key_usage) ⊎ (endpoint_of routes path ≡ leaderboard))
unfolding endpoint_of text_eq
protected_endpoint path h = elim (Bool-cases (text_eq (bytes "/api/search") path)) [
  | inl e ↦ inl (rw⁻¹ (text_eq→eq (bytes "/api/search") path e) refl)
  | inr n ↦ elim (Bool-cases (text_eq (bytes "/api/key-usage") path)) [
    | inl e ↦ inr (inl (rw⁻¹ (text_eq→eq (bytes "/api/key-usage") path e) refl))
    | inr m ↦ inr (inr (rw⁻¹ (text_eq→eq (bytes "/api/leaderboard") path (ground arith)) refl))
  ]
]

page_endpoint :
    (path : Text)
    → contains protected_pages path ≡ true
    → (endpoint_of routes path ≡ assets) × (name : Text) × (page_name pages path ≡ some name)
unfolding endpoint_of page_name text_eq
page_endpoint path h = elim (Bool-cases (text_eq (bytes "/keys") path)) [
  | inl e ↦ rw⁻¹ (text_eq→eq (bytes "/keys") path e) (refl, bytes "index.html", refl)
  | inr n ↦
      rw⁻¹ (text_eq→eq (bytes "/leaderboard") path (ground arith))
        (refl, bytes "leaderboard.html", refl)
]

module _ (server : Server) (moment : Moment) (r : HttpRequest) (store : Store) where
  -- What a route adds to the calls that are permitted: nothing but the calls of its handler.
  require_auth_api-calls :
      (next : HttpRequest → Store → Reply)
      → (Authenticated moment r store
          → All
              (Permitted server moment r store)
              (next r (is_authenticated r moment.now store).1).calls)
      → All (Permitted server moment r store) (require_auth_api moment next r store).calls
  unfolding require_auth_api
  require_auth_api-calls next h = elim (Bool-cases (is_authenticated r moment.now store).0) [
    | inl e ↦
        same (Permitted server moment r store)
          (next r (is_authenticated r moment.now store).1).calls (ground arith) (h e)
    | inr e ↦ none_made server moment r store store (ground arith)
  ]

  calls-serve_asset : (serve_asset moment r store).calls ≡ []
  unfolding serve_asset
  calls-serve_asset = ground arith

  calls-serve_login : (serve_login server.platform server.account moment r store).calls ≡ []
  unfolding serve_login
  calls-serve_login = ground arith

  calls-serve_logout : (serve_logout server.platform r store).calls ≡ []
  unfolding serve_logout
  calls-serve_logout = ground arith

  calls-serve_auth_status : (serve_auth_status moment r store).calls ≡ []
  unfolding serve_auth_status
  calls-serve_auth_status = ground arith

  calls-serve_health : (serve_health r store).calls ≡ []
  unfolding serve_health
  calls-serve_health = ground arith

  dispatch-calls :
      (e : Endpoint)
      → endpoint_of routes r.path ≡ e
      → All (Permitted server moment r store) (dispatch server moment e r store).calls
  unfolding dispatch
  dispatch-calls health h = none_made server moment r store store calls-serve_health
  dispatch-calls login h = none_made server moment r store store calls-serve_login
  dispatch-calls logout h = none_made server moment r store store calls-serve_logout
  dispatch-calls auth_status h = none_made server moment r store store calls-serve_auth_status
  dispatch-calls search h = require_auth_api-calls (serve_search server.platform server.services) (
      serve_search-calls server moment r store (is_authenticated r moment.now store).1
        ((endpoint_path r.path).0 h))
  dispatch-calls key_usage h =
      require_auth_api-calls (serve_daily_usage server.platform server.services) (
        serve_daily_usage-calls server moment r store (is_authenticated r moment.now store).1
          ((endpoint_path r.path).1 h))
  dispatch-calls leaderboard h =
      require_auth_api-calls (serve_leaderboard server.platform server.services) (
        serve_leaderboard-calls server moment r store (is_authenticated r moment.now store).1
          ((endpoint_path r.path).2 h))
  dispatch-calls self_lookup h =
      serve_self_lookup-calls server moment r store store ((endpoint_path r.path).3 h)
  dispatch-calls assets h = none_made server moment r store store calls-serve_asset

  -- Every call of a service that a request causes is permitted to it: a search, a daily usage by key
  -- and a leaderboard come only from their route, with a session that is valid, and a payload
  -- that is accepted and validated; a self-lookup comes only from its route, with the decoded credential,
  -- and is followed at most by the daily usage of the key that it has found.
  pub serve-calls : All (Permitted server moment r store) (serve server moment r store).calls
  unfolding serve route
  serve-calls = elim (Option-cases (server.platform.mux_redirect r)) [
    | inr (l, m) ↦ none_made server moment r store store (ground arith)
    | inl m ↦
        same (Permitted server moment r store)
          (dispatch server moment (endpoint_of routes r.path) r store).calls (ground arith)
          (dispatch-calls (endpoint_of routes r.path) refl)
  ]

  -- Without a valid session a request that the mux does not redirect is answered 401 on a route behind
  -- the login, and no service is called; on a page behind the login a GET request is redirected with
  -- 302, and gets no page.
  pub serve-without_session :
      server.platform.mux_redirect r ≡ none
      → (is_authenticated r moment.now store).0 ≡ false
      → (contains protected_routes r.path ≡ true
          → ((serve server moment r store).response.status ≡ 401)
            × ((serve server moment r store).calls ≡ []))
        × (contains protected_pages r.path ≡ true
            → r.method ≡ get
            → ((serve server moment r store).response.status ≡ 302)
              × ((serve server moment r store).response.content ≡ no_content))
  unfolding serve route dispatch require_auth_api write_error write_json serve_asset redirect
  serve-without_session m s = (
    λ h. elim (protected_endpoint r.path h) [
      | inl e ↦ ground arith
      | inr (inl e) ↦ ground arith
      | inr (inr e) ↦ ground arith
    ],
    λ h g. let (e, name, q) = page_endpoint r.path h in ground (arith, text_eq_refl get),
  )
