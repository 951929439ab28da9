-- ===== src/HttpApi/Router/Logins.antt =====
-- internal/httpapi: how requests change the sessions.
use usage_viewer.Prelude.{
  ℕ, ◌+◌, ◌≡◌, ◌≢◌, ◌↔◌, refl, sym, inl, inr, ◌⊎◌, true, false, ◌&&◌, none, some, err, Text, bytes,
  text_eq, text_eq→eq, text_eq_iff, Bool-cases, Option-cases, Result-cases, arith,
}
use usage_viewer.HttpApi.Sessions.{
  Store, encode, lookup, insert, create, valid, revoke, session_duration,
}
use usage_viewer.HttpApi.Sessions.Laws.{
  lookup-insert, lookup-remove, lookup-valid_back, revoke_then_valid,
}
use usage_viewer.HttpApi.Messages.{
  HttpRequest, LoginPayload, remember, post, post_json, same_origin, write_error, write_json,
  set_header, decode_body, Platform, Decoder, Labels, Response,
}
use usage_viewer.HttpApi.Messages.Guards.{Accepted, post_json_accepts}
use usage_viewer.HttpApi.Handlers.{
  Services, Moment, Account, is_authenticated, login_labels, run_search, run_daily_usage,
  run_leaderboard, serve_search, serve_daily_usage, serve_leaderboard,
}
use usage_viewer.HttpApi.Accounts.{
  run_self_lookup, serve_self_lookup, serve_login, serve_logout, serve_auth_status, serve_health,
  set_cookie,
}
use usage_viewer.HttpApi.Router.{
  Server, Endpoint, health, login, logout, auth_status, search, key_usage, leaderboard, self_lookup,
  assets, routes, endpoint_of, dispatch, require_auth_api, route, serve, serve_asset,
}
use usage_viewer.HttpApi.Router.Access.{endpoint_path}

module _ (p : Platform) (services : Services) (r : HttpRequest) (store : Store) where
  store-serve_search : (serve_search p services r store).store ≡ store
  unfolding serve_search run_search
  store-serve_search = ground arith

  store-serve_daily_usage : (serve_daily_usage p services r store).store ≡ store
  unfolding serve_daily_usage run_daily_usage
  store-serve_daily_usage = ground arith

  store-serve_leaderboard : (serve_leaderboard p services r store).store ≡ store
  unfolding serve_leaderboard run_leaderboard
  store-serve_leaderboard = ground arith

  store-serve_self_lookup : (serve_self_lookup p services r store).store ≡ store
  unfolding serve_self_lookup run_self_lookup
  store-serve_self_lookup = ground arith

authenticated_kept :
    (r : HttpRequest) (now : ℕ) (store : Store) (token : Text) (expiry : ℕ)
    → lookup token (is_authenticated r now store).1 ≡ some expiry
    → lookup token store ≡ some expiry
unfolding is_authenticated
authenticated_kept r now store token expiry h = elim (Option-cases r.cookie) [
  | inl n ↦ ground arith
  | inr (c, q) ↦ lookup-valid_back c token now store (ground arith)
]

-- After a logout, a POST request from an accepted origin, the token that it carried is refused at every
-- time, and every other token is as before.
serve_logout-ends :
    (p : Platform) (r : HttpRequest) (store : Store) (token other : Text) (later : ℕ)
    → r.method ≡ post
    → same_origin p r ≡ true
    → r.cookie ≡ some token
    → ((valid token later (serve_logout p r store).store).0 ≡ false)
      × (other ≢ token
          → (valid other later (serve_logout p r store).store).0 ≡ (valid other later store).0)
unfolding serve_logout
serve_logout-ends p r store token other later m o c =
    let ends : (serve_logout p r store).store ≡ revoke token store =
      ground (arith, text_eq_iff r.method post) in
    let (refused, others) = revoke_then_valid token other later store in
    (rw ends refused, λ n. rw ends (others n))

-- A login that created the session of a token: an accepted request on the login route that names the
-- account, and a random source that gave the bytes of the token; it lasts 24 hours from then.
pub record LoggedIn (server : Server) (moment : Moment) (r : HttpRequest) (token : Text)
    (expiry : ℕ) : Type 0 where
  pub path : r.path ≡ bytes "/api/login"
  pub payload : LoginPayload
  pub accepted : Accepted server.platform server.platform.decode_login r payload
  pub username : payload.username ≡ server.account.username
  pub password : payload.password ≡ server.account.password
  pub buf : Text
  pub drawn : moment.random ≡ some buf
  pub token_is : token ≡ encode buf
  pub expiry_is : expiry ≡ moment.now + session_duration

module _ (server : Server) (moment : Moment) (r : HttpRequest) (store : Store) {token : Text}
    {expiry : ℕ} where
  login_creates :
      endpoint_of routes r.path ≡ login
      → lookup token (serve_login server.platform server.account moment r store).store ≡ some expiry
      → (lookup token store ≡ some expiry) ⊎ LoggedIn server moment r token expiry
  unfolding serve_login create
  login_creates e h =
      elim (Result-cases (post_json server.platform server.platform.decode_login login_labels r)) [
        | inr (x, q) ↦ inl (ground arith)
        | inl (payload, q) ↦ elim (Option-cases moment.random) [
          | inl n ↦ inl (ground arith)
          | inr (buf, d) ↦ elim (Bool-cases (text_eq (encode buf) token)) [
            | inr m ↦ inl (
                ground
                  (arith, lookup-insert (encode buf) token (moment.now + session_duration) store))
            | inl m ↦
                elim (Bool-cases (
                  text_eq payload.username server.account.username
                  && text_eq payload.password server.account.password)) [
                    | inr n ↦ inl (ground arith)
                    | inl n ↦ inr (record {
                      path = (endpoint_path r.path).4 e;
                      payload = payload;
                      accepted =
                          (post_json_accepts server.platform server.platform.decode_login
                              login_labels r payload).0
                            q;
                      username = text_eq→eq payload.username server.account.username (ground arith);
                      password = text_eq→eq payload.password server.account.password (ground arith);
                      buf = buf;
                      drawn = d;
                      token_is = sym (text_eq→eq (encode buf) token m);
                      expiry_is = ground (
                        arith,
                        lookup-insert (encode buf) token (moment.now + session_duration) store,
                      );
                    })
                  ]
          ]
        ]
      ]

  dispatch_sessions :
      (e : Endpoint)
      → endpoint_of routes r.path ≡ e
      → lookup token (dispatch server moment e r store).store ≡ some expiry
      → (lookup token store ≡ some expiry) ⊎ LoggedIn server moment r token expiry
  unfolding dispatch serve_health serve_logout serve_auth_status serve_asset require_auth_api revoke
  dispatch_sessions health q h = inl (ground arith)
  dispatch_sessions login q h = login_creates q h
  dispatch_sessions logout q h = inl (elim (Option-cases r.cookie) [
    | inl n ↦ ground arith
    | inr (c, n) ↦ ground (arith, lookup-remove c token store)
  ])
  dispatch_sessions auth_status q h =
      inl (ground (arith, authenticated_kept r moment.now store token expiry))
  dispatch_sessions search q h = inl (
      ground (
        arith,
        authenticated_kept r moment.now store token expiry,
        store-serve_search server.platform server.services r
            (is_authenticated r moment.now store).1,
      ))
  dispatch_sessions key_usage q h = inl (
      ground (
        arith,
        authenticated_kept r moment.now store token expiry,
        store-serve_daily_usage server.platform server.services r
            (is_authenticated r moment.now store).1,
      ))
  dispatch_sessions leaderboard q h = inl (
      ground (
        arith,
        authenticated_kept r moment.now store token expiry,
        store-serve_leaderboard server.platform server.services r
            (is_authenticated r moment.now store).1,
      ))
  dispatch_sessions self_lookup q h =
      inl (ground (arith, store-serve_self_lookup server.platform server.services r store))
  dispatch_sessions assets q h =
      inl (ground (arith, authenticated_kept r moment.now store token expiry))

  -- Every session that exists after a request existed before it with the same expiry, or the request
  -- is a login with the name and the password of the account, which created it for 24 hours.
  pub serve-sessions :
      lookup token (serve server moment r store).store ≡ some expiry
      → (lookup token store ≡ some expiry) ⊎ LoggedIn server moment r token expiry
  unfolding serve route
  serve-sessions h = elim (Option-cases (server.platform.mux_redirect r)) [
    | inr (l, m) ↦ inl (ground arith)
    | inl m ↦ dispatch_sessions (endpoint_of routes r.path) refl (ground arith)
  ]

cookies-post_json :
    {P : Type 0} (p : Platform) (decode : Decoder P) (labels : Labels) (r : HttpRequest)
    {e : Response}
    → post_json p decode labels r ≡ err e
    → e.cookies ≡ none
unfolding post_json decode_body write_error write_json set_header
cookies-post_json p decode labels r h = ground arith

-- A login is answered with the cookie of a session exactly when the request is accepted, names the
-- account, and random bytes are drawn, whose encoding is the token; the session then runs for 24
-- hours.
serve_login_succeeds :
    (p : Platform) (account : Account) (moment : Moment) (r : HttpRequest) (store : Store)
    (token : Text)
    → ((serve_login p account moment r store).response.cookies ≡ some (remember token)) ↔ (
        (payload : LoginPayload) × Accepted p p.decode_login r payload
        × (payload.username ≡ account.username)
        × (payload.password ≡ account.password)
        × (buf : Text) × (moment.random ≡ some buf)
        × (token ≡ encode buf)
        × ((serve_login p account moment r store).store
            ≡ insert token (moment.now + session_duration) store))
unfolding serve_login create set_cookie write_error write_json
serve_login_succeeds p account moment r store token = (
  λ h. elim (Result-cases (post_json p p.decode_login login_labels r)) [
    | inr (x, q) ↦ absurd (ground (arith, cookies-post_json p p.decode_login login_labels r q))
    | inl (payload, q) ↦ elim (Option-cases moment.random) [
      | inl n ↦ absurd (ground arith)
      | inr (buf, d) ↦
          elim (Bool-cases (
            text_eq payload.username account.username
            && text_eq payload.password account.password)) [
              | inr n ↦ absurd (ground arith)
              | inl n ↦ (
                payload,
                (post_json_accepts p p.decode_login login_labels r payload).0 q,
                text_eq→eq payload.username account.username (ground arith),
                text_eq→eq payload.password account.password (ground arith),
                buf,
                d,
                ground arith,
                ground arith,
              )
            ]
    ]
  ],
  λ (payload, a, u, w, buf, d, t, k). ground (
    arith,
    (post_json_accepts p p.decode_login login_labels r payload).1 a,
    text_eq_iff payload.username account.username,
    text_eq_iff payload.password account.password,
  ),
)
