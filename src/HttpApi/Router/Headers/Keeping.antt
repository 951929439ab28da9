-- ===== src/HttpApi/Router/Headers/Keeping.antt =====
-- internal/httpapi: no handler takes a security header back.
use usage_viewer.Prelude.{
  ℕ, ◌≡◌, refl, sym, ◌∙◌, inl, inr, Bool, true, List, [], ◌∷◌, ◌++◌, Option, none, some, err, Text,
  bytes, text_eq, text_eq→eq, all_of, Option-cases, Result-cases, arith, if◌then◌else◌,
}
use usage_viewer.HttpApi.Sessions.{Store}
use usage_viewer.HttpApi.Messages.{
  HttpRequest, Platform, Decoder, Labels, Response, write_header, post_json, decode_body,
  write_error, write_json, set_header, allow_header, get,
}
use usage_viewer.HttpApi.Handlers.{
  Moment, serve_search, serve_daily_usage, serve_leaderboard, run_search, run_daily_usage,
  run_leaderboard, search_labels, daily_labels, leaderboard_labels, self_labels, login_labels,
}
use usage_viewer.HttpApi.Accounts.{
  run_self_lookup, serve_self_lookup, serve_login, serve_logout, serve_auth_status, serve_health,
  set_cookie,
}
use usage_viewer.HttpApi.Router.{Server, send_asset, redirect, not_found, security_headers}

-- The value that a client sees: the last one set.
unfoldable pub header_value : Text → List (Text × Text) → Option Text
header_value name [] = none
header_value name ((n, v) ∷ rest) = elim (header_value name rest) [
  | some w ↦ some w
  | none ↦ if text_eq n name then some v else none
]

keeps : (Text × Text) → Bool
keeps (n, v) = elim (header_value n security_headers) [ none ↦ true | some w ↦ text_eq v w ]

pub keeps_all : List (Text × Text) → Bool
keeps_all hs = all_of keeps hs

pub kept_value :
    (name : Text) (hs : List (Text × Text)) {v w : Text}
    → keeps_all hs ≡ true
    → header_value name security_headers ≡ some v
    → header_value name hs ≡ some w
    → w ≡ v
unfolding header_value keeps keeps_all
kept_value name [] k s h = absurd (ground arith)
kept_value name ((n, x) ∷ hs) {v} {w} k s h = elim (Option-cases (header_value name hs)) [
  | inr (y, q) ↦ kept_value name hs (ground arith) s (ground arith)
  | inl q ↦
      let here : header_value n security_headers ≡ some v =
        rw (text_eq→eq n name (ground arith)) s in
      let equal : text_eq x v ≡ true = ground arith in
      let set_here : x ≡ w = ground arith in sym set_here ∙ text_eq→eq x v equal
]

pub value-append :
    (name : Text) (xs hs : List (Text × Text))
    → header_value name (xs ++ hs)
      ≡ elim (header_value name hs) [ some w ↦ some w | none ↦ header_value name xs ]
unfolding header_value
value-append name [] hs = ground arith
value-append name ((n, v) ∷ xs) hs = ground (arith, value-append name xs hs)

module _ {P : Type 0} (p : Platform) (decode : Decoder P) (labels : Labels) (r : HttpRequest)
    {e : Response} where
  keeps-post_json : post_json p decode labels r ≡ err e → keeps_all e.headers ≡ true
  unfolding post_json decode_body write_error write_json set_header keeps_all keeps header_value
      text_eq
  keeps-post_json h = ground arith

module _ (server : Server) (moment : Moment) (r : HttpRequest) (store : Store) where
  pub keeps-serve_search :
      keeps_all (serve_search server.platform server.services r store).response.headers ≡ true
  unfolding serve_search run_search write_error write_json keeps_all keeps header_value text_eq
  keeps-serve_search =
      elim (Result-cases
        (post_json server.platform server.platform.decode_search search_labels r)) [
          | inr (e, q) ↦ ground (
            arith,
            keeps-post_json server.platform server.platform.decode_search search_labels r q,
          )
          | inl (x, q) ↦ ground arith
        ]

  pub keeps-serve_daily_usage :
      keeps_all (serve_daily_usage server.platform server.services r store).response.headers ≡ true
  unfolding serve_daily_usage run_daily_usage write_error write_json keeps_all keeps header_value
      text_eq
  keeps-serve_daily_usage =
      elim (Result-cases
        (post_json server.platform server.platform.decode_daily_usage daily_labels r)) [
          | inr (e, q) ↦ ground (
            arith,
            keeps-post_json server.platform server.platform.decode_daily_usage daily_labels r q,
          )
          | inl (x, q) ↦ ground arith
        ]

  pub keeps-serve_leaderboard :
      keeps_all (serve_leaderboard server.platform server.services r store).response.headers ≡ true
  unfolding serve_leaderboard run_leaderboard write_error write_json keeps_all keeps header_value
      text_eq
  keeps-serve_leaderboard =
      elim (Result-cases
        (post_json server.platform server.platform.decode_leaderboard leaderboard_labels r)) [
          | inr (e, q) ↦ ground (
            arith,
            keeps-post_json server.platform server.platform.decode_leaderboard leaderboard_labels r
                q,
          )
          | inl (x, q) ↦ ground arith
        ]

  pub keeps-serve_self_lookup :
      keeps_all (serve_self_lookup server.platform server.services r store).response.headers ≡ true
  unfolding serve_self_lookup run_self_lookup write_error write_json keeps_all keeps header_value
      text_eq
  keeps-serve_self_lookup =
      elim (Result-cases
        (post_json server.platform server.platform.decode_self_lookup self_labels r)) [
          | inr (e, q) ↦ ground (
            arith,
            keeps-post_json server.platform server.platform.decode_self_lookup self_labels r q,
          )
          | inl (x, q) ↦ ground arith
        ]

  pub keeps-serve_login :
      keeps_all (serve_login server.platform server.account moment r store).response.headers ≡ true
  unfolding serve_login set_cookie write_error write_json keeps_all keeps header_value text_eq
  keeps-serve_login =
      elim (Result-cases (post_json server.platform server.platform.decode_login login_labels r)) [
        | inr (e, q) ↦
            ground
              (arith, keeps-post_json server.platform server.platform.decode_login login_labels r q)
        | inl (x, q) ↦ ground arith
      ]

  pub keeps-serve_logout : keeps_all (serve_logout server.platform r store).response.headers ≡ true
  unfolding serve_logout set_cookie set_header write_error write_json keeps_all keeps header_value
      text_eq
  keeps-serve_logout = ground arith

  pub keeps-serve_auth_status : keeps_all (serve_auth_status moment r store).response.headers ≡ true
  unfolding serve_auth_status set_header write_error write_json keeps_all keeps header_value text_eq
  keeps-serve_auth_status = ground arith

  pub keeps-serve_health : keeps_all (serve_health r store).response.headers ≡ true
  unfolding serve_health set_header write_header keeps_all keeps header_value text_eq
  keeps-serve_health = ground arith

  pub keeps-send_asset : (name : Text) → keeps_all (send_asset name).headers ≡ true
  unfolding send_asset not_found keeps_all keeps header_value text_eq
  keeps-send_asset name = ground arith

  pub keeps-redirect :
      (status : ℕ) (location : Text) → keeps_all (redirect status location).headers ≡ true
  unfolding redirect keeps_all keeps header_value text_eq
  keeps-redirect status location = refl

  pub keeps-not_found : keeps_all not_found.headers ≡ true
  unfolding not_found keeps_all keeps header_value text_eq
  keeps-not_found = refl

pub keeps-method_not_allowed :
    keeps_all (set_header allow_header get (write_header 405)).headers ≡ true
unfolding keeps_all keeps header_value text_eq set_header write_header
keeps-method_not_allowed = refl

pub keeps-unauthenticated :
    keeps_all (write_error 401 (bytes "UNAUTHENTICATED") (bytes "Login is required.")).headers
    ≡ true
unfolding keeps_all keeps header_value text_eq write_error write_json
keeps-unauthenticated = refl
