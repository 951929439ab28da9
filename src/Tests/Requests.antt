-- ===== src/Tests/Requests.antt =====
-- internal/httpapi: sessions and requests, on a small platform whose decoders return fixed payloads.
use usage_viewer.Prelude.{
  err, ℕ, ◌+◌, ◌≤◌, ◌≡◌, ◌↔◌, ◌⊎◌, refl, inr, true, false, List, [], ◌∷◌, Option, none, some, Text,
  bytes, text_eq, trim_space, pos, All, contains, text_key, arith,
}
use usage_viewer.Diagnostics.{plain}
use usage_viewer.HttpApi.Sessions.{
  Store, new_store, session_duration, encode, lookup, create, valid, insert, remove,
}
use usage_viewer.HttpApi.Sessions.History.{
  Op, creates, checks, run, CreatedIn, valid-CreatedIn, valid_lasts, step,
}
use usage_viewer.HttpApi.Messages.{
  HttpRequest, Platform, Url, LoginPayload, same_origin, post_json, post, get, max_bytes_reader,
  decode_body, at_eof, no_content,
}
use usage_viewer.HttpApi.Messages.Guards.{OwnOrigin, Accepted, same_origin_iff, post_json_accepts}
use usage_viewer.HttpApi.Handlers.{
  Services, Moment, default_account, login_labels, is_authenticated,
}
use usage_viewer.HttpApi.Accounts.{serve_login, serve_self_lookup}
use usage_viewer.HttpApi.Accounts.Answers.{self_lookup_failures}
use usage_viewer.HttpApi.Router.{Server, route, dispatch, endpoint_of, serve, protected_pages}
use usage_viewer.HttpApi.Router.Calls.{Permitted}
use usage_viewer.HttpApi.Router.Access.{protected_routes, serve-calls, serve-without_session}
use usage_viewer.HttpApi.Router.Logins.{LoggedIn, serve-sessions}
use usage_viewer.HttpApi.Router.Headers.{serve-security_headers}
use usage_viewer.HttpApi.Router.Headers.Keeping.{header_value}

abbrev three_bytes : Text
three_bytes = 1 ∷ 2 ∷ 3 ∷ []

abbrev one_login : List Op
one_login = creates (some three_bytes) 5 ∷ []

abbrev token : Text
token = 65 ∷ 81 ∷ 73 ∷ 68 ∷ []

valid-CreatedIn_example : (expiry : ℕ) × (60 ≤ expiry) × CreatedIn token expiry one_login
unfolding valid run step create insert remove encode lookup text_eq
valid-CreatedIn_example = valid-CreatedIn one_login token 60 refl

valid_lasts_example :
    (valid
      (encode three_bytes)
      60
      (run new_store (creates (some three_bytes) 5 ∷ checks token 7 ∷ []))).0
    ≡ true
unfolding encode
valid_lasts_example =
    valid_lasts new_store three_bytes 5 60 (checks token 7 ∷ []) (λ e. absurd (ground arith))
      (inr (ground arith), tt) (ground arith)

abbrev site : Url
site = record {
  scheme = bytes "http";
  host = bytes "viewer";
  has_user = false;
  raw_query = [];
  fragment = [];
  path = [];
}

abbrev admin_payload : LoginPayload
admin_payload = record { username = bytes "admin"; password = bytes "usage-viewer-2026" }

abbrev fixed_platform : Platform
fixed_platform = record {
  parse_url = λ t. some site;
  parse_media_type = λ t. some t;
  equal_fold = text_eq;
  mux_redirect = λ r. none;
  decode_search = λ s. none;
  decode_daily_usage = λ s. none;
  decode_leaderboard = λ s. some (pos 10, []);
  decode_self_lookup = λ s. some (s.readable, []);
  decode_login = λ s. some (admin_payload, []);
}

abbrev request_to : Text → Option Text → HttpRequest
request_to path cookie = record {
  method = post;
  path = path;
  host = bytes "viewer";
  origin = bytes "http://viewer";
  tls = false;
  forwarded_proto = [];
  content_type = bytes "application/json";
  cookie = cookie;
  body = bytes "{}";
}

abbrev login_request : HttpRequest
login_request = request_to (bytes "/api/login") none

same_origin_iff_example : (same_origin fixed_platform login_request ≡ true) ↔ (
    (trim_space login_request.origin ≡ []) ⊎ ((u : Url) × OwnOrigin fixed_platform login_request u))
same_origin_iff_example = same_origin_iff fixed_platform login_request

post_json_accepts_example :
    Accepted fixed_platform fixed_platform.decode_login login_request admin_payload
unfolding post_json same_origin decode_body max_bytes_reader at_eof text_eq trim_space
post_json_accepts_example =
    (post_json_accepts fixed_platform fixed_platform.decode_login login_labels login_request
        admin_payload).0
      refl

abbrev empty_services : Services
empty_services = record {
  search = none;
  daily_usage = none;
  leaderboard = some (λ limit. some []);
  self_lookup = some (λ credential. err (plain (bytes "self-lookup credential is invalid")));
}

abbrev small_server : Server
small_server = record {
  platform = fixed_platform;
  services = empty_services;
  account = default_account;
}

abbrev at_sixty : Moment
at_sixty = record { now = 60; random = some three_bytes }

abbrev logged_in : Store
logged_in = (token, 100) ∷ []

abbrev leaderboard_request : HttpRequest
leaderboard_request = request_to (bytes "/api/leaderboard") (some token)

serve-calls_example :
    All
      (Permitted small_server at_sixty leaderboard_request logged_in)
      (serve small_server at_sixty leaderboard_request logged_in).calls
serve-calls_example = serve-calls small_server at_sixty leaderboard_request logged_in

abbrev anonymous_request : HttpRequest
anonymous_request = request_to (bytes "/api/leaderboard") none

serve-without_session_example :
    (contains protected_routes anonymous_request.path ≡ true
      → ((serve small_server at_sixty anonymous_request logged_in).response.status ≡ 401)
        × ((serve small_server at_sixty anonymous_request logged_in).calls ≡ []))
    × (contains protected_pages anonymous_request.path ≡ true
        → anonymous_request.method ≡ get
        → ((serve small_server at_sixty anonymous_request logged_in).response.status ≡ 302)
          × ((serve small_server at_sixty anonymous_request logged_in).response.content
              ≡ no_content))
unfolding is_authenticated
serve-without_session_example =
    serve-without_session small_server at_sixty anonymous_request logged_in refl refl

serve-sessions_example :
    (lookup token new_store ≡ some (60 + session_duration))
    ⊎ LoggedIn small_server at_sixty login_request token (60 + session_duration)
unfolding serve route dispatch endpoint_of serve_login create post_json same_origin decode_body
    max_bytes_reader at_eof text_eq trim_space encode insert remove lookup
serve-sessions_example = serve-sessions small_server at_sixty login_request new_store refl

serve-security_headers_example :
    header_value
      (bytes "X-Content-Type-Options")
      (serve small_server at_sixty login_request new_store).response.headers
    ≡ some (bytes "nosniff")
unfolding header_value text_eq
serve-security_headers_example =
    serve-security_headers small_server at_sixty login_request new_store
      (bytes "X-Content-Type-Options") (bytes "nosniff") refl

abbrev self_request : HttpRequest
self_request = request_to (bytes "/api/self-lookup") none

abbrev broken_services : Services
broken_services = record {
  search = none;
  daily_usage = none;
  leaderboard = none;
  self_lookup = some (λ credential. err (plain (bytes "connection lost")));
}

self-Accepted : Accepted fixed_platform fixed_platform.decode_self_lookup self_request (bytes "{}")
unfolding same_origin max_bytes_reader text_eq trim_space
self-Accepted = record {
  is_post = refl;
  origin = refl;
  media = refl;
  bounded = ground arith;
  rest = [];
  decoded = refl;
  only_space = refl;
}

self_lookup_failures_example :
    (serve_self_lookup fixed_platform empty_services self_request new_store).response
    ≡ (serve_self_lookup fixed_platform broken_services self_request new_store).response
self_lookup_failures_example =
    (self_lookup_failures fixed_platform empty_services broken_services self_request self_request
        new_store (bytes "{}") (bytes "{}") self-Accepted self-Accepted
        (inr (_, plain (bytes "self-lookup credential is invalid"), refl, refl))).1
      (inr (_, plain (bytes "connection lost"), refl, refl))
