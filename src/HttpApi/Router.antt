-- ===== src/HttpApi/Router.antt =====
-- internal/httpapi/handler.go: the routes, the embedded pages and the security headers.
pub mod Calls
pub mod Access
pub mod Logins
pub mod Headers
use usage_viewer.Prelude.{
  ℕ, ltb, ◌+◌, ◌/◌, ◌%◌, leb, ◌==◌, Bool, true, false, not, ◌&&◌, ◌||◌, List, [], ◌∷◌, ◌++◌, Option,
  none, some, Text, bytes, text_eq, contains, text_key, if◌then◌else◌,
}
use usage_viewer.Web.{asset_content_type}
use usage_viewer.HttpApi.Sessions.{Store}
use usage_viewer.HttpApi.Messages.{
  HttpRequest, Platform, Response, Content, write_header, write_error, set_header, get,
  allow_header, content_type_header,
}
use usage_viewer.HttpApi.Handlers.{
  Services, Account, Moment, Reply, answer, is_authenticated, serve_search, serve_daily_usage,
  serve_leaderboard,
}
use usage_viewer.HttpApi.Accounts.{
  serve_self_lookup, serve_login, serve_logout, serve_auth_status, serve_health,
}

-- requireAuthAPI
unfoldable pub require_auth_api :
    Moment → (HttpRequest → Store → Reply) → HttpRequest → Store → Reply
require_auth_api moment next r store =
    let (b, kept) = is_authenticated r moment.now store in
    if b
    then next r kept
    else answer (write_error 401 (bytes "UNAUTHENTICATED") (bytes "Login is required.")) [] kept

-- protectedPages
abbrev pub protected_pages : List Text
protected_pages = bytes "/keys" ∷ bytes "/leaderboard" ∷ []

-- The pages of `serveAsset`: paths and the names of their files.
abbrev pub pages : List (Text × Text)
pages =
    (bytes "/", bytes "self.html")
    ∷ (bytes "/self", bytes "self.html")
    ∷ (bytes "/app.css", bytes "app.css")
    ∷ (bytes "/app.js", bytes "app.js")
    ∷ (bytes "/credentials", bytes "credentials.html")
    ∷ (bytes "/credentials.html", bytes "credentials.html")
    ∷ (bytes "/credentials.css", bytes "credentials.css")
    ∷ (bytes "/credentials.js", bytes "credentials.js")
    ∷ (bytes "/favicon.svg", bytes "favicon.svg")
    ∷ (bytes "/keys", bytes "index.html")
    ∷ (bytes "/leaderboard", bytes "leaderboard.html")
    ∷ (bytes "/leaderboard.js", bytes "leaderboard.js")
    ∷ (bytes "/login", bytes "login.html")
    ∷ (bytes "/login.js", bytes "login.js")
    ∷ (bytes "/nav.js", bytes "nav.js")
    ∷ (bytes "/self.js", bytes "self.js")
    ∷ (bytes "/theme-init.js", bytes "theme-init.js")
    ∷ (bytes "/theme.js", bytes "theme.js")
    ∷ []

-- The switch on the path
unfoldable pub page_name : List (Text × Text) → Text → Option Text
page_name [] path = none
page_name ((p, name) ∷ rest) path = if text_eq p path then some name else page_name rest path

-- http.NotFound
unfoldable pub not_found : Response
not_found = record {
  status = 404;
  headers =
      (content_type_header, bytes "text/plain; charset=utf-8")
      ∷ (bytes "X-Content-Type-Options", bytes "nosniff")
      ∷ [];
  cookies = none;
  content = Content.plain (bytes "404 page not found\n");
}

abbrev pub hex_digit : ℕ → ℕ
hex_digit n = if ltb n 10 then 48 + n else 55 + n

-- url.QueryEscape
unfoldable pub query_escape : Text → Text
query_escape [] = []
query_escape (c ∷ s) =
    let rest = query_escape s in
    if leb 48 c && leb c 57
      || leb 65 c && leb c 90
      || leb 97 c && leb c 122
      || c == 45
      || c == 95
      || c == 46
      || c == 126
    then c ∷ rest
    else if c == 32
    then 43 ∷ rest
    else 37 ∷ hex_digit (c / 16) ∷ hex_digit (c % 16) ∷ rest

-- http.Redirect, with the headers that matter to a client: the anchor that it writes for a GET
-- request is left out.
unfoldable pub redirect : ℕ → Text → Response
redirect status location = record {
  status = status;
  headers =
      (bytes "Location", location) ∷ (content_type_header, bytes "text/html; charset=utf-8") ∷ [];
  cookies = none;
  content = Content.no_content;
}

-- The file that `serveAsset` sends.
unfoldable pub send_asset : Text → Response
send_asset name = elim (asset_content_type name) [
  | none ↦ not_found
  | some type ↦ record {
    status = 200;
    headers = (content_type_header, type) ∷ [];
    cookies = none;
    content = Content.asset name;
  }
]

-- serveAsset
unfoldable pub serve_asset : Moment → HttpRequest → Store → Reply
serve_asset moment r store = elim (page_name pages r.path) [
  | none ↦ answer not_found [] store
  | some name ↦
      if not (text_eq r.method get)
      then answer (set_header allow_header get (write_header 405)) [] store
      else if not (contains protected_pages r.path)
      then answer (send_asset name) [] store
      else let (b, kept) = is_authenticated r moment.now store in
        if b
        then answer (send_asset name) [] kept
        else answer (redirect 302 (bytes "/login?next=" ++ query_escape r.path)) [] kept
]

-- The handler: its services, the account, and the standard library it runs on.
pub record Server : Type 0 where
  pub platform : Platform
  pub services : Services
  pub account : Account

-- What the mux of NewFullHandler tells apart.
pub data Endpoint : Type 0 where
  health login logout auth_status : Endpoint
  search key_usage leaderboard self_lookup assets : Endpoint

-- The patterns of the mux; "/" matches all other paths.
abbrev pub routes : List (Text × Endpoint)
routes =
    (bytes "/livez", health)
    ∷ (bytes "/readyz", health)
    ∷ (bytes "/api/login", login)
    ∷ (bytes "/api/logout", logout)
    ∷ (bytes "/api/auth/status", auth_status)
    ∷ (bytes "/api/search", search)
    ∷ (bytes "/api/key-usage", key_usage)
    ∷ (bytes "/api/leaderboard", leaderboard)
    ∷ (bytes "/api/self-lookup", self_lookup)
    ∷ []

unfoldable pub endpoint_of : List (Text × Endpoint) → Text → Endpoint
endpoint_of [] path = assets
endpoint_of ((p, e) ∷ rest) path = if text_eq p path then e else endpoint_of rest path

unfoldable pub dispatch : Server → Moment → Endpoint → HttpRequest → Store → Reply
dispatch server moment health r store = serve_health r store
dispatch server moment login r store = serve_login server.platform server.account moment r store
dispatch server moment logout r store = serve_logout server.platform r store
dispatch server moment auth_status r store = serve_auth_status moment r store
dispatch server moment search r store =
    require_auth_api moment (serve_search server.platform server.services) r store
dispatch server moment key_usage r store =
    require_auth_api moment (serve_daily_usage server.platform server.services) r store
dispatch server moment leaderboard r store =
    require_auth_api moment (serve_leaderboard server.platform server.services) r store
dispatch server moment self_lookup r store =
    serve_self_lookup server.platform server.services r store
dispatch server moment assets r store = serve_asset moment r store

-- The mux of NewFullHandler
unfoldable pub route : Server → Moment → HttpRequest → Store → Reply
route server moment r store = elim (server.platform.mux_redirect r) [
  | some location ↦ answer (redirect 301 location) [] store
  | none ↦ dispatch server moment (endpoint_of routes r.path) r store
]

-- contentSecurityPolicy
abbrev pub content_security_policy : Text
content_security_policy =
    bytes
      "default-src 'self'; script-src 'self'; style-src 'self'; img-src 'self'; connect-src 'self'; object-src 'none'; base-uri 'none'; frame-ancestors 'none'; form-action 'self'"

-- The headers of securityHeaders
abbrev pub security_headers : List (Text × Text)
security_headers =
    (bytes "Cache-Control", bytes "no-store")
    ∷ (bytes "Content-Security-Policy", content_security_policy)
    ∷ (bytes "X-Content-Type-Options", bytes "nosniff")
    ∷ (bytes "Referrer-Policy", bytes "no-referrer")
    ∷ (
      bytes "Permissions-Policy",
      bytes "camera=(), microphone=(), geolocation=(), payment=(), usb=()",
    )
    ∷ (bytes "Cross-Origin-Resource-Policy", bytes "same-origin")
    ∷ (bytes "Cross-Origin-Opener-Policy", bytes "same-origin")
    ∷ []

-- NewFullHandler: the mux behind the security headers.
unfoldable pub serve : Server → Moment → HttpRequest → Store → Reply
serve server moment r store =
    let reply = route server moment r store in
    record {
      response = record {
        status = reply.response.status;
        headers = security_headers ++ reply.response.headers;
        cookies = reply.response.cookies;
        content = reply.response.content;
      };
      store = reply.store;
      calls = reply.calls;
    }
