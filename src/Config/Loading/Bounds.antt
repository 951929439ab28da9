-- ===== src/Config/Loading/Bounds.antt =====
-- internal/config/config.go: what a loaded configuration keeps to.
use mathlib.Core.Path.{subst}
use usage_viewer.Prelude.{
  ap, ℕ, ◌*◌, ◌≤◌, ◌≡◌, ◌↔◌, refl, inl, inr, ◌⊎◌, Bool, true, false, not, ◌||◌, [], ◌∷◌, Result, ok,
  err, ◌>>=◌, some, Text, bytes, ℤ, pos, negsuc, ◌≤ℤ◌, ltb_ℤ, is_nil, Bool-cases, Option-cases,
  arith,
}
use usage_viewer.Diagnostics.{GoError}
use usage_viewer.Creds.{atoi}
use usage_viewer.Config.{
  Library, Config, hour, validate_listen_address, positive_duration, bounded_int32, in_range,
  value_or_default, parse_strict_bool,
}
use usage_viewer.Config.Urls.{validate_database_url}
use usage_viewer.Config.Loading.{checked_database_url, load}

bind_ok {ℓ κ} :
    {A : Type ℓ} {B : Type κ} (r : Result GoError A) (f : A → Result GoError B) (b : B)
    → (r >>= f) ≡ ok b
    → (a : A) × (r ≡ ok a) × (f a ≡ ok b)
bind_ok (ok a) f b h = (a, refl, h)
bind_ok (err e) f b h = absurd (ground arith)

from_ok : {A : Type 0} → A → Result GoError A → A
from_ok fallback (ok a) = a
from_ok fallback (err e) = fallback

ok_injective : {A : Type 0} {a b : A} → ◌≡◌ {A = Result GoError A} (ok a) (ok b) → a ≡ b
unfolding from_ok
ok_injective {a = a} h = ap (from_ok a) h

positive_duration_positive :
    (lib : Library) (key fallback : Text) (d : ℤ)
    → positive_duration lib key fallback ≡ ok d
    → pos 1 ≤ℤ d
unfolding positive_duration
positive_duration_positive lib key fallback d h = ground arith

bounded_int32_bounds :
    (lib : Library) (key fallback : Text) (low high n : ℤ)
    → bounded_int32 lib key fallback low high ≡ ok n
    → (low ≤ℤ n) × (n ≤ℤ high)
unfolding bounded_int32
bounded_int32_bounds lib key fallback low high n h = (ground arith, ground arith)

positive_port :
    (port : ℤ)
    → (ltb_ℤ port (pos 1) || ltb_ℤ (pos 65535) port) ≡ false
    → (n : ℕ) × (port ≡ pos n) × (1 ≤ n) × (n ≤ 65535)
positive_port (pos n) h = (n, refl, ground arith, ground arith)
positive_port (negsuc n) h = absurd (ground arith)

-- A listen address is accepted exactly when it is an IP address and a port from 1 to 65535, and the
-- address is a loopback one unless another one is acknowledged.
validate_listen_address_iff :
    (lib : Library) (address : Text) (acknowledged : Bool)
    → (validate_listen_address lib address acknowledged ≡ ok tt) ↔ (
        (host : Text) × (port_text : Text) × (n : ℕ) × (lib.split_host_port address
          ≡ some (host, port_text))
        × (is_nil host ≡ false)
        × (lib.parse_ip host ≡ some (not acknowledged))
        × (atoi port_text ≡ some (pos n))
        × (1 ≤ n)
        × (n ≤ 65535))
unfolding validate_listen_address
validate_listen_address_iff lib address acknowledged = (
  λ h. elim (Option-cases (lib.split_host_port address)) [
    | inl a ↦ absurd (ground arith)
    | inr ((host, port_text), a) ↦ elim (Option-cases (lib.parse_ip host)) [
      | inl b ↦ absurd (ground arith)
      | inr (loopback, b) ↦ elim (Option-cases (atoi port_text)) [
        | inl c ↦ absurd (ground arith)
        | inr (port, c) ↦
            let (n, e, l, u) = positive_port port (ground arith) in
            (host, port_text, n, a, ground arith, ground arith, ground arith, l, u)
      ]
    ]
  ],
  λ (host, port_text, n, a, b, c, d, e, f). ground arith,
)

-- The configurations that `Load` may return.
pub record Loaded (lib : Library) (c : Config) : Type 0 where
  pub url : (c.database_url ≡ []) ⊎ (validate_database_url lib c.database_url ≡ true)
  pub bound : validate_listen_address lib c.listen_address c.acknowledge_non_loopback ≡ ok tt
  pub connect : pos 1 ≤ℤ c.database_connect_timeout
  pub acquire : pos 1 ≤ℤ c.database_acquire_timeout
  pub query : pos 1 ≤ℤ c.database_query_timeout
  pub max_conns : (pos 1 ≤ℤ c.database_pool_max_conns) × (c.database_pool_max_conns ≤ℤ pos 4)
  pub min_conns :
      (pos 0 ≤ℤ c.database_pool_min_conns)
      × (c.database_pool_min_conns ≤ℤ c.database_pool_max_conns)
  pub lifetime : pos 1 ≤ℤ c.database_max_conn_lifetime
  pub idle : pos 1 ≤ℤ c.database_max_conn_idle_time
  pub health : pos 1 ≤ℤ c.database_health_check_period
  pub range : (pos hour ≤ℤ c.maximum_query_range) × (c.maximum_query_range ≤ℤ pos (720 * hour))
  pub read_header : pos 1 ≤ℤ c.http_read_header_timeout
  pub read : pos 1 ≤ℤ c.http_read_timeout
  pub write : pos 1 ≤ℤ c.http_write_timeout
  pub idle_http : pos 1 ≤ℤ c.http_idle_timeout
  pub shutdown : pos 1 ≤ℤ c.shutdown_timeout

is_nil→eq : (t : Text) → is_nil t ≡ true → t ≡ []
is_nil→eq [] h = refl
is_nil→eq (x ∷ t) h = absurd (ground arith)

checked_url :
    (lib : Library) (url : Text)
    → checked_database_url lib ≡ ok url
    → (url ≡ []) ⊎ (validate_database_url lib url ≡ true)
unfolding checked_database_url
checked_url lib url h = elim (Bool-cases (is_nil url)) [
  | inl e ↦ inl (is_nil→eq url e)
  | inr e ↦ inr (ground arith)
]

in_range_bounds :
    (asked range : ℤ)
    → in_range asked ≡ ok range
    → (pos hour ≤ℤ range) × (range ≤ℤ pos (720 * hour))
unfolding in_range
in_range_bounds asked range h = (ground arith, ground arith)

-- A configuration that is loaded has a database URL that is valid or absent, a listen address that
-- is acknowledged, positive times, 1 to 4 connections of which no more are kept open, and a range
-- of queries from an hour to thirty days.
pub load-Loaded : (lib : Library) (c : Config) → load lib ≡ ok c → Loaded lib c
unfolding load
load-Loaded lib c h0 =
    let (url, e_url, h1) = bind_ok (checked_database_url lib) _ c h0 in
    let (ack, e_ack, h2) =
      bind_ok
        (parse_strict_bool (
          value_or_default lib (bytes "SUB2API_USAGE_VIEWER_ACKNOWLEDGE_NON_LOOPBACK")
            (bytes "false")))
        _ c h1 in
    let (bound, e_bound, h3) =
      bind_ok
        (validate_listen_address lib
          (value_or_default lib (bytes "SUB2API_USAGE_VIEWER_LISTEN_ADDR") (bytes "127.0.0.1:8081"))
          ack)
        _ c h2 in
    let (connect, e_connect, h4) =
      bind_ok (positive_duration lib (bytes "SUB2API_USAGE_VIEWER_DB_CONNECT_TIMEOUT") (bytes "5s"))
        _ c h3 in
    let (acquire, e_acquire, h5) =
      bind_ok (positive_duration lib (bytes "SUB2API_USAGE_VIEWER_DB_ACQUIRE_TIMEOUT") (bytes "2s"))
        _ c h4 in
    let (query, e_query, h6) =
      bind_ok (positive_duration lib (bytes "SUB2API_USAGE_VIEWER_DB_QUERY_TIMEOUT") (bytes "5s")) _
        c h5 in
    let (most, e_most, h7) =
      bind_ok
        (bounded_int32 lib (bytes "SUB2API_USAGE_VIEWER_DB_POOL_MAX_CONNS") (bytes "4") (pos 1)
          (pos 4))
        _ c h6 in
    let (least, e_least, h8) =
      bind_ok
        (bounded_int32 lib (bytes "SUB2API_USAGE_VIEWER_DB_POOL_MIN_CONNS") (bytes "0") (pos 0)
          most)
        _ c h7 in
    let (lifetime, e_lifetime, h9) =
      bind_ok
        (positive_duration lib (bytes "SUB2API_USAGE_VIEWER_DB_MAX_CONN_LIFETIME") (bytes "30m")) _
        c h8 in
    let (idle, e_idle, h10) =
      bind_ok
        (positive_duration lib (bytes "SUB2API_USAGE_VIEWER_DB_MAX_CONN_IDLE_TIME") (bytes "5m")) _
        c h9 in
    let (health, e_health, h11) =
      bind_ok
        (positive_duration lib (bytes "SUB2API_USAGE_VIEWER_DB_HEALTH_CHECK_PERIOD") (bytes "1m")) _
        c h10 in
    let (asked, e_asked, h12) =
      bind_ok (positive_duration lib (bytes "SUB2API_USAGE_VIEWER_MAX_QUERY_RANGE") (bytes "720h"))
        _ c h11 in
    let (range, e_range, h13) = bind_ok (in_range asked) _ c h12 in
    let (header, e_header, h14) =
      bind_ok
        (positive_duration lib (bytes "SUB2API_USAGE_VIEWER_HTTP_READ_HEADER_TIMEOUT") (bytes "5s"))
        _ c h13 in
    let (read, e_read, h15) =
      bind_ok (positive_duration lib (bytes "SUB2API_USAGE_VIEWER_HTTP_READ_TIMEOUT") (bytes "10s"))
        _ c h14 in
    let (write, e_write, h16) =
      bind_ok
        (positive_duration lib (bytes "SUB2API_USAGE_VIEWER_HTTP_WRITE_TIMEOUT") (bytes "15s")) _ c
        h15 in
    let (idle_http, e_idle_http, h17) =
      bind_ok (positive_duration lib (bytes "SUB2API_USAGE_VIEWER_HTTP_IDLE_TIMEOUT") (bytes "60s"))
        _ c h16 in
    let (shutdown, e_shutdown, h18) =
      bind_ok (positive_duration lib (bytes "SUB2API_USAGE_VIEWER_SHUTDOWN_TIMEOUT") (bytes "10s"))
        _ c h17 in
    subst (Loaded lib) (ok_injective h18) (record {
      url = checked_url lib url e_url;
      bound = e_bound;
      connect = positive_duration_positive lib _ _ connect e_connect;
      acquire = positive_duration_positive lib _ _ acquire e_acquire;
      query = positive_duration_positive lib _ _ query e_query;
      max_conns = bounded_int32_bounds lib _ _ (pos 1) (pos 4) most e_most;
      min_conns = bounded_int32_bounds lib _ _ (pos 0) most least e_least;
      lifetime = positive_duration_positive lib _ _ lifetime e_lifetime;
      idle = positive_duration_positive lib _ _ idle e_idle;
      health = positive_duration_positive lib _ _ health e_health;
      range = in_range_bounds asked range e_range;
      read_header = positive_duration_positive lib _ _ header e_header;
      read = positive_duration_positive lib _ _ read e_read;
      write = positive_duration_positive lib _ _ write e_write;
      idle_http = positive_duration_positive lib _ _ idle_http e_idle_http;
      shutdown = positive_duration_positive lib _ _ shutdown e_shutdown;
    })
