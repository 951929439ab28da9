-- ===== src/Config/Loading.antt =====
-- internal/config/config.go: `Load`.
pub mod Bounds
pub mod Pooling
use usage_viewer.Prelude.{
  [], [], ℕ, Bool, true, false, not, ◌&&◌, Result, ok, err, ◌>>=◌, Option, none, some, Text, bytes,
  ℤ, pos, is_nil, if◌then◌else◌,
}
use usage_viewer.Diagnostics.{GoError}
use usage_viewer.Creds.{value_of}
use usage_viewer.Config.{
  Library, Config, configuration_error, validate_listen_address, required_value, value_or_default,
  parse_strict_bool, positive_duration, bounded_int32, resolve_data_dir, redis_number, in_range,
}
use usage_viewer.Config.Urls.{validate_database_url}

-- The first check of `Load`.
unfoldable pub checked_database_url : Library → Result GoError Text
checked_database_url lib =
    let url = required_value lib (bytes "SUB2API_USAGE_VIEWER_DATABASE_URL") in
    if not (is_nil url) && not (validate_database_url lib url)
    then err configuration_error
    else ok url

-- Load
unfoldable pub load : Library → Result GoError Config
load lib = do
  database_url ← checked_database_url lib
  acknowledged ←
      parse_strict_bool (
        value_or_default lib (bytes "SUB2API_USAGE_VIEWER_ACKNOWLEDGE_NON_LOOPBACK")
          (bytes "false"))
  bound ←
      validate_listen_address lib
        (value_or_default lib (bytes "SUB2API_USAGE_VIEWER_LISTEN_ADDR") (bytes "127.0.0.1:8081"))
        acknowledged
  connect ← positive_duration lib (bytes "SUB2API_USAGE_VIEWER_DB_CONNECT_TIMEOUT") (bytes "5s")
  acquire ← positive_duration lib (bytes "SUB2API_USAGE_VIEWER_DB_ACQUIRE_TIMEOUT") (bytes "2s")
  query ← positive_duration lib (bytes "SUB2API_USAGE_VIEWER_DB_QUERY_TIMEOUT") (bytes "5s")
  max_conns ←
      bounded_int32 lib (bytes "SUB2API_USAGE_VIEWER_DB_POOL_MAX_CONNS") (bytes "4") (pos 1) (pos 4)
  min_conns ←
      bounded_int32 lib (bytes "SUB2API_USAGE_VIEWER_DB_POOL_MIN_CONNS") (bytes "0") (pos 0)
        max_conns
  lifetime ← positive_duration lib (bytes "SUB2API_USAGE_VIEWER_DB_MAX_CONN_LIFETIME") (bytes "30m")
  idle ← positive_duration lib (bytes "SUB2API_USAGE_VIEWER_DB_MAX_CONN_IDLE_TIME") (bytes "5m")
  health ← positive_duration lib (bytes "SUB2API_USAGE_VIEWER_DB_HEALTH_CHECK_PERIOD") (bytes "1m")
  asked_range ← positive_duration lib (bytes "SUB2API_USAGE_VIEWER_MAX_QUERY_RANGE") (bytes "720h")
  range ← in_range asked_range
  read_header ←
      positive_duration lib (bytes "SUB2API_USAGE_VIEWER_HTTP_READ_HEADER_TIMEOUT") (bytes "5s")
  read ← positive_duration lib (bytes "SUB2API_USAGE_VIEWER_HTTP_READ_TIMEOUT") (bytes "10s")
  write ← positive_duration lib (bytes "SUB2API_USAGE_VIEWER_HTTP_WRITE_TIMEOUT") (bytes "15s")
  idle_http ← positive_duration lib (bytes "SUB2API_USAGE_VIEWER_HTTP_IDLE_TIMEOUT") (bytes "60s")
  shutdown ← positive_duration lib (bytes "SUB2API_USAGE_VIEWER_SHUTDOWN_TIMEOUT") (bytes "10s")
  ok (record {
    database_url = database_url;
    expected_database_role = required_value lib (bytes "SUB2API_USAGE_VIEWER_DATABASE_ROLE");
    data_dir = resolve_data_dir lib;
    listen_address =
        value_or_default lib (bytes "SUB2API_USAGE_VIEWER_LISTEN_ADDR") (bytes "127.0.0.1:8081");
    acknowledge_non_loopback = acknowledged;
    database_connect_timeout = connect;
    database_acquire_timeout = acquire;
    database_query_timeout = query;
    database_pool_max_conns = max_conns;
    database_pool_min_conns = min_conns;
    database_max_conn_lifetime = lifetime;
    database_max_conn_idle_time = idle;
    database_health_check_period = health;
    maximum_query_range = range;
    http_read_header_timeout = read_header;
    http_read_timeout = read;
    http_write_timeout = write;
    http_idle_timeout = idle_http;
    shutdown_timeout = shutdown;
    redis_host = value_or_default lib (bytes "REDIS_HOST") [];
    redis_port = redis_number (lib.lookup (bytes "REDIS_PORT")) (pos 1) (pos 6379);
    redis_password = value_of (lib.lookup (bytes "REDIS_PASSWORD"));
    redis_db = redis_number (lib.lookup (bytes "REDIS_DB")) (pos 0) (pos 0);
    auth_username = value_of (lib.lookup (bytes "SUB2API_USAGE_VIEWER_AUTH_USERNAME"));
    auth_password = value_of (lib.lookup (bytes "SUB2API_USAGE_VIEWER_AUTH_PASSWORD"));
  })
