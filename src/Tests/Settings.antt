-- ===== src/Tests/Settings.antt =====
-- internal/config: the theorems at concrete inputs.
use usage_viewer.Prelude.{
  ◌≡◌, refl, true, false, [], ◌∷◌, none, some, ok, bytes, text_eq, trim_space, pos,
}
use usage_viewer.Creds.{atoi, read_digits}
use usage_viewer.Config.{
  required_value, value_or_default, parse_strict_bool, positive_duration, bounded_int32, in_range,
  resolve_data_dir, redis_number, Library, Config, ParsedUrl, hour, validate_listen_address,
}
use usage_viewer.Config.Urls.{
  parse_database_url_host, is_local, is_verified, get_parameter, validate_database_url,
}
use usage_viewer.Config.Urls.Checked.{Checked, validate_database_url_iff}
use usage_viewer.Config.Loading.{load, checked_database_url}
use usage_viewer.Config.Loading.Bounds.{Loaded, load-Loaded}

abbrev remote_url : ParsedUrl
remote_url = record {
  scheme = bytes "postgres";
  host = bytes "db:5432";
  hostname = bytes "db";
  fragment = [];
  query = some (
      (bytes "sslmode", bytes "verify-full" ∷ [])
      ∷ (bytes "sslrootcert", bytes "/ca.pem" ∷ [])
      ∷ []);
}

-- An empty environment; every duration is read as an hour.
abbrev bare : Library
bare = record {
  lookup = λ key. none;
  parse_url = λ url. some remote_url;
  path_unescape = λ t. some t;
  split_host_port = λ t. some (bytes "127.0.0.1", bytes "8081");
  parse_ip = λ t. some true;
  parse_duration = λ t. some (pos hour);
  app_data_exists = false;
}

abbrev defaults : Config
defaults = record {
  database_url = [];
  expected_database_role = [];
  data_dir = bytes ".";
  listen_address = bytes "127.0.0.1:8081";
  acknowledge_non_loopback = false;
  database_connect_timeout = pos hour;
  database_acquire_timeout = pos hour;
  database_query_timeout = pos hour;
  database_pool_max_conns = pos 4;
  database_pool_min_conns = pos 0;
  database_max_conn_lifetime = pos hour;
  database_max_conn_idle_time = pos hour;
  database_health_check_period = pos hour;
  maximum_query_range = pos hour;
  http_read_header_timeout = pos hour;
  http_read_timeout = pos hour;
  http_write_timeout = pos hour;
  http_idle_timeout = pos hour;
  shutdown_timeout = pos hour;
  redis_host = [];
  redis_port = pos 6379;
  redis_password = [];
  redis_db = pos 0;
  auth_username = [];
  auth_password = [];
}

load-bare : load bare ≡ ok defaults
unfolding load checked_database_url required_value value_or_default parse_strict_bool
    validate_listen_address atoi read_digits positive_duration bounded_int32 in_range
    resolve_data_dir redis_number text_eq
load-bare = refl

load-Loaded_example : Loaded bare defaults
load-Loaded_example = load-Loaded bare defaults load-bare

validate_database_url_iff_example : Checked bare (bytes "postgres://db:5432/app")
unfolding validate_database_url parse_database_url_host is_local is_verified get_parameter text_eq
    trim_space
validate_database_url_iff_example =
    (validate_database_url_iff bare (bytes "postgres://db:5432/app")).0 refl
