-- ===== src/Config.antt =====
-- internal/config/config.go: the configuration from the environment. `net`, `net/url` and
-- `time.ParseDuration` are the fields of `Library`; durations are nanoseconds.
pub mod Urls
pub mod Loading
use usage_viewer.Prelude.{
  ℕ, ◌*◌, Bool, true, false, not, ◌&&◌, ◌||◌, List, [], ◌∷◌, Option, none, some, Result, ok, err,
  ◌>>=◌, Text, bytes, text_eq, trim_space, ℤ, pos, negsuc, ltb_ℤ, leb_ℤ, is_nil, if◌then◌else◌,
}
use usage_viewer.Diagnostics.{
  GoError, diagnosed, new, code_configuration, category_configuration, message_configuration,
  code_unsafe_bind, category_unsafe_bind, message_unsafe_bind,
}
use usage_viewer.Creds.{atoi, value_of}

-- The parts of a `url.URL` that validateDatabaseURL reads; the query as `url.ParseQuery` gives it.
pub record ParsedUrl : Type 0 where
  pub scheme : Text
  pub host : Text
  pub hostname : Text
  pub fragment : Text
  pub query : Option (List (Text × List Text))

-- `parse_ip` says whether the address is a loopback one; `app_data_exists` is the answer of os.Stat.
pub record Library : Type 0 where
  pub lookup : Text → Option Text
  pub parse_url : Text → Option ParsedUrl
  pub path_unescape : Text → Option Text
  pub split_host_port : Text → Option (Text × Text)
  pub parse_ip : Text → Option Bool
  pub parse_duration : Text → Option ℤ
  pub app_data_exists : Bool

-- configurationError
abbrev pub configuration_error : GoError
configuration_error =
    diagnosed (new code_configuration category_configuration message_configuration)

-- bindError
abbrev pub bind_error : GoError
bind_error = diagnosed (new code_unsafe_bind category_unsafe_bind message_unsafe_bind)

-- ValidateListenAddress
unfoldable pub validate_listen_address : Library → Text → Bool → Result GoError (Unit {0})
validate_listen_address lib address acknowledged = elim (lib.split_host_port address) [
  | none ↦ err bind_error
  | some (host, port_text) ↦ if is_nil host then err bind_error else elim (lib.parse_ip host) [
    | none ↦ err bind_error
    | some loopback ↦ elim (atoi port_text) [
      | none ↦ err bind_error
      | some port ↦
          if ltb_ℤ port (pos 1) || ltb_ℤ (pos 65535) port
          then err bind_error
          else if (loopback && acknowledged) || (not loopback && not acknowledged)
          then err bind_error
          else ok tt
    ]
  ]
]

-- requiredValue
unfoldable pub required_value : Library → Text → Text
required_value lib key = elim (lib.lookup key) [
  | none ↦ []
  | some value ↦ if is_nil (trim_space value) then [] else value
]

-- valueOrDefault
unfoldable pub value_or_default : Library → Text → Text → Text
value_or_default lib key fallback = elim (lib.lookup key) [ some value ↦ value | none ↦ fallback ]

-- parseStrictBool
unfoldable pub parse_strict_bool : Text → Result GoError Bool
parse_strict_bool value =
    if text_eq value (bytes "true")
    then ok true
    else if text_eq value (bytes "false")
    then ok false
    else err configuration_error

-- positiveDuration, with the error of its callers
unfoldable pub positive_duration : Library → Text → Text → Result GoError ℤ
positive_duration lib key fallback = elim (lib.parse_duration (value_or_default lib key fallback)) [
  | none ↦ err configuration_error
  | some duration ↦ if ltb_ℤ (pos 0) duration then ok duration else err configuration_error
]

-- boundedInt32, with the error of its callers; ParseInt refuses what 32 bits do not hold.
unfoldable pub bounded_int32 : Library → Text → Text → ℤ → ℤ → Result GoError ℤ
bounded_int32 lib key fallback minimum maximum = elim (atoi (value_or_default lib key fallback)) [
  | none ↦ err configuration_error
  | some n ↦
      if ltb_ℤ n (negsuc 2147483647) || ltb_ℤ (pos 2147483647) n
      then err configuration_error
      else if leb_ℤ minimum n && leb_ℤ n maximum
      then ok n
      else err configuration_error
]

-- resolveDataDir
unfoldable pub resolve_data_dir : Library → Text
resolve_data_dir lib =
    let dir = required_value lib (bytes "SUB2API_USAGE_VIEWER_DATA_DIR") in
    if not (is_nil dir) then dir else if lib.app_data_exists then bytes "/app/data" else bytes "."

-- Config
pub record Config : Type 0 where
  pub database_url : Text
  pub expected_database_role : Text
  pub data_dir : Text
  pub listen_address : Text
  pub acknowledge_non_loopback : Bool
  pub database_connect_timeout : ℤ
  pub database_acquire_timeout : ℤ
  pub database_query_timeout : ℤ
  pub database_pool_max_conns : ℤ
  pub database_pool_min_conns : ℤ
  pub database_max_conn_lifetime : ℤ
  pub database_max_conn_idle_time : ℤ
  pub database_health_check_period : ℤ
  pub maximum_query_range : ℤ
  pub http_read_header_timeout : ℤ
  pub http_read_timeout : ℤ
  pub http_write_timeout : ℤ
  pub http_idle_timeout : ℤ
  pub shutdown_timeout : ℤ
  pub redis_host : Text
  pub redis_port : ℤ
  pub redis_password : Text
  pub redis_db : ℤ
  pub auth_username : Text
  pub auth_password : Text

-- A number of Redis, if it is set and at least the minimum.
unfoldable pub redis_number : Option Text → ℤ → ℤ → ℤ
redis_number none minimum fallback = fallback
redis_number (some t) minimum fallback = elim (atoi t) [
  | none ↦ fallback
  | some n ↦ if leb_ℤ minimum n then n else fallback
]

abbrev pub hour : ℕ
hour = 3600000000000

-- The test of `Load` on the maximal range of a query.
unfoldable pub in_range : ℤ → Result GoError ℤ
in_range range =
    if ltb_ℤ range (pos hour) || ltb_ℤ (pos (720 * hour)) range
    then err configuration_error
    else ok range
