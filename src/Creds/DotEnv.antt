-- ===== src/Creds/DotEnv.antt =====
-- internal/creds/discover.go: the .env file of docker-compose, and the order of the discovery.
pub mod Discovery
pub mod Digits
use usage_viewer.Prelude.{
  ℕ, zero, suc, ◌+◌, ◌/◌, ◌%◌, negsuc, ltb, leb, ◌==◌, Bool, true, not, ◌&&◌, ◌||◌, List, [], ◌∷◌,
  ◌++◌, Option, none, some, Text, bytes, text_eq, trim_space, ℤ, pos, is_nil, length, if◌then◌else◌,
}
use usage_viewer.Creds.{
  Entry, Found, System, source_config, port_of, or_default, first_found, from_env,
  from_sub2api_config, from_saved_file,
}

-- The lines of a text, split at line feeds.
unfoldable pub raw_lines : Text → List Text
raw_lines [] = []
raw_lines (c ∷ s) =
    let rest = raw_lines s in
    if c == 10 then [] ∷ rest else elim rest [ [] ↦ (c ∷ []) ∷ [] | l ∷ ls ↦ (c ∷ l) ∷ ls ]

-- bufio.MaxScanTokenSize
abbrev pub max_scan_token_size : ℕ
max_scan_token_size = 65536

-- The line without and behind the first equals sign, if there is one.
unfoldable pub split_equals : Text → Option (Text × Text)
split_equals [] = none
split_equals (c ∷ s) =
    let rest = split_equals s in
    if c == 61
    then some ([], s)
    else elim rest [ none ↦ none | some (key, value) ↦ some (c ∷ key, value) ]

abbrev pub Parameters : Type 0
Parameters = List (Text × Text)

-- params[key], the empty text where it is missing
unfoldable pub parameter : Text → Parameters → Text
parameter key [] = []
parameter key ((k, v) ∷ rest) = if text_eq k key then v else parameter key rest

abbrev is_comment : Text → Bool
is_comment [] = true
is_comment (c ∷ s) = c == 35

-- One line of readDotEnv; the parameter that was set last stands first.
unfoldable pub read_line : Text → Parameters → Parameters
read_line raw params =
    let line = trim_space raw in
    if is_comment line then params else elim (split_equals line) [
      | none ↦ params
      | some (key, value) ↦
          if is_nil (trim_space value) then params else (trim_space key, trim_space value) ∷ params
    ]

-- The loop of readDotEnv; a line that is too long for the scanner is an error.
unfoldable pub read_lines : List Text → Parameters → Option Parameters
read_lines [] params = some params
read_lines (raw ∷ rest) params =
    let later = read_lines rest (read_line raw params) in
    if leb max_scan_token_size (length raw) then none else later

-- readDotEnv
unfoldable pub read_dot_env : System → Text → Option Parameters
read_dot_env sys path = elim (sys.read_file path) [
  | none ↦ none
  | some content ↦ read_lines (raw_lines content) []
]

-- The entry of tryDotEnvFile. The source's second test of the name of the database cannot hold.
unfoldable pub dot_env_entry : Parameters → Entry
dot_env_entry params =
    let port = parameter (bytes "DATABASE_PORT") params in
    record {
      host = or_default (bytes "127.0.0.1") (parameter (bytes "DATABASE_HOST") params);
      port = port_of (if is_nil port then none else some port);
      user = parameter (bytes "POSTGRES_USER") params;
      password = parameter (bytes "POSTGRES_PASSWORD") params;
      db_name = parameter (bytes "POSTGRES_DB") params;
      ssl_mode = or_default (bytes "disable") (parameter (bytes "DATABASE_SSLMODE") params);
    }

-- tryDotEnvFile
unfoldable pub try_dot_env_file : System → Text → Option Found
try_dot_env_file sys path = elim (read_dot_env sys path) [
  | none ↦ none
  | some params ↦
      if is_nil (parameter (bytes "POSTGRES_USER") params)
        || is_nil (parameter (bytes "POSTGRES_DB") params)
      then none
      else some (record { entry = dot_env_entry params; source = source_config })
]

-- fromDotEnvFile
unfoldable pub from_dot_env_file : System → Text → Option Found
from_dot_env_file sys dir = first_found (try_dot_env_file sys) (
    sys.join dir (bytes ".env")
    ∷ sys.join (sys.join dir (bytes "..")) (bytes ".env")
    ∷ bytes "/app/.env"
    ∷ [])

abbrev pub add_found : Option Found → List Found → List Found
add_found none rest = rest
add_found (some f) rest = f ∷ rest

-- Discover; the empty list is its error.
unfoldable pub discover : System → Text → List Found
discover sys dir = add_found (from_env sys) (
    add_found (from_sub2api_config sys dir)
      (add_found (from_dot_env_file sys dir) (add_found (from_saved_file sys dir) [])))

-- The hosts of ConnectionCandidates
unfoldable pub is_service_name : System → Text → Bool
is_service_name sys host =
    let name = sys.to_lower (trim_space host) in
    not (text_eq name (bytes "localhost"))
    && not (text_eq name (bytes "127.0.0.1"))
    && not (text_eq name (bytes "::1"))
    && not (sys.is_ip name)

unfoldable pub at_host : Text → Entry → Entry
at_host host e = record {
  host = host;
  port = e.port;
  user = e.user;
  password = e.password;
  db_name = e.db_name;
  ssl_mode = e.ssl_mode;
}

-- ConnectionCandidates
unfoldable pub connection_candidates : System → Entry → List Entry
connection_candidates sys e =
    e
    ∷ (if is_service_name sys e.host
        then at_host (bytes "127.0.0.1") e ∷ at_host (bytes "localhost") e ∷ []
        else [])

-- The decimal digits of a natural number, on fuel that its value bounds.
unfoldable pub decimal : ℕ → ℕ → Text → Text
decimal zero n acc = acc
decimal (suc fuel) n acc =
    let rest = decimal fuel (n / 10) ((48 + n % 10) ∷ acc) in
    if ltb n 10 then (48 + n) ∷ acc else rest

-- The verb %d
unfoldable pub print_int : ℤ → Text
print_int (pos n) = decimal 20 n []
print_int (negsuc n) = 45 ∷ decimal 20 (suc n) []

-- Entry.DSN
unfoldable pub dsn : Entry → Text
dsn e =
    bytes "postgresql://"
    ++ e.user
    ++ bytes ":"
    ++ e.password
    ++ bytes "@"
    ++ e.host
    ++ bytes ":"
    ++ print_int e.port
    ++ bytes "/"
    ++ e.db_name
    ++ bytes "?sslmode="
    ++ e.ssl_mode
