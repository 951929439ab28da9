-- ===== src/Creds.antt =====
-- internal/creds: where the database credentials come from. The environment and the files are
-- functions; `url.Parse`, `net.ParseIP`, `strings.ToLower`, the joining of paths and the decoders of
-- YAML and JSON are the fields of `System`.
pub mod DotEnv
pub mod Saving
use usage_viewer.Prelude.{
  ℕ, suc, ◌+◌, ◌-◌, ◌*◌, ◌/◌, ◌%◌, ltb, leb, ◌==◌, Bool, true, false, not, ◌&&◌, ◌||◌, List, [],
  ◌∷◌, ◌++◌, map, Option, none, some, Text, bytes, text_eq, trim_space, ℤ, pos, negsuc, ltb_ℤ,
  leb_ℤ, is_nil, length, max_int64, if◌then◌else◌,
}

-- Entry
pub record Entry : Type 0 where
  pub host : Text
  pub port : ℤ
  pub user : Text
  pub password : Text
  pub db_name : Text
  pub ssl_mode : Text

-- Source and its constants
pub data Source : Type 0 where
  source_env : Source
  source_config : Source
  source_saved : Source
  source_manual : Source

-- Result of the discovery
pub record Found : Type 0 where
  pub entry : Entry
  pub source : Source

-- The parts of a parsed URL that parseDatabaseURL reads.
pub record DatabaseUrl : Type 0 where
  pub scheme : Text
  pub hostname : Text
  pub port_text : Text
  pub username : Text
  pub user_password : Text
  pub path : Text
  pub sslmode : Text

-- What the discovery takes from outside; an absent file or variable is `none`.
pub record System : Type 0 where
  pub lookup_env : Text → Option Text
  pub read_file : Text → Option Text
  pub join : Text → Text → Text
  pub parse_url : Text → Option DatabaseUrl
  pub is_ip : Text → Bool
  pub to_lower : Text → Text
  pub decode_yaml : Text → Option Entry
  pub decode_json : Text → Option Entry

abbrev pub default_port : ℤ
default_port = pos 5432

-- The default of a text that is empty.
unfoldable pub or_default : Text → Text → Text
or_default fallback t = if is_nil t then fallback else t

-- The digits of strconv.Atoi, from the value read so far; `none` for another byte.
unfoldable pub read_digits : ℕ → Text → Option ℕ
read_digits n [] = some n
read_digits n (c ∷ s) =
    let rest = read_digits (n * 10 + (c - 48)) s in if leb 48 c && leb c 57 then rest else none

abbrev signed : Bool → ℕ → Option ℤ
signed negative n =
    if negative
    then (if leb n (max_int64 + 1) then some (if n == 0 then pos 0 else negsuc (n - 1)) else none)
    else (if leb n max_int64 then some (pos n) else none)

abbrev atoi_digits : Bool → Text → Option ℤ
atoi_digits negative [] = none
atoi_digits negative (c ∷ s) = elim (read_digits 0 (c ∷ s)) [
  | none ↦ none
  | some n ↦ signed negative n
]

-- strconv.Atoi, `none` for an error
unfoldable pub atoi : Text → Option ℤ
atoi [] = none
atoi (c ∷ s) =
    if c == 43
    then atoi_digits false s
    else if c == 45
    then atoi_digits true s
    else atoi_digits false (c ∷ s)

-- The port that a text names, if it is a positive number.
unfoldable pub port_of : Option Text → ℤ
port_of none = default_port
port_of (some t) = elim (atoi t) [
  | none ↦ default_port
  | some p ↦ if ltb_ℤ (pos 0) p then p else default_port
]

-- strings.TrimPrefix(path, "/")
abbrev trim_slash : Text → Text
trim_slash [] = []
trim_slash (c ∷ s) = if c == 47 then s else c ∷ s

-- parseDatabaseURL
unfoldable pub parse_database_url : System → Text → Option Entry
parse_database_url sys url = elim (sys.parse_url url) [
  | none ↦ none
  | some u ↦
      if not (text_eq u.scheme (bytes "postgres")) && not (text_eq u.scheme (bytes "postgresql"))
      then none
      else elim (if is_nil u.port_text then some default_port else atoi u.port_text) [
        | none ↦ none
        | some port ↦ some (record {
          host = u.hostname;
          port = port;
          user = u.username;
          password = u.user_password;
          db_name = trim_slash u.path;
          ssl_mode = or_default (bytes "disable") u.sslmode;
        })
      ]
]

abbrev pub value_of : Option Text → Text
value_of none = []
value_of (some t) = t

abbrev pub found : Source → Entry → Found
found source entry = record { entry = entry; source = source }

-- The individual parameters of fromEnv
unfoldable pub from_parameters : System → Option Found
from_parameters sys = elim (sys.lookup_env (bytes "DATABASE_HOST")) [
  | none ↦ none
  | some host ↦ elim (sys.lookup_env (bytes "DATABASE_USER")) [
    | none ↦ none
    | some user ↦ some (
        found source_env (record {
          host = host;
          port = port_of (sys.lookup_env (bytes "DATABASE_PORT"));
          user = user;
          password = value_of (sys.lookup_env (bytes "DATABASE_PASSWORD"));
          db_name =
              or_default (bytes "sub2api") (value_of (sys.lookup_env (bytes "DATABASE_DBNAME")));
          ssl_mode =
              or_default (bytes "disable") (value_of (sys.lookup_env (bytes "DATABASE_SSLMODE")));
        }))
  ]
]

abbrev url_variable : Text
url_variable = bytes "SUB2API_USAGE_VIEWER_DATABASE_URL"

-- fromEnv: a URL that is set but does not parse hides the parameters.
unfoldable pub from_env : System → Option Found
from_env sys = elim (sys.lookup_env url_variable) [
  | none ↦ from_parameters sys
  | some url ↦
      if is_nil (trim_space url) then from_parameters sys else elim (parse_database_url sys url) [
        | none ↦ none
        | some entry ↦ some (found source_env entry)
      ]
]

abbrev pub incomplete : Entry → Bool
incomplete e = is_nil e.host || is_nil e.user || is_nil e.db_name

abbrev pub with_port : Bool → Entry → Entry
with_port keep e = record {
  host = e.host;
  port = if keep then e.port else default_port;
  user = e.user;
  password = e.password;
  db_name = e.db_name;
  ssl_mode = or_default (bytes "disable") e.ssl_mode;
}

-- trySub2APIConfig
unfoldable pub try_sub2api_config : System → Text → Option Found
try_sub2api_config sys path = elim (sys.read_file path) [
  | none ↦ none
  | some content ↦ elim (sys.decode_yaml content) [
    | none ↦ none
    | some db ↦
        if incomplete db
        then none
        else some (found source_config (with_port (ltb_ℤ (pos 0) db.port) db))
  ]
]

-- The loop over the candidate paths
unfoldable pub first_found : (Text → Option Found) → List Text → Option Found
first_found try_path [] = none
first_found try_path (path ∷ rest) = elim (try_path path) [
  | some f ↦ some f
  | none ↦ first_found try_path rest
]

abbrev pub config_paths : System → Text → List Text
config_paths sys dir =
    sys.join dir (bytes "config.yaml")
    ∷ sys.join (sys.join dir (bytes "..")) (bytes "data/config.yaml")
    ∷ sys.join (sys.join dir (bytes "..")) (bytes "config.yaml")
    ∷ bytes "/app/data/config.yaml"
    ∷ bytes "data/config.yaml"
    ∷ bytes "../data/config.yaml"
    ∷ []

-- fromSub2APIConfig
unfoldable pub from_sub2api_config : System → Text → Option Found
from_sub2api_config sys dir = first_found (try_sub2api_config sys) (config_paths sys dir)

-- StoreFilePath
abbrev pub store_file_path : System → Text → Text
store_file_path sys dir = sys.join dir (bytes ".usage-viewer-creds.json")

-- LoadSaved and fromSavedFile
unfoldable pub load_saved : System → Text → Option Entry
load_saved sys dir = elim (sys.read_file (store_file_path sys dir)) [
  | none ↦ none
  | some content ↦ elim (sys.decode_json content) [
    | none ↦ none
    | some e ↦
        if incomplete e
        then none
        else some (with_port (ltb_ℤ (pos 0) e.port && leb_ℤ e.port (pos 65535)) e)
  ]
]

unfoldable pub from_saved_file : System → Text → Option Found
from_saved_file sys dir = elim (load_saved sys dir) [
  | none ↦ none
  | some entry ↦ some (found source_saved entry)
]
