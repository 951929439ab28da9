-- ===== src/Config/Urls.antt =====
-- internal/config/config.go: the validation of the database URL.
pub mod Parameters
pub mod Hosts
pub mod Checked
use usage_viewer.Prelude.{
  Bool, false, not, ◌&&◌, ◌||◌, ◌==◌, List, [], ◌∷◌, ◌++◌, Option, none, some, Text, bytes, text_eq,
  trim_space, is_nil, all_of, contains, text_key, if◌then◌else◌,
}
use usage_viewer.Config.{ParsedUrl, Library}

-- allowedDatabaseURLParameters
abbrev pub allowed_parameters : List Text
allowed_parameters = bytes "sslmode" ∷ bytes "sslrootcert" ∷ bytes "sslcert" ∷ bytes "sslkey" ∷ []

-- The text up to "://", that included, and the rest.
unfoldable pub split_scheme : Text → Option (Text × Text)
split_scheme [] = none
split_scheme (a ∷ s) = elim s [
  | [] ↦ none
  | b ∷ t ↦ elim t [
    | [] ↦ none
    | c ∷ u ↦
        let rest = split_scheme s in
        if a == 58 && b == 47 && c == 47
        then some (a ∷ b ∷ c ∷ [], u)
        else elim rest [ none ↦ none | some (before, behind) ↦ some (a ∷ before, behind) ]
  ]
]

-- The authority up to the first of "/?#", which is there, and the rest.
unfoldable pub split_authority : Text → Option (Text × Text)
split_authority [] = none
split_authority (c ∷ s) =
    let rest = split_authority s in
    if c == 47 || c == 63 || c == 35
    then some ([], c ∷ s)
    else elim rest [ none ↦ none | some (authority, behind) ↦ some (c ∷ authority, behind) ]

-- The authority up to its last "@", that included, and the host behind it.
unfoldable pub split_host : Text → Text × Text
split_host [] = ([], [])
split_host (c ∷ s) =
    let (user, host) = split_host s in
    if is_nil user then (if c == 64 then (c ∷ [], host) else ([], c ∷ host)) else (c ∷ user, host)

abbrev pub starts_with_slash : Text → Bool
starts_with_slash [] = false
starts_with_slash (c ∷ s) = c == 47

-- parseDatabaseURL: a host that is an escaped path of a socket is replaced for the parser.
unfoldable pub parse_database_url_host : Library → Text → Option (ParsedUrl × Text)
parse_database_url_host lib url = elim (lib.parse_url url) [
  | some parsed ↦ some (parsed, parsed.hostname)
  | none ↦ elim (split_scheme url) [
    | none ↦ none
    | some (scheme, rest) ↦ elim (split_authority rest) [
      | none ↦ none
      | some (authority, behind) ↦
          let (user, host) = split_host authority in
          elim (lib.path_unescape host) [
            | none ↦ none
            | some decoded ↦
                if not (starts_with_slash decoded)
                then none
                else elim (lib.parse_url (scheme ++ user ++ bytes "127.0.0.1" ++ behind)) [
                  | none ↦ none
                  | some parsed ↦ some (parsed, decoded)
                ]
          ]
    ]
  ]
]

-- One parameter of the query: allowed, and given once with a value.
abbrev pub parameter_allowed : Text × List Text → Bool
parameter_allowed (key, []) = false
parameter_allowed (key, value ∷ []) = contains allowed_parameters key && not (is_nil value)
parameter_allowed (key, _ ∷ _ ∷ _) = false

-- url.Values.Get
unfoldable pub get_parameter : Text → List (Text × List Text) → Text
get_parameter key [] = []
get_parameter key ((k, []) ∷ rest) = if text_eq k key then [] else get_parameter key rest
get_parameter key ((k, v ∷ _) ∷ rest) = if text_eq k key then v else get_parameter key rest

-- Whether the host is local: a socket or a loopback address.
unfoldable pub is_local : Library → Text → Bool
is_local lib host =
    starts_with_slash host
    || elim (lib.parse_ip host) as (λ x. Bool) [ some loopback ↦ loopback | none ↦ false ]

-- The connection is verified, as the parameters ask for it.
unfoldable pub is_verified : List (Text × List Text) → Bool
is_verified parameters =
    text_eq (get_parameter (bytes "sslmode") parameters) (bytes "verify-full")
    && not (is_nil (trim_space (get_parameter (bytes "sslrootcert") parameters)))

-- validateDatabaseURL
unfoldable pub validate_database_url : Library → Text → Bool
validate_database_url lib url = elim (parse_database_url_host lib url) [
  | none ↦ false
  | some (parsed, host) ↦
      if not (text_eq parsed.scheme (bytes "postgres"))
          && not (text_eq parsed.scheme (bytes "postgresql"))
        || is_nil parsed.host
        || not (is_nil parsed.fragment)
      then false
      else elim parsed.query [
        | none ↦ false
        | some parameters ↦
            if not (all_of parameter_allowed parameters)
            then false
            else if is_nil host
            then false
            else is_local lib host || is_verified parameters
      ]
]
