-- ===== src/App.antt =====
-- internal/app/app.go: how the program gets a pool, serves, and ends. What the dependencies answer is
-- a parameter, what the code does to pools and to the listener is a trace. Pools are numbered in
-- the order in which they are opened.
pub mod Logging
pub mod Wiring
pub mod Pools
pub mod Connecting
pub mod Lifecycle
use usage_viewer.Prelude.{
  ℕ, suc, Bool, true, false, not, ◌&&◌, ◌||◌, List, [], ◌∷◌, ◌++◌, Option, none, some, Text, bytes,
  is_nil, if◌then◌else◌,
}
use usage_viewer.Diagnostics.{
  GoError, Diagnostic, Cause, plain, diagnosed, caused_by, wrap, as_diagnostic, code_server,
  category_server,
}
use usage_viewer.Creds.{
  Entry, Source, source_env, source_config, source_saved, source_manual, Found, System,
}
use usage_viewer.Creds.DotEnv.{discover, connection_candidates, dsn}

-- The answer of OpenPool: an error, or a pool, that may be nil.
pub data Opening : Type 0 where
  open_failed : GoError → Opening
  open_nil : Opening
  open_pool : Opening

-- The answers for a database URL and the number of the pool; `none` is a nil function or error.
pub record Dependencies : Type 0 where
  pub open_full : Text → ℕ → Opening
  pub open_light : Option (Text → ℕ → Opening)
  pub preflight : Text → ℕ → Option GoError
  pub light_preflight : Option (Text → ℕ → Option GoError)

pub data PoolAction : Type 0 where
  pool_opened : ℕ → PoolAction
  pool_checked : ℕ → PoolAction
  pool_closed : ℕ → PoolAction

-- What openAndPreflight and establishPool return, with the actions and the number of the next pool.
pub record Attempt : Type 0 where
  pub pool : Option ℕ
  pub failure : Option GoError
  pub actions : List PoolAction
  pub next : ℕ

-- Behind the opening: the preflight, and the closing of a pool that it refuses.
unfoldable pub check_opened : ℕ → Option GoError → Attempt
check_opened n none = record {
  pool = some n;
  failure = none;
  actions = pool_opened n ∷ pool_checked n ∷ [];
  next = suc n;
}
check_opened n (some e) = record {
  pool = none;
  failure = some e;
  actions = pool_opened n ∷ pool_checked n ∷ pool_closed n ∷ [];
  next = suc n;
}

unfoldable pub after_opening : Opening → Option GoError → ℕ → Attempt
after_opening (open_failed e) check n = record {
  pool = none;
  failure = some e;
  actions = [];
  next = n;
}
after_opening open_nil check n = record { pool = none; failure = none; actions = []; next = n }
after_opening open_pool check n = check_opened n check

-- openAndPreflight
unfoldable pub open_and_preflight : Dependencies → Bool → Text → ℕ → Attempt
open_and_preflight deps light url n =
    let opening : Opening = elim deps.open_light [
      | none ↦ deps.open_full url n
      | some open_function ↦ if light then open_function url n else deps.open_full url n
    ] in
    let check : Option GoError = elim deps.light_preflight [
      | none ↦ deps.preflight url n
      | some preflight ↦ if light then preflight url n else deps.preflight url n
    ] in
    after_opening opening check n

-- The closing of a pool that came with an error, which openAndPreflight never returns.
abbrev closing : Option ℕ → List PoolAction
closing none = []
closing (some n) = pool_closed n ∷ []

-- The loop of establishPool over the candidates of one result.
unfoldable pub try_candidates : Dependencies → List Entry → Option GoError → ℕ → Attempt
try_candidates deps [] last n = record { pool = none; failure = last; actions = []; next = n }
try_candidates deps (candidate ∷ rest) last n =
    let attempt = open_and_preflight deps true (dsn candidate) n in
    let later = try_candidates deps rest attempt.failure attempt.next in
    elim attempt.failure [
      | none ↦ elim attempt.pool [
        | some p ↦ attempt
        | none ↦ record {
          pool = later.pool;
          failure = later.failure;
          actions = attempt.actions ++ later.actions;
          next = later.next;
        }
      ]
      | some e ↦ record {
        pool = later.pool;
        failure = later.failure;
        actions = attempt.actions ++ (closing attempt.pool ++ later.actions);
        next = later.next;
      }
    ]

-- What establishPool leaves behind: its results, and the source it has noted.
pub record Established : Type 0 where
  pub attempt : Attempt
  pub source : Option Source

-- The loop of establishPool over the results of the discovery.
unfoldable pub try_results :
    System → Dependencies → List Found → Option GoError → Option Source → ℕ → Established
try_results sys deps [] last source n = record {
  attempt = record { pool = none; failure = last; actions = []; next = n };
  source = source;
}
try_results sys deps (result ∷ rest) last source n =
    let attempt = try_candidates deps (connection_candidates sys result.entry) last n in
    let later = try_results sys deps rest attempt.failure (some result.source) attempt.next in
    elim attempt.pool [
      | some p ↦ record { attempt = attempt; source = some result.source }
      | none ↦ record {
        attempt = record {
          pool = later.attempt.pool;
          failure = later.attempt.failure;
          actions = attempt.actions ++ later.attempt.actions;
          next = later.attempt.next;
        };
        source = later.source;
      }
    ]

abbrev no_connection : GoError
no_connection = plain (bytes "database connection failed")

-- An attempt without a pool whose error is nil gets one of its own.
abbrev or_no_connection : Attempt → Attempt
or_no_connection a = elim a.pool [
  | some p ↦ a
  | none ↦ record {
    pool = none;
    failure = elim a.failure [ none ↦ some no_connection | some e ↦ some e ];
    actions = a.actions;
    next = a.next;
  }
]

-- establishPool; neither a pool nor an error means that there are no credentials.
unfoldable pub establish_pool : System → Dependencies → Text → Text → Option Source → Established
establish_pool sys deps database_url data_dir source =
    if not (is_nil database_url)
    then record { attempt = open_and_preflight deps false database_url 0; source = source }
    else elim (discover sys data_dir) [
      | [] ↦ record {
        attempt = record { pool = none; failure = none; actions = []; next = 0 };
        source = source;
      }
      | result ∷ rest ↦
          let tried = try_results sys deps (result ∷ rest) none source 0 in
          record { attempt = or_no_connection tried.attempt; source = tried.source }
    ]
