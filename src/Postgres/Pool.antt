-- ===== src/Postgres/Pool.antt =====
-- internal/postgres/pool.go: the settings of a pool, the check of each new connection, and the
-- preflights. Acquiring and releasing a connection show in the trace. Durations are `int64`
-- nanoseconds, and a sum of two is taken to fit.
pub mod Guards
pub mod Preflights
pub mod Opening
use usage_viewer.Prelude.{
  ℕ, ◌/◌, Bool, true, false, not, ◌||◌, List, [], ◌∷◌, ◌++◌, Option, none, some, Result, ok, err,
  Text, bytes, ℤ, pos, negsuc, pos_part, ltb_ℤ, leb_ℤ, eqb_ℤ, if◌then◌else◌,
}
use usage_viewer.Postgres.Catalog.{connectivity_probe_sql}
use usage_viewer.Diagnostics.{
  GoError, Diagnostic, plain, diagnosed, new, as_diagnostic, code_configuration,
  category_configuration, message_configuration,
}
use usage_viewer.Postgres.Stages.{connectivity, at_stage}
use usage_viewer.Postgres.Preflight.{Connection, check_light_admission}
use usage_viewer.Postgres.ReadOnly
use usage_viewer.Postgres.ReadOnly.{
  Driver, Outcome, returns, fails, panics, read_committed, run_read_only,
}

-- The part of config.Config that the pool reads.
pub record PoolSettings : Type 0 where
  pub database_url : Text
  pub expected_role : Text
  pub max_conns : ℤ
  pub min_conns : ℤ
  pub connect_timeout : ℤ
  pub acquire_timeout : ℤ
  pub query_timeout : ℤ
  pub max_conn_lifetime : ℤ
  pub max_conn_idle_time : ℤ
  pub health_check_period : ℤ

-- What buildPoolConfig sets on a parsed configuration; the timeouts of the session are in
-- milliseconds.
pub record PoolConfig : Type 0 where
  pub url : Text
  pub pool_max_conns : ℤ
  pub pool_min_conns : ℤ
  pub lifetime : ℤ
  pub idle_time : ℤ
  pub check_period : ℤ
  pub connecting : ℤ
  pub application_name : Text
  pub statement_timeout : ℕ
  pub idle_in_transaction_timeout : ℕ

-- hardMaximumPoolConnections
abbrev pub hard_maximum_pool_connections : ℕ
hard_maximum_pool_connections = 4

abbrev pub millisecond : ℕ
millisecond = 1000000

-- The first test of buildPoolConfig.
unfoldable pub settings_refused : Bool → PoolSettings → Bool
settings_refused has_admission s =
    not has_admission
    || ltb_ℤ s.max_conns (pos 1)
    || ltb_ℤ (pos hard_maximum_pool_connections) s.max_conns
    || ltb_ℤ s.min_conns (pos 0)
    || ltb_ℤ s.max_conns s.min_conns
    || leb_ℤ s.connect_timeout (pos 0)
    || leb_ℤ s.acquire_timeout (pos 0)
    || ltb_ℤ s.query_timeout (pos millisecond)
    || leb_ℤ s.max_conn_lifetime (pos 0)
    || leb_ℤ s.max_conn_idle_time (pos 0)
    || leb_ℤ s.health_check_period (pos 0)

abbrev pub configuration_diagnostic : Diagnostic
configuration_diagnostic = new code_configuration category_configuration message_configuration

-- buildPoolConfig, with the driver's parser of URLs as a parameter.
unfoldable pub build_pool_config :
    (Text → Option GoError) → Bool → PoolSettings → Result GoError PoolConfig
build_pool_config parse_config has_admission s =
    if settings_refused has_admission s
    then err (diagnosed configuration_diagnostic)
    else elim (parse_config s.database_url) [
      | some e ↦ err (at_stage connectivity e)
      | none ↦ ok (record {
        url = s.database_url;
        pool_max_conns = s.max_conns;
        pool_min_conns = s.min_conns;
        lifetime = s.max_conn_lifetime;
        idle_time = s.max_conn_idle_time;
        check_period = s.health_check_period;
        connecting = s.connect_timeout;
        application_name = bytes "sub2api-usage-viewer";
        statement_timeout = pos_part s.query_timeout / millisecond;
        idle_in_transaction_timeout = pos_part s.query_timeout / millisecond;
      })
    ]

-- sanitizeConnectionError, which boundedAfterConnect and the preflights repeat for an admission.
unfoldable pub sanitize : GoError → GoError
sanitize e = elim (as_diagnostic e) [ some d ↦ diagnosed d | none ↦ at_stage connectivity e ]

-- boundedAfterConnect, at the answer of the admission.
unfoldable pub after_connect : Result GoError (Unit {0}) → Result GoError (Unit {0})
unfolding sanitize
after_connect (ok _) = ok tt
after_connect (err e) = err (sanitize e)

pub data PoolEvent : Type 0 where
  acquired : PoolEvent
  released : PoolEvent
  admission : PoolEvent
  in_transaction : ReadOnly.Event → PoolEvent

pub record Preflight : Type 0 where
  pub trace : List PoolEvent
  pub outcome : Outcome (Unit {0})

-- A connection of the pool: its answers, and the driver of its transactions. The
-- transaction answers to the statement of its probe.
pub record Pooled : Type 0 where
  pub raw : Option Connection
  pub driver : Driver
  pub transaction_probe : Text → Result GoError ℤ

lift_trace : List ReadOnly.Event → List PoolEvent
lift_trace [] = []
lift_trace (e ∷ es) = in_transaction e ∷ lift_trace es

-- The body of the transaction of runPreflight.
unfoldable pub probe_body : Result GoError ℤ → Outcome (Unit {0})
probe_body (err e) = fails e
probe_body (ok n) =
    if eqb_ℤ n (pos 1)
    then returns tt
    else fails (plain (bytes "transaction probe returned unexpected evidence"))

-- Behind `defer connection.Release()`.
unfoldable pub releasing : Preflight → Preflight
releasing p = record { trace = acquired ∷ (p.trace ++ released ∷ []); outcome = p.outcome }

failed : GoError → Preflight
failed e = record { trace = []; outcome = fails e }

refused_admission : GoError → Preflight
refused_admission e = record { trace = admission ∷ []; outcome = fails e }

-- runLightPreflight; `available` says that context and acquirer are there.
unfoldable pub run_light_preflight : Bool → Result GoError Pooled → ℤ → ℤ → Preflight
unfolding releasing failed refused_admission sanitize
run_light_preflight available acquire acquire_timeout query_timeout =
    if not available || leb_ℤ acquire_timeout (pos 0) || leb_ℤ query_timeout (pos 0)
    then failed (at_stage connectivity (plain (bytes "preflight configuration invalid")))
    else elim acquire [
      | err e ↦ failed (sanitize e)
      | ok pooled ↦ elim (check_light_admission pooled.raw) [
        | err e ↦ releasing (refused_admission (sanitize e))
        | ok _ ↦ releasing (record { trace = admission ∷ []; outcome = returns tt })
      ]
    ]

-- runPreflight from the admission of the acquired connection on; the admission is a parameter.
unfoldable pub admitted_probe :
    (Option Connection → Text → Result GoError (Unit {0})) → Pooled → Text → ℤ → Preflight
unfolding refused_admission lift_trace
admitted_probe admit pooled role query_timeout = elim (admit pooled.raw role) [
  | err e ↦ refused_admission (sanitize e)
  | ok _ ↦
      let run =
        run_read_only true pooled.driver query_timeout read_committed
          (probe_body (pooled.transaction_probe connectivity_probe_sql)) in
      record { trace = admission ∷ lift_trace run.trace; outcome = run.outcome }
]

-- runPreflight
unfoldable pub run_preflight :
    (Option Connection → Text → Result GoError (Unit {0}))
    → Bool
    → Result GoError Pooled
    → Text
    → ℤ
    → ℤ
    → Preflight
unfolding failed
run_preflight admit available acquire role acquire_timeout query_timeout =
    if not available || leb_ℤ acquire_timeout (pos 0) || leb_ℤ query_timeout (pos 0)
    then failed (at_stage connectivity (plain (bytes "preflight configuration invalid")))
    else elim acquire [
      | err e ↦ failed (sanitize e)
      | ok pooled ↦ releasing (admitted_probe admit pooled role query_timeout)
    ]
