-- ===== src/Postgres/Pool/Opening.antt =====
-- internal/postgres/pool.go: OpenPool and OpenLightPool. The driver's `ParseConfig` and `NewWithConfig` are
-- parameters.
use usage_viewer.Prelude.{
  ◌≡◌, refl, sym, ap, ◌∙◌, inl, inr, Bool, true, not, Option, none, some, Result, ok, err, ◌>>=◌,
  Text, bytes, pos, arith, ◌↔◌, Bool-cases, Option-cases, Result-cases, if◌then◌else◌,
}
use usage_viewer.Diagnostics.{GoError, plain}
use usage_viewer.Postgres.Catalog.{connectivity_probe_sql}
use usage_viewer.Postgres.Contract.{current_contract}
use usage_viewer.Postgres.Admission.{Snapshot}
use usage_viewer.Postgres.Admission.Decision.{Admitted}
use usage_viewer.Postgres.Stages.{connectivity, at_stage}
use usage_viewer.Postgres.Preflight.{
  Connection, check_light_admission, check_connection_admission, collect_snapshot,
}
use usage_viewer.Postgres.Preflight.Evidence.{check_connection_admission_iff}
use usage_viewer.Postgres.Pool.{PoolSettings, PoolConfig, build_pool_config, after_connect}

-- A pool: its configuration and its AfterConnect, for the answers of a connection.
pub record Opened : Type 0 where
  pub config : PoolConfig
  pub admit : Option Connection → Result GoError (Unit {0})

-- The pool with boundedAfterConnect
abbrev opened_as :
    (Option Connection → Text → Result GoError (Unit {0})) → PoolSettings → PoolConfig → Opened
opened_as admission s config = record {
  config = config;
  admit = λ conn. after_connect (admission conn s.expected_role);
}

abbrev or_connectivity : Option GoError → Opened → Result GoError Opened
or_connectivity none pool = ok pool
or_connectivity (some e) pool = err (at_stage connectivity e)

-- OpenPool and OpenLightPool, which differ in the admission of their connections; `available` says that
-- there is a context.
unfoldable pub open_with :
    (Option Connection → Text → Result GoError (Unit {0}))
    → Bool
    → (Text → Option GoError)
    → (PoolConfig → Option GoError)
    → PoolSettings
    → Result GoError Opened
open_with admission available parse_config new_with_config s =
    if not available
    then err (at_stage connectivity (plain (bytes "pool context unavailable")))
    else do
      config ← build_pool_config parse_config true s
      or_connectivity (new_with_config config) (opened_as admission s config)

-- OpenPool
unfoldable pub open_pool :
    Bool
    → (Text → Option GoError)
    → (PoolConfig → Option GoError)
    → PoolSettings
    → Result GoError Opened
open_pool = open_with check_connection_admission

-- OpenLightPool, whose admission ignores the expected role
unfoldable pub open_light_pool :
    Bool
    → (Text → Option GoError)
    → (PoolConfig → Option GoError)
    → PoolSettings
    → Result GoError Opened
open_light_pool = open_with (λ conn _. check_light_admission conn)

module _ (admission : Option Connection → Text → Result GoError (Unit {0})) (available : Bool)
    (parse_config : Text → Option GoError) (new_with_config : PoolConfig → Option GoError)
    (s : PoolSettings) (pool : Opened) where
  open_with-opened :
      open_with admission available parse_config new_with_config s ≡ ok pool
      → (build_pool_config parse_config true s ≡ ok pool.config)
        × (pool.admit ≡ (λ conn. after_connect (admission conn s.expected_role)))
  unfolding open_with
  open_with-opened h = elim (Bool-cases available) [
    | inr n ↦ absurd (ground arith)
    | inl a ↦ elim (Result-cases (build_pool_config parse_config true s)) [
      | inr (e, b) ↦ absurd (ground arith)
      | inl (config, b) ↦ elim (Option-cases (new_with_config config)) [
        | inr (e, w) ↦ absurd (ground arith)
        | inl w ↦
            let same : opened_as admission s config ≡ pool = ground arith in
            (b ∙ ap (λ (x : Opened). ok x.config) same, sym (ap (λ (x : Opened). x.admit) same))
      ]
    ]
  ]

after_connect_iff : (r : Result GoError (Unit {0})) → (after_connect r ≡ ok tt) ↔ (r ≡ ok tt)
unfolding after_connect
after_connect_iff (ok _) = (λ h. refl, λ h. refl)
after_connect_iff (err e) = (λ h. absurd (ground arith), λ h. absurd (ground arith))

module _ (available : Bool) (parse_config : Text → Option GoError)
    (new_with_config : PoolConfig → Option GoError) (s : PoolSettings) (pool : Opened) where
  -- A pool that `OpenPool` returns has the configuration that `buildPoolConfig` builds, and it takes in a new
  -- connection exactly when the probe of the connection gives 1 and the evidence that it shows is that of a
  -- role which the current contract admits.
  pub open_pool-admits :
      (conn : Connection)
      → open_pool available parse_config new_with_config s ≡ ok pool
      → (build_pool_config parse_config true s ≡ ok pool.config)
        × ((pool.admit (some conn) ≡ ok tt) ↔ (
            (conn.int_row connectivity_probe_sql ≡ ok (pos 1))
            × (snapshot : Snapshot) × (collect_snapshot conn current_contract ≡ ok snapshot)
            × Admitted s.expected_role current_contract snapshot))
  unfolding open_pool
  open_pool-admits conn h =
      let (config, admits) =
        open_with-opened check_connection_admission available parse_config new_with_config s pool
          h in
      let here = ap (λ (f : Option Connection → Result GoError (Unit {0})). f (some conn)) admits in
      let bounded = after_connect_iff (check_connection_admission (some conn) s.expected_role) in
      let decided = check_connection_admission_iff conn s.expected_role in
      (config, (λ a. decided.0 (bounded.0 (sym here ∙ a)), λ d. here ∙ bounded.1 (decided.1 d)))
