-- ===== src/Tests/Connections.antt =====
-- internal/postgres: connections, transactions and pools, at concrete answers of the driver.
use usage_viewer.Prelude.{
  arith, if◌then◌else◌, ℕ, ◌+◌, ◌≤◌, ◌≡◌, ◌↔◌, refl, true, Option, none, some, Result, ok, err,
  Text, bytes, ℤ, pos, All,
}
use usage_viewer.Postgres.Repositories.Fitting.{AgreeAlso, check_connection_admission-Agree}
use usage_viewer.Postgres.Repositories.Parameters.{has_parameters}
use usage_viewer.Postgres.Preflight.{check_light_admission}
use usage_viewer.Diagnostics.{GoError, plain}
use usage_viewer.Postgres.Catalog.{connectivity_probe_sql}
use usage_viewer.Postgres.Contract.{current_contract}
use usage_viewer.Postgres.Admission.{Snapshot}
use usage_viewer.Postgres.Admission.Decision.{Admitted}
use usage_viewer.Postgres.Preflight.{Connection, collect_snapshot, check_connection_admission}
use usage_viewer.Postgres.ReadOnly.{Outcome, Driver, returns, panics, read_committed, run_read_only}
use usage_viewer.Postgres.ReadOnly.Cleanup.{run_read_only_ends_once, run_read_only-Sound}
use usage_viewer.Postgres.ReadOnly.Cleanup.Traces.{
  count_begun, count_rolled_back, count_commit_called, count_committed, succeeded, Sound,
}
use usage_viewer.Postgres.Pool.{
  after_connect, PoolSettings, PoolConfig, Pooled, build_pool_config, run_preflight,
  settings_refused,
}
use usage_viewer.Postgres.Pool.Opening.{Opened, open_pool, open_with, open_pool-admits}
use usage_viewer.Postgres.Pool.Preflights.{Released, run_preflight-Released}

abbrev refusal : GoError
refusal = plain (bytes "refused")

-- A connection whose probe succeeds, and that refuses to say anything of its role.
abbrev silent_connection : Connection
silent_connection = record {
  int_row = λ _. ok (pos 1);
  role_row = λ _. err refusal;
  bool_row = λ _. ok true;
  authority_row = λ q a b c. err refusal;
  relation_rows = λ q a b. err refusal;
  column_rows = λ q a b c. err refusal;
}

abbrev good_driver : Driver
good_driver = record {
  context_error = none;
  begin_tx = λ o. none;
  setting = λ _. ok true;
  commit = none;
}

abbrev second : ℤ
second = pos 1000000000

abbrev panicking : Outcome ℕ
panicking = panics (bytes "nil map")

run_read_only_ends_once_example :
    let run = run_read_only true good_driver second read_committed panicking in
    (count_begun run.trace ≡ count_rolled_back run.trace + count_committed good_driver run.trace)
    × (count_committed good_driver run.trace ≡ succeeded run.outcome)
    × (count_begun run.trace ≤ 1)
    × (count_commit_called run.trace ≤ count_begun run.trace)
run_read_only_ends_once_example =
    run_read_only_ends_once true good_driver second read_committed panicking

run_read_only-Sound_example :
    All
      (Sound good_driver second)
      (run_read_only true good_driver second read_committed panicking).trace
run_read_only-Sound_example = run_read_only-Sound true good_driver second read_committed panicking

abbrev seven : Outcome ℕ
seven = returns 7

abbrev usual_settings : PoolSettings
usual_settings = record {
  database_url = bytes "postgres://viewer@db/app";
  expected_role = bytes "viewer";
  max_conns = pos 2;
  min_conns = pos 0;
  connect_timeout = pos 5000000000;
  acquire_timeout = pos 2000000000;
  query_timeout = pos 3000000000;
  max_conn_lifetime = pos 1800000000000;
  max_conn_idle_time = pos 300000000000;
  health_check_period = pos 60000000000;
}

abbrev usual_config : PoolConfig
usual_config = record {
  url = bytes "postgres://viewer@db/app";
  pool_max_conns = pos 2;
  pool_min_conns = pos 0;
  lifetime = pos 1800000000000;
  idle_time = pos 300000000000;
  check_period = pos 60000000000;
  connecting = pos 5000000000;
  application_name = bytes "sub2api-usage-viewer";
  statement_timeout = 3000;
  idle_in_transaction_timeout = 3000;
}

abbrev usual_pool : Opened
usual_pool = record {
  config = usual_config;
  admit = λ conn. after_connect (check_connection_admission conn (bytes "viewer"));
}

usual_opened : open_pool true (λ url. none) (λ c. none) usual_settings ≡ ok usual_pool
unfolding open_pool open_with build_pool_config settings_refused
usual_opened = refl

open_pool-admits_example :
    (build_pool_config (λ url. none) true usual_settings ≡ ok usual_config)
    × ((usual_pool.admit (some silent_connection) ≡ ok tt) ↔ (
        (silent_connection.int_row connectivity_probe_sql ≡ ok (pos 1))
        × (snapshot : Snapshot) × (collect_snapshot silent_connection current_contract
            ≡ ok snapshot)
        × Admitted (bytes "viewer") current_contract snapshot))
open_pool-admits_example =
    open_pool-admits true (λ url. none) (λ c. none) usual_settings usual_pool silent_connection
      usual_opened

abbrev pooled_one : Pooled
pooled_one = record {
  raw = some silent_connection;
  driver = good_driver;
  transaction_probe = λ _. ok (pos 1);
}

abbrev admits_all : Option Connection → Text → Result GoError (Unit {0})
admits_all c role = ok tt

run_preflight-Released_example :
    Released admits_all true
      (ok pooled_one)
      (bytes "viewer")
      second
      second
      (run_preflight admits_all true (ok pooled_one) (bytes "viewer") second second).trace
run_preflight-Released_example =
    run_preflight-Released admits_all true (ok pooled_one) (bytes "viewer") second second

-- The connection that answers as the other does, where the parameters are as many as the arguments.
abbrev careful_connection : Connection
careful_connection = record {
  int_row = λ s. if has_parameters 0 s then silent_connection.int_row s else err refusal;
  role_row = λ s. if has_parameters 0 s then silent_connection.role_row s else err refusal;
  bool_row = λ s. if has_parameters 0 s then silent_connection.bool_row s else err refusal;
  authority_row = λ s a b c.
      if has_parameters 3 s then silent_connection.authority_row s a b c else err refusal;
  relation_rows =
      λ s a b. if has_parameters 2 s then silent_connection.relation_rows s a b else err refusal;
  column_rows =
      λ s a b c. if has_parameters 3 s then silent_connection.column_rows s a b c else err refusal;
}

silent-AgreeAlso : AgreeAlso silent_connection careful_connection
silent-AgreeAlso = record {
  int_row = λ s h. ground (arith, h);
  bool_row = λ s h. ground (arith, h);
  role_row = λ s h. ground (arith, h);
  authority_row = λ s a b c h. ground (arith, h);
  relation_rows = λ s a b h. ground (arith, h);
  column_rows = λ s a b c h. ground (arith, h);
}

check_connection_admission-Agree_example :
    (check_light_admission (some silent_connection)
      ≡ check_light_admission (some careful_connection))
    × (check_connection_admission (some silent_connection) (bytes "viewer")
        ≡ check_connection_admission (some careful_connection) (bytes "viewer"))
check_connection_admission-Agree_example =
    check_connection_admission-Agree silent_connection careful_connection silent-AgreeAlso
      (bytes "viewer")
