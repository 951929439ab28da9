-- ===== src/Config/Loading/Pooling.antt =====
-- internal/config/config.go and internal/postgres/pool.go: a loaded configuration as the settings of a pool.
use usage_viewer.Prelude.{◌≡◌, true, ok, pos, ltb_ℤ, arith}
use usage_viewer.Config.{Library, Config}
use usage_viewer.Config.Loading.{load}
use usage_viewer.Config.Loading.Bounds.{load-Loaded}
use usage_viewer.Postgres.Pool.{PoolSettings, settings_refused, millisecond}

-- The fields of a configuration that buildPoolConfig reads.
abbrev pub pool_settings : Config → PoolSettings
pool_settings c = record {
  database_url = c.database_url;
  expected_role = c.expected_database_role;
  max_conns = c.database_pool_max_conns;
  min_conns = c.database_pool_min_conns;
  connect_timeout = c.database_connect_timeout;
  acquire_timeout = c.database_acquire_timeout;
  query_timeout = c.database_query_timeout;
  max_conn_lifetime = c.database_max_conn_lifetime;
  max_conn_idle_time = c.database_max_conn_idle_time;
  health_check_period = c.database_health_check_period;
}

-- A loaded configuration is refused for a pool exactly when its query timeout is less than a
-- millisecond, which `Load` lets through.
load-settings_refused :
    (lib : Library) (c : Config)
    → load lib ≡ ok c
    → settings_refused true (pool_settings c) ≡ ltb_ℤ c.database_query_timeout (pos millisecond)
unfolding settings_refused
load-settings_refused lib c h =
    let l = load-Loaded lib c h in
    ground (arith, l.connect, l.acquire, l.max_conns, l.min_conns, l.lifetime, l.idle, l.health)
