-- ===== src/Postgres/Pool/Guards.antt =====
-- internal/postgres/pool.go: the settings that make a pool, and what is left of an error.
use usage_viewer.Prelude.{
  ◌/◌, ◌*◌, ◌≤◌, ◌≡◌, ◌≢◌, refl, inl, inr, Bool, false, Option, none, ok, Text, text_eq, ℤ, pos,
  negsuc, pos_part, ◌≤ℤ◌, Option-cases, arith,
}
use usage_viewer.Diagnostics.{
  GoError, Diagnostic, diagnosed, as_diagnostic, code_of, code_of_diagnostic,
  code_database_connectivity, wrap, canonical_values,
}
use usage_viewer.Postgres.Stages.{connectivity, at_stage, diagnostic_for_stage}
use usage_viewer.Postgres.Pool.{
  PoolSettings, PoolConfig, settings_refused, build_pool_config, sanitize, millisecond,
}

record Bounded (s : PoolSettings) : Type 0 where
  pub least_max : pos 1 ≤ℤ s.max_conns
  pub greatest_max : s.max_conns ≤ℤ pos 4
  pub least_min : pos 0 ≤ℤ s.min_conns
  pub greatest_min : s.min_conns ≤ℤ s.max_conns
  pub connecting : pos 1 ≤ℤ s.connect_timeout
  pub querying : pos millisecond ≤ℤ s.query_timeout

settings-Bounded :
    (has_admission : Bool) (s : PoolSettings) → settings_refused has_admission s ≡ false → Bounded s
unfolding settings_refused
settings-Bounded a s h = record {
  least_max = ground arith;
  greatest_max = ground arith;
  least_min = ground arith;
  greatest_min = ground arith;
  connecting = ground arith;
  querying = ground arith;
}

-- The values that a configured pool has.
record Configured (s : PoolSettings) (c : PoolConfig) : Type 0 where
  pub max_is : c.pool_max_conns ≡ s.max_conns
  pub min_is : c.pool_min_conns ≡ s.min_conns
  pub connecting_is : c.connecting ≡ s.connect_timeout
  pub statement_is : c.statement_timeout ≡ pos_part s.query_timeout / millisecond
  pub idle_is : c.idle_in_transaction_timeout ≡ pos_part s.query_timeout / millisecond

build_pool_config-Configured :
    (parse_config : Text → Option GoError) (has_admission : Bool) (s : PoolSettings)
    (c : PoolConfig)
    → build_pool_config parse_config has_admission s ≡ ok c
    → (settings_refused has_admission s ≡ false) × Configured s c
unfolding build_pool_config
build_pool_config-Configured parse_config has_admission s c h = (
  ground arith,
  record {
    max_is = ground arith;
    min_is = ground arith;
    connecting_is = ground arith;
    statement_is = ground arith;
    idle_is = ground arith;
  },
)

timeout_bounds :
    (t : ℤ)
    → pos millisecond ≤ℤ t
    → (1 ≤ pos_part t / millisecond) × (pos (pos_part t / millisecond * millisecond) ≤ℤ t)
timeout_bounds (pos n) h = omega arith
timeout_bounds (negsuc n) h = absurd (omega arith)

-- A pool is configured with 1 to 4 connections, of which it keeps from 0 to that many open, and
-- with positive times; the two session timeouts agree and are never 0, which would switch them off,
-- and no longer than the query timeout.
build_pool_config-bounds :
    (parse_config : Text → Option GoError) (has_admission : Bool) (s : PoolSettings)
    (c : PoolConfig)
    → build_pool_config parse_config has_admission s ≡ ok c
    → (pos 1 ≤ℤ c.pool_max_conns)
      × (c.pool_max_conns ≤ℤ pos 4)
      × (pos 0 ≤ℤ c.pool_min_conns)
      × (c.pool_min_conns ≤ℤ c.pool_max_conns)
      × (pos 1 ≤ℤ c.connecting)
      × (1 ≤ c.statement_timeout)
      × (c.idle_in_transaction_timeout ≡ c.statement_timeout)
      × (pos (c.statement_timeout * millisecond) ≤ℤ s.query_timeout)
build_pool_config-bounds parse_config has_admission s c h =
    let (r, k) = build_pool_config-Configured parse_config has_admission s c h in
    let b = settings-Bounded has_admission s r in
    let (t, u) = timeout_bounds s.query_timeout b.querying in
    (
      rw k.max_is b.least_max,
      rw k.max_is b.greatest_max,
      rw k.min_is b.least_min,
      rw (k.min_is, k.max_is) b.greatest_min,
      rw k.connecting_is b.connecting,
      rw k.statement_is t,
      rw (k.idle_is, k.statement_is) refl,
      rw k.statement_is u,
    )

at_connectivity : (e : GoError) → code_of (at_stage connectivity e) ≡ code_database_connectivity
unfolding code_of as_diagnostic code_of_diagnostic diagnostic_for_stage wrap canonical_values
    text_eq
at_connectivity e = refl

-- What leaves the checks of a connection is always a diagnostic; the code of an error that held one
-- is kept, any other error turns into one of connectivity, and doing it twice changes nothing.
sanitize_diagnoses :
    (e : GoError)
    → ((d : Diagnostic) × (sanitize e ≡ diagnosed d))
      × (as_diagnostic e ≢ none → code_of (sanitize e) ≡ code_of e)
      × (as_diagnostic e ≡ none → code_of (sanitize e) ≡ code_database_connectivity)
      × (sanitize (sanitize e) ≡ sanitize e)
unfolding sanitize code_of as_diagnostic
sanitize_diagnoses e = elim (Option-cases (as_diagnostic e)) [
  | inl n ↦ (
    (diagnostic_for_stage connectivity e, rw (n, sanitize)),
    λ h. absurd (h n),
    λ h. rw (n, sanitize) (at_connectivity e),
    rw (n, sanitize),
  )
  | inr (d, q) ↦ (
    (d, rw (q, sanitize)),
    λ h. rw (q, sanitize) (ground (arith, q)),
    λ h. absurd (ground arith),
    rw (q, sanitize),
  )
]
