-- ===== src/Postgres/Pool/Preflights.antt =====
-- internal/postgres/pool.go: a preflight gives its connection back, and runs a transaction only on
-- an admitted one.
use usage_viewer.Prelude.{
  ◌≡◌, ◌↔◌, refl, sym, ap, ◌∙◌, ◌⊎◌, inl, inr, Bool, true, not, ◌||◌, List, [], ◌∷◌, ◌++◌, Option,
  none, Result, ok, err, Text, bytes, ℤ, pos, ◌≤ℤ◌, leb_ℤ, eqb_ℤ→eq, All, Bool-cases, Result-cases,
  arith,
}
use usage_viewer.Postgres.Catalog.{transaction_read_only_sql, connectivity_probe_sql}
use usage_viewer.Diagnostics.{GoError, plain}
use usage_viewer.Postgres.Stages.{connectivity, at_stage}
use usage_viewer.Postgres.Preflight.{Connection}
use usage_viewer.Postgres.ReadOnly
use usage_viewer.Postgres.ReadOnly.{
  Outcome, returns, fails, read_committed, access_read_only, run_read_only,
}
use usage_viewer.Postgres.ReadOnly.Cleanup.{run_read_only_returns_iff}
use usage_viewer.Postgres.Pool.{
  PoolEvent, acquired, released, admission, in_transaction, Preflight, Pooled, lift_trace,
  probe_body, releasing, refused_admission, admitted_probe, sanitize, run_preflight,
}

module _ (admit : Option Connection → Text → Result GoError (Unit {0})) (available : Bool)
    (acquire : Result GoError Pooled) (role : Text) (acquire_timeout query_timeout : ℤ) where
  -- What may happen between the acquisition of a connection and its release.
  abbrev pub Inner : Pooled → PoolEvent → Type 0
  Inner pooled acquired = ⊥
  Inner pooled released = ⊥
  Inner pooled admission = Unit
  Inner pooled (in_transaction e) = admit pooled.raw role ≡ ok tt

  lift_trace-Inner :
      (pooled : Pooled) (es : List ReadOnly.Event)
      → admit pooled.raw role ≡ ok tt
      → All (Inner pooled) (lift_trace es)
  unfolding lift_trace
  lift_trace-Inner pooled [] h = tt
  lift_trace-Inner pooled (e ∷ es) h = (h, lift_trace-Inner pooled es h)

  abbrev pub Released : List PoolEvent → Type 0
  Released trace =
      (trace ≡ [])
      ⊎ ((pooled : Pooled) × (middle : List PoolEvent) × (acquire ≡ ok pooled)
          × (trace ≡ acquired ∷ (middle ++ released ∷ []))
          × All (Inner pooled) middle)

  abbrev run : Preflight
  run = run_preflight admit available acquire role acquire_timeout query_timeout

  abbrev pub IsTimed : Type 0
  IsTimed = (available ≡ true) × (pos 1 ≤ℤ acquire_timeout) × (pos 1 ≤ℤ query_timeout)

  -- Either nothing was acquired, and the preflight fails, or the acquired connection is checked.
  run_cases :
      ((e : GoError) × (run.trace ≡ []) × (run.outcome ≡ fails e))
      ⊎ ((pooled : Pooled) × (acquire ≡ ok pooled)
          × IsTimed
          × (run ≡ releasing (admitted_probe admit pooled role query_timeout)))
  unfolding run_preflight
  run_cases =
      elim (Bool-cases
        (not available || leb_ℤ acquire_timeout (pos 0) || leb_ℤ query_timeout (pos 0))) [
          | inl b ↦
              inl (
                at_stage connectivity (plain (bytes "preflight configuration invalid")),
                rw b,
                rw b,
              )
          | inr g ↦ elim (Result-cases acquire) [
            | inl (pooled, h) ↦
                inr (pooled, h, (ground arith, ground arith, ground arith), rw (g, h))
            | inr (e, h) ↦ inl (sanitize e, rw (g, h), rw (g, h))
          ]
        ]

  probe-Inner :
      (pooled : Pooled) → All (Inner pooled) (admitted_probe admit pooled role query_timeout).trace
  unfolding admitted_probe
  probe-Inner pooled = split (admit pooled.raw role) refl
    where
      split :
          (r : Result GoError (Unit {0}))
          → admit pooled.raw role ≡ r
          → All (Inner pooled) (admitted_probe (λ c t. r) pooled role query_timeout).trace
      split (err e) h = (tt, tt)
      split (ok u) h = (tt, lift_trace-Inner pooled _ h)

  -- A preflight that acquires a connection releases it last, once, however the check and the
  -- transaction end; in between it runs a transaction only if the connection was admitted.
  pub run_preflight-Released :
      Released (run_preflight admit available acquire role acquire_timeout query_timeout).trace
  run_preflight-Released = elim run_cases [
    | inl (e, t, o) ↦ inl t
    | inr (pooled, h, g, r) ↦ inr (
      pooled,
      (admitted_probe admit pooled role query_timeout).trace,
      h,
      ap (λ (p : Preflight). p.trace) r ∙ unfold releasing in refl,
      probe-Inner pooled,
    )
  ]

  -- The transaction of a connection that passes: the driver has no complaint, it only reads, and
  -- its probe gives 1.
  abbrev pub Passes : Pooled → Type 0
  Passes pooled =
      (admit pooled.raw role ≡ ok tt)
      × (pooled.driver.context_error ≡ none)
      × (pooled.driver.begin_tx
            (record { iso_level = read_committed; access_mode = access_read_only })
          ≡ none)
      × (pooled.driver.setting transaction_read_only_sql ≡ ok true)
      × (pooled.transaction_probe connectivity_probe_sql ≡ ok (pos 1))
      × (pooled.driver.commit ≡ none)

  probe_body_iff : (r : Result GoError ℤ) → (probe_body r ≡ returns tt) ↔ (r ≡ ok (pos 1))
  unfolding probe_body
  probe_body_iff (err e) = (λ h. absurd (ground arith), λ h. absurd (ground arith))
  probe_body_iff (ok n) = (λ h. ap ok (eqb_ℤ→eq n (pos 1) (ground arith)), λ h. ground arith)

  probe_iff :
      (pooled : Pooled)
      → pos 1 ≤ℤ query_timeout
      → ((admitted_probe admit pooled role query_timeout).outcome ≡ returns tt) ↔ Passes pooled
  unfolding admitted_probe
  probe_iff pooled q = elim (Result-cases (admit pooled.raw role)) [
    | inl (u, k) ↦
        let t =
          run_read_only_returns_iff true pooled.driver query_timeout read_committed
            (probe_body (pooled.transaction_probe connectivity_probe_sql)) tt in
        let o : (admitted_probe admit pooled role query_timeout).outcome
            ≡ (run_read_only true pooled.driver query_timeout read_committed
                (probe_body (pooled.transaction_probe connectivity_probe_sql))).outcome =
          rw (k, admitted_probe) in
        (
          λ h.
              let (c, n, b, s, p, m) = t.0 (sym o ∙ h) in
              (
                k,
                n,
                b,
                s,
                (probe_body_iff (pooled.transaction_probe connectivity_probe_sql)).0 p,
                m,
              ),
          λ h.
              o
              ∙ t.1 (
                (refl, q, inl refl),
                h.1,
                h.2,
                h.3,
                (probe_body_iff (pooled.transaction_probe connectivity_probe_sql)).1 h.4,
                h.5,
              ),
        )
    | inr (e, k) ↦
        let o : (admitted_probe admit pooled role query_timeout).outcome ≡ fails (sanitize e) =
          rw (k, admitted_probe) (unfold refused_admission in refl) in
        (λ h. absurd (ground (arith, o)), λ h. absurd (ground arith))
  ]

  runs :
      IsTimed
      → (pooled : Pooled) → acquire ≡ ok pooled
      → run ≡ releasing (admitted_probe admit pooled role query_timeout)
  unfolding run_preflight
  runs g pooled h = ground (arith, g, h)

  released_outcome :
      (pooled : Pooled)
      → run ≡ releasing (admitted_probe admit pooled role query_timeout)
      → run.outcome ≡ (admitted_probe admit pooled role query_timeout).outcome
  unfolding releasing
  released_outcome pooled r = ap (λ (p : Preflight). p.outcome) r

  -- A preflight succeeds exactly when its times are positive, it gets a connection, that is
  -- admitted, and a transaction on it only reads and gives 1 for its probe.
  run_preflight_returns_iff :
      ((run_preflight admit available acquire role acquire_timeout query_timeout).outcome
        ≡ returns tt)
      ↔ (IsTimed × (pooled : Pooled) × (acquire ≡ ok pooled) × Passes pooled)
  run_preflight_returns_iff = (
    λ h. elim run_cases [
      | inl (e, t, o) ↦ absurd (ground arith)
      | inr (pooled, k, g, r) ↦
          (g, pooled, k, (probe_iff pooled g.2).0 (sym (released_outcome pooled r) ∙ h))
    ],
    λ (g, pooled, k, p). released_outcome pooled (runs g pooled k) ∙ (probe_iff pooled g.2).1 p,
  )
