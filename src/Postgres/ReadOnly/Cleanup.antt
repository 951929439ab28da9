-- ===== src/Postgres/ReadOnly/Cleanup.antt =====
-- internal/postgres/readonly.go: how a transaction that only reads begins and ends.
pub mod Traces
use mathlib.Core.Path.{subst}
use usage_viewer.Prelude.{
  ℕ, suc, ◌+◌, ◌≤◌, ◌≡◌, ◌↔◌, refl, sym, ap, ◌∙◌, ◌⊎◌, inl, inr, Bool, true, false, not, ◌||◌, List,
  [], ◌∷◌, Option, none, some, Result, ok, err, Text, bytes, text_eq, text_eq_iff, ℤ, pos, ◌≤ℤ◌,
  leb_ℤ, All, All-append, Bool-cases, Option-cases, arith, if◌then◌else◌,
}
use usage_viewer.Postgres.Catalog.{transaction_read_only_sql}
use usage_viewer.Diagnostics.{
  GoError, plain, code_of, code_database_connectivity, code_database_read_only, canonical_values,
  wrap, as_diagnostic, code_of_diagnostic,
}
use usage_viewer.Postgres.Stages.{connectivity, read_only, at_stage, diagnostic_for_stage}
use usage_viewer.Postgres.ReadOnly.{
  Outcome, returns, fails, panics, Event, begun, asked_setting, ran_body, commit_called,
  rolled_back, Driver, TxOptions, Run, read_committed, repeatable_read, access_read_only,
  cleanup_timeout, in_transaction, guarded, deferred, run_read_only,
}
use usage_viewer.Postgres.ReadOnly.Cleanup.Traces.{
  count_begun, count_rolled_back, count_commit_called, count_committed, succeeded, Sound,
  limit-Sound, at_connectivity, at_read_only, Coded,
}

module _ {A : Type 0} (available : Bool) (driver : Driver) (timeout : ℤ) (isolation : Text)
    (body : Outcome A) where
  -- A transaction that begins ends once: by a call of `Commit` that the driver carries out, exactly when the
  -- run returns a value, or else, also when the body panics or `Commit` fails, by one rollback. At most one
  -- begins, and `Commit` is called at most once, and only in a transaction that has begun.
  pub run_read_only_ends_once :
      let run = run_read_only available driver timeout isolation body in
      (count_begun run.trace ≡ count_rolled_back run.trace + count_committed driver run.trace)
      × (count_committed driver run.trace ≡ succeeded run.outcome)
      × (count_begun run.trace ≤ 1)
      × (count_commit_called run.trace ≤ count_begun run.trace)
  unfolding run_read_only in_transaction count_begun count_rolled_back count_commit_called
      count_committed
  run_read_only_ends_once = ground arith

  abbrev pub options : TxOptions
  options = record { iso_level = isolation; access_mode = access_read_only }

  -- Dependencies, time limit and isolation level are in order.
  abbrev pub IsConfigured : Type 0
  IsConfigured =
      (available ≡ true)
      × (pos 1 ≤ℤ timeout)
      × ((isolation ≡ read_committed) ⊎ (isolation ≡ repeatable_read))

  abbrev Refused : Run A → Type 0
  Refused run = (e : GoError) × (run.trace ≡ []) × (run.outcome ≡ fails (at_stage connectivity e))

  abbrev Opened : Run A → Type 0
  Opened run =
      IsConfigured
      × (driver.context_error ≡ none)
      × (driver.begin_tx options ≡ none)
      × (run ≡ deferred options timeout (guarded driver body))

  Opened-cases :
      IsConfigured
      → let run = run_read_only available driver timeout isolation body in Refused run ⊎ Opened run
  unfolding run_read_only text_eq
  Opened-cases c = elim (Option-cases driver.context_error) [
    | inl n ↦ elim (Option-cases (driver.begin_tx options)) [
      | inl b ↦ inr (c, n, b, ground (arith, c))
      | inr (e, b) ↦ inl (e, ground (arith, c), ground (arith, c))
    ]
    | inr (e, n) ↦ inl (e, ground (arith, c), ground (arith, c))
  ]

  -- A run is refused before anything begins, or it is a guarded transaction.
  run_cases :
      let run = run_read_only available driver timeout isolation body in Refused run ⊎ Opened run
  unfolding run_read_only
  run_cases = elim (Bool-cases (not available || leb_ℤ timeout (pos 0))) [
    | inl b ↦ inl (plain (bytes "read-only transaction configuration invalid"), rw b, rw b)
    | inr g ↦ elim (Bool-cases (text_eq isolation read_committed)) [
      | inl r ↦
          Opened-cases
            (ground arith, ground arith, inl ((text_eq_iff isolation read_committed).0 r))
      | inr r ↦ elim (Bool-cases (text_eq isolation repeatable_read)) [
        | inl q ↦
            Opened-cases
              (ground arith, ground arith, inr ((text_eq_iff isolation repeatable_read).0 q))
        | inr q ↦
            inl
              (plain (bytes "read-only transaction isolation invalid"), rw (g, r, q), rw (g, r, q))
      ]
    ]
  ]

  guarded-Sound : All (Sound driver timeout) (guarded driver body).1.trace
  unfolding guarded in_transaction
  guarded-Sound = split (driver.setting transaction_read_only_sql) body driver.commit refl
    where
      split :
          (setting : Result GoError Bool) (b : Outcome A) (commit : Option GoError)
          → driver.setting transaction_read_only_sql ≡ setting
          → All
              (Sound driver timeout)
              (guarded (record driver { setting = λ _. setting; commit = commit }) b).1.trace
      split (err e) b commit h = tt
      split (ok false) b commit h = tt
      split (ok true) (panics p) commit h = (h, tt)
      split (ok true) (fails e) commit h = (h, tt)
      split (ok true) (returns a) none h = (h, (h, tt))
      split (ok true) (returns a) (some e) h = (h, (h, tt))

  end-Sound :
      (committed : Bool)
      → pos 1 ≤ℤ timeout
      → All
          (Sound driver timeout)
          (if committed then [] else rolled_back (cleanup_timeout timeout) ∷ [])
  end-Sound true h = tt
  end-Sound false h = (limit-Sound driver timeout (ground arith), tt)

  -- The transaction is opened for reading only, its body and its commit run only where the database
  -- confirms that it only reads, and a rollback is given from a nanosecond to a second, and no more
  -- time than the transaction.
  pub run_read_only-Sound :
      All (Sound driver timeout) (run_read_only available driver timeout isolation body).trace
  run_read_only-Sound = elim run_cases [
    | inl (e, t, o) ↦ rw t tt
    | inr (c, n, b, r) ↦ rw (ap (λ (q : Run A). q.trace) r) (
        unfold deferred in
        (
          refl,
          (
            tt,
            All-append (Sound driver timeout) (guarded driver body).1.trace _ guarded-Sound
                (end-Sound (guarded driver body).0 c.1),
          ),
        ))
  ]

  opens :
      IsConfigured
      → driver.context_error ≡ none
      → driver.begin_tx options ≡ none
      → run_read_only available driver timeout isolation body
        ≡ deferred options timeout (guarded driver body)
  unfolding run_read_only text_eq
  opens c n b = ground (arith, c)

  deferred-outcome : (r : Bool × Run A) → (deferred options timeout r).outcome ≡ r.1.outcome
  unfolding deferred
  deferred-outcome r = refl

  guarded_returns :
      (a : A)
      → ((guarded driver body).1.outcome ≡ returns a) ↔ (
          (driver.setting transaction_read_only_sql ≡ ok true)
          × (body ≡ returns a)
          × (driver.commit ≡ none))
  unfolding guarded in_transaction
  guarded_returns a = (λ h. ground arith, λ h. ground arith)

  guarded-Coded : Coded (guarded driver body).1.outcome
  unfolding guarded in_transaction
  guarded-Coded = split (driver.setting transaction_read_only_sql) body driver.commit
    where
      split :
          (setting : Result GoError Bool) (b : Outcome A) (commit : Option GoError)
          → Coded (guarded (record driver { setting = λ _. setting; commit = commit }) b).1.outcome
      split (err e) b commit = inr (at_read_only e)
      split (ok false) b commit = inr (at_read_only _)
      split (ok true) (panics p) commit = tt
      split (ok true) (fails e) commit = inl (at_connectivity e)
      split (ok true) (returns a) none = tt
      split (ok true) (returns a) (some e) = inl (at_connectivity e)

  guarded_panics : (p : Text) → (guarded driver body).1.outcome ≡ panics p → body ≡ panics p
  unfolding guarded in_transaction
  guarded_panics p h = ground arith

  -- A run returns a value exactly when its dependencies, its time limit and its isolation level are
  -- in order, no step of the driver fails, the database confirms that the transaction only reads,
  -- and the body returns that value.
  pub run_read_only_returns_iff :
      (a : A)
      → ((run_read_only available driver timeout isolation body).outcome ≡ returns a) ↔ (
          IsConfigured
          × (driver.context_error ≡ none)
          × (driver.begin_tx options ≡ none)
          × (driver.setting transaction_read_only_sql ≡ ok true)
          × (body ≡ returns a)
          × (driver.commit ≡ none))
  run_read_only_returns_iff a = (
    λ h. elim run_cases [
      | inl (e, t, o) ↦ absurd (ground arith)
      | inr (c, n, b, r) ↦
          let g =
            (guarded_returns a).0 (ground (arith, r, deferred-outcome (guarded driver body))) in
          (c, n, b, g.0, g.1, g.2)
    ],
    λ h.
        ap (λ (q : Run A). q.outcome) (opens h.0 h.1 h.2)
        ∙ deferred-outcome (guarded driver body)
        ∙ (guarded_returns a).1 (h.3, h.4, h.5),
  )

  -- Whatever fails, the error is a diagnostic of connectivity or of the read-only check, and a run
  -- panics only with the panic of its body.
  run_read_only_failures :
      ((e : GoError)
        → (run_read_only available driver timeout isolation body).outcome ≡ fails e
        → (code_of e ≡ code_database_connectivity) ⊎ (code_of e ≡ code_database_read_only))
      × ((p : Text)
          → (run_read_only available driver timeout isolation body).outcome ≡ panics p
          → body ≡ panics p)
  run_read_only_failures = elim run_cases [
    | inl (e, t, o) ↦
        (λ e' h. subst Coded h (rw o (inl (at_connectivity e))), λ p h. absurd (ground arith))
    | inr (c, n, b, r) ↦
        let q : (run_read_only available driver timeout isolation body).outcome
            ≡ (guarded driver body).1.outcome =
          ap (λ (q : Run A). q.outcome) r ∙ deferred-outcome (guarded driver body) in
        (λ e' h. subst Coded (sym q ∙ h) guarded-Coded, λ p h. guarded_panics p (sym q ∙ h))
  ]
