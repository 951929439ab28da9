-- ===== src/Postgres/Repositories/Answers.antt =====
-- internal/postgres/search.go, daily.go, leaderboard.go and selflookup.go: when a repository answers, and
-- with what.
use usage_viewer.Prelude.{
  ◌≡◌, ◌↔◌, inl, inr, refl, sym, ap, ◌∙◌, true, List, [], map, Option, none, some, Result, ok, err,
  ℤ, pos, ◌≤ℤ◌, Result-cases, arith,
}
use usage_viewer.Postgres.Catalog.{transaction_read_only_sql}
use usage_viewer.Diagnostics.{GoError}
use usage_viewer.Postgres.Preflight.{Rows, scan_rows}
use usage_viewer.Postgres.Preflight.Scans.{scan_rows_all, scan_rows-ok}
use usage_viewer.Postgres.ReadOnly.{
  Outcome, returns, fails, panics, Driver, TxOptions, Run, read_committed, access_read_only,
  run_read_only, with_read_only_tx,
}
use usage_viewer.Postgres.ReadOnly.Cleanup.{run_read_only_returns_iff}
use usage_viewer.Postgres.Repositories.{
  Transaction, Database, Repository, usable, body_of, value_of, read_only_run, read_only_answer,
  collect_plain,
}

abbrev pub read_only_options : TxOptions
read_only_options = record { iso_level = read_committed; access_mode = access_read_only }

-- A driver whose steps succeed, and whose database confirms that the transaction only reads.
pub record Succeeds (driver : Driver) : Type 0 where
  pub in_time : driver.context_error ≡ none
  pub begins : driver.begin_tx read_only_options ≡ none
  pub only_reads : driver.setting transaction_read_only_sql ≡ ok true
  pub commits : driver.commit ≡ none

-- A repository with a pool and a time limit.
pub record Usable (repository : Option Repository) (database : Database) (timeout : ℤ)
    : Type 0 where
  pub present : repository ≡ some (record { pool = some database; timeout = timeout })
  pub limited : pos 1 ≤ℤ timeout

pub usable_iff :
    (repository : Option Repository) (database : Database) (timeout : ℤ)
    → (usable repository ≡ some (database, timeout)) ↔ Usable repository database timeout
unfolding usable
usable_iff none database timeout =
    (λ h. absurd (ground arith), λ u. absurd (let e = u.present in ground arith))
usable_iff (some r) database timeout =
    (λ h. split r.pool r.timeout h, λ u. ground (arith, u.present, u.limited))
  where
    split :
        (pool : Option Database) (limit : ℤ)
        → usable (some (record { pool = pool; timeout = limit })) ≡ some (database, timeout)
        → Usable (some (record { pool = pool; timeout = limit })) database timeout
    split none limit h = absurd (ground arith)
    split (some d) limit h = record { present = ground arith; limited = ground arith }

module _ {A : Type 0} where
  pool_run :
      (driver : Driver) (timeout : ℤ) (body : Outcome A)
      → with_read_only_tx (some driver) timeout read_committed body
        ≡ run_read_only true driver timeout read_committed body
  unfolding with_read_only_tx
  pool_run driver timeout body = refl

  value_of_iff : (o : Outcome A) (a : A) → (value_of o ≡ some a) ↔ (o ≡ returns a)
  value_of_iff (returns b) a = (λ h. ground arith, λ h. ground arith)
  value_of_iff (fails e) a = (λ h. absurd (ground arith), λ h. absurd (ground arith))
  value_of_iff (panics p) a = (λ h. absurd (ground arith), λ h. absurd (ground arith))

  body_of_iff : (r : Result GoError A) (a : A) → (body_of r ≡ returns a) ↔ (r ≡ ok a)
  body_of_iff (ok b) a = (λ h. ground arith, λ h. ground arith)
  body_of_iff (err e) a = (λ h. absurd (ground arith), λ h. absurd (ground arith))

  -- A transaction that only reads answers exactly when its steps succeed and its body does.
  pub read_only_answer_iff :
      (database : Database) (timeout : ℤ) (body : Transaction → Result GoError A) (a : A)
      → (read_only_answer (database, timeout) body ≡ some a)
        ↔ ((pos 1 ≤ℤ timeout) × Succeeds database.driver × (body database.transaction ≡ ok a))
  unfolding read_only_answer read_only_run
  read_only_answer_iff database timeout body a =
      let outcome = body_of (body database.transaction) in
      let runs = run_read_only_returns_iff true database.driver timeout read_committed outcome a in
      let same = pool_run database.driver timeout outcome in
      (
        λ h.
            let (c, n, b, s, r, k) =
              runs.0 (ap (λ (q : Run A). q.outcome) (sym same) ∙ (value_of_iff _ a).0 h) in
            (
              c.1,
              record { in_time = n; begins = b; only_reads = s; commits = k },
              (body_of_iff (body database.transaction) a).0 r,
            ),
        λ (l, s, r). (value_of_iff _ a).1 (
            ap (λ (q : Run A). q.outcome) same
            ∙ runs.1 (
              (refl, l, inl refl),
              s.in_time,
              s.begins,
              s.only_reads,
              (body_of_iff (body database.transaction) a).1 r,
              s.commits,
            )),
      )

module _ {A : Type 0} where
  pub collect_plain_iff :
      (answer : Result GoError (Rows A)) (xs : List A)
      → (collect_plain answer ≡ ok xs)
        ↔ (answer ≡ ok (record { scans = map ok xs; failure = none }))
  unfolding collect_plain
  collect_plain_iff answer xs = (forth answer, λ h. rw h (rw (scan_rows_all xs [])))
    where
      forth :
          (answer : Result GoError (Rows A))
          → collect_plain answer ≡ ok xs
          → answer ≡ ok (record { scans = map ok xs; failure = none })
      forth (err e) h = absurd (ground arith)
      forth (ok rows) h = elim (Result-cases (scan_rows rows.scans [])) [
        | inl (ys, q) ↦
            let (zs, e, p) = scan_rows-ok rows.scans [] ys q in
            let f : rows.failure ≡ none = ground arith in
            let y : ys ≡ xs = ground arith in ground (arith, e, p, y, f)
        | inr (e, q) ↦ absurd (ground arith)
      ]
