-- ===== src/Postgres/Repositories/Reports.antt =====
-- internal/postgres/daily.go, leaderboard.go and selflookup.go: when the reports answer, and with what.
pub mod Lookups
use usage_viewer.Prelude.{
  ◌≡◌, ◌↔◌, ◌⊎◌, inl, inr, refl, sym, ◌∙◌, false, List, [], ◌∷◌, map, Option, none, some, Result,
  ok, Text, ℤ, pos, leb_ℤ, ◌≤ℤ◌, Bool-cases, Option-cases, Result-cases, arith,
}
use usage_viewer.Diagnostics.{GoError}
use usage_viewer.Search.{validate_days, validate_limit, validate_credential, all_windows}
use usage_viewer.Search.Results.{DailyUsagePoint, SelfResult}
use usage_viewer.Postgres.Statements.{daily_usage_sql, self_lookup_sql, today_cost_sql}
use usage_viewer.Postgres.Repositories.{
  text_argument, time_argument, int_argument, RankRow, SelfRow, RowAnswer, row, no_rows, row_failed,
  Transaction, Database, Clock, Repository, usable, read_only_answer, truncate_day,
}
use usage_viewer.Postgres.Repositories.Reporting.{
  daily_usage_arguments, daily_usage_body, daily_usage, Rankings, query_leaderboard, top,
  lookup_body, or_self_lookup_unavailable, self_lookup,
}
use usage_viewer.Postgres.Repositories.Rankings.{rankings_of, Answered, query_leaderboard_iff}
use usage_viewer.Postgres.Repositories.Answers.{
  Succeeds, Usable, usable_iff, read_only_answer_iff, collect_plain_iff,
}
use usage_viewer.Postgres.Repositories.Reports.Lookups.{
  Looked, lookup_body-Looked, Looked-lookup_body,
}

-- A repository in order, whose transaction succeeds.
pub record Serves (repository : Option Repository) (database : Database) : Type 0 where
  pub timeout : ℤ
  pub is_usable : Usable repository database timeout
  pub succeeds : Succeeds database.driver

module _ {A : Type 0} (repository : Option Repository) (body : Transaction → Result GoError A) where
  -- A transaction of the repository, if it has a pool and a time limit
  abbrev answer_of : Option (Database × ℤ) → Option A
  answer_of none = none
  answer_of (some database) = read_only_answer database body

  answer_of_iff :
      (a : A)
      → (answer_of (usable repository) ≡ some a)
        ↔ ((database : Database) × Serves repository database × (body database.transaction ≡ ok a))
  answer_of_iff a = (
    λ h. elim (Option-cases (usable repository)) [
      | inl u ↦ absurd (ground arith)
      | inr ((database, timeout), u) ↦
          let (l, s, b) = (read_only_answer_iff database timeout body a).0 (ground arith) in
          (
            database,
            record {
              timeout = timeout;
              is_usable = (usable_iff repository database timeout).0 u;
              succeeds = s;
            },
            b,
          )
    ],
    λ (database, v, b). ground (
      arith,
      (usable_iff repository database v.timeout).1 v.is_usable,
      (read_only_answer_iff database v.timeout body a).1 (v.is_usable.limited, v.succeeds, b),
    ),
  )

available_iff :
    {A : Type 0} (answer : Option A) (a : A)
    → (or_self_lookup_unavailable answer ≡ ok a) ↔ (answer ≡ some a)
available_iff none a = (λ h. absurd (ground arith), λ h. absurd (ground arith))
available_iff (some b) a = (λ h. ground arith, λ h. ground arith)

module _ (repository : Option Repository) (clock : Clock) where
  top_step :
      (limit l : ℤ)
      → validate_limit limit ≡ ok l
      → top repository clock limit
        ≡ answer_of repository (query_leaderboard (pos clock.now) l) (usable repository)
  unfolding top
  top_step limit l h = ground arith

  -- `Top` answers exactly when the limit is accepted, the repository is in order and its transaction
  -- succeeds, with every row of the ranking in one of the four windows and within the accepted limit. It
  -- then answers with the four windows, each with the entries of its rows in the order of the rows.
  pub top_iff :
      (limit : ℤ) (out : Rankings)
      → (top repository clock limit ≡ some out) ↔ (
          (l : ℤ) × (database : Database) × (rows : List RankRow) × (validate_limit limit ≡ ok l)
          × Serves repository database
          × Answered database.transaction (pos clock.now) l rows
          × (out ≡ rankings_of all_windows rows))
  unfolding top
  top_iff limit out = (
    λ h. elim (Result-cases (validate_limit limit)) [
      | inr (e, v) ↦ absurd (ground arith)
      | inl (l, v) ↦
          let (database, serves, b) =
            (answer_of_iff repository (query_leaderboard (pos clock.now) l) out).0
              (sym (top_step limit l v) ∙ h) in
          let (rows, a, o) =
            (query_leaderboard_iff database.transaction (pos clock.now) l out).0 b in
          (l, database, rows, v, serves, a, o)
    ],
    λ (l, database, rows, v, serves, a, o).
        top_step limit l v
        ∙ (answer_of_iff repository (query_leaderboard (pos clock.now) l) out).1 (
          database,
          serves,
          (query_leaderboard_iff database.transaction (pos clock.now) l out).1 (rows, a, o),
        ),
  )

  daily_usage_step :
      (key days d : ℤ)
      → leb_ℤ key (pos 0) ≡ false
      → validate_days days ≡ ok d
      → daily_usage repository clock key days
        ≡ answer_of repository (daily_usage_body key d (pos clock.now)) (usable repository)
  unfolding daily_usage
  daily_usage_step key days d p h = ground arith

  daily_usage_body_iff :
      (key d now : ℤ) (tx : Transaction) (points : List DailyUsagePoint)
      → (daily_usage_body key d now tx ≡ ok points) ↔ (
          tx.daily_rows daily_usage_sql (daily_usage_arguments key d now)
          ≡ ok (record { scans = map ok points; failure = none }))
  unfolding daily_usage_body
  daily_usage_body_iff key d now tx points =
      collect_plain_iff (tx.daily_rows daily_usage_sql (daily_usage_arguments key d now)) points

  -- `DailyUsage` answers exactly when the key is positive and the number of days accepted, the repository is
  -- in order, its transaction succeeds, and so does the statement for the key and the days. It answers with
  -- the rows of the statement, in their order.
  pub daily_usage_iff :
      (key days : ℤ) (points : List DailyUsagePoint)
      → (daily_usage repository clock key days ≡ some points) ↔ (
          (d : ℤ) × (database : Database) × (pos 1 ≤ℤ key)
          × (validate_days days ≡ ok d)
          × Serves repository database
          × (database.transaction.daily_rows daily_usage_sql
                (daily_usage_arguments key d (pos clock.now))
              ≡ ok (record { scans = map ok points; failure = none })))
  unfolding daily_usage
  daily_usage_iff key days points = (
    λ h. elim (Bool-cases (leb_ℤ key (pos 0))) [
      | inl negative ↦ absurd (ground arith)
      | inr positive ↦ elim (Result-cases (validate_days days)) [
        | inr (e, v) ↦ absurd (ground arith)
        | inl (d, v) ↦
            let (database, serves, b) =
              (answer_of_iff repository (daily_usage_body key d (pos clock.now)) points).0
                (sym (daily_usage_step key days d positive v) ∙ h) in
            (
              d,
              database,
              ground arith,
              v,
              serves,
              (daily_usage_body_iff key d (pos clock.now) database.transaction points).0 b,
            )
      ]
    ],
    λ (d, database, p, v, serves, e).
        daily_usage_step key days d (ground arith) v
        ∙ (answer_of_iff repository (daily_usage_body key d (pos clock.now)) points).1 (
          database,
          serves,
          (daily_usage_body_iff key d (pos clock.now) database.transaction points).1 e,
        ),
  )

  self_lookup_step :
      (credential value : Text)
      → validate_credential credential ≡ ok value
      → self_lookup repository clock credential
        ≡ or_self_lookup_unavailable (
            answer_of repository
              (lookup_body value (truncate_day (pos clock.now)))
              (usable repository))
  unfolding self_lookup
  self_lookup_step credential value h = ground arith

-- `Lookup` answers exactly when the credential is accepted, the repository is in order and its transaction
-- succeeds. It finds nothing exactly when the database has no row for the accepted credential; otherwise it
-- answers with that row, its key masked, its cost of the day, and its id.
pub self_lookup_iff :
    (repository : Option Repository) (clock : Clock) (credential : Text)
    (found : Option (SelfResult × ℤ))
    → (self_lookup repository clock credential ≡ ok found) ↔ (
        (value : Text) × (database : Database) × (validate_credential credential ≡ ok value)
        × Serves repository database
        × Looked database.transaction value (truncate_day (pos clock.now)) found)
unfolding self_lookup
self_lookup_iff repository clock credential found =
    let today = truncate_day (pos clock.now) in
    (
      λ h. elim (Result-cases (validate_credential credential)) [
        | inr (e, v) ↦ absurd (ground arith)
        | inl (value, v) ↦
            let (database, serves, b) =
              (answer_of_iff repository (lookup_body value today) found).0 (
                (available_iff _ found).0
                  (sym (self_lookup_step repository clock credential value v) ∙ h)) in
            (
              value,
              database,
              v,
              serves,
              lookup_body-Looked value today database.transaction found b,
            )
      ],
      λ (value, database, v, serves, l).
          self_lookup_step repository clock credential value v
          ∙ (available_iff _ found).1 (
              (answer_of_iff repository (lookup_body value today) found).1
                (database, serves, Looked-lookup_body value today database.transaction found l)),
    )
