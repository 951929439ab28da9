-- ===== src/Postgres/Repositories.antt =====
-- internal/postgres/search.go, daily.go, leaderboard.go and selflookup.go: what the repositories share.
-- Each answers a question by one transaction that only reads. What the database answers to a statement and
-- its arguments is a parameter. A time is the number of its nanoseconds since the year 1, in UTC.
pub mod Searching
pub mod Reporting
pub mod Windows
pub mod Rankings
pub mod Parameters
pub mod Fitting
pub mod Answers
pub mod Listings
pub mod Reports
use usage_viewer.Prelude.{
  ℕ, suc, ◌+◌, ◌-◌, ◌*◌, ◌/◌, ◌%◌, ◌==◌, Bool, true, false, not, ◌&&◌, ◌||◌, List, [], ◌∷◌, ◌++◌,
  map, Option, none, some, Result, ok, err, ◌>>=◌, Text, bytes, text_eq, ℤ, pos, negsuc, leb_ℤ,
  ltb_ℤ, ◌-ℤ◌, ◌*ℤ◌, wrap64, if◌then◌else◌,
}
use usage_viewer.Diagnostics.{GoError, plain}
use usage_viewer.Search.{
  Query, Window, is_valid, mode_browse, page_size, validate_days, validate_limit,
  validate_credential, all_windows, window_days, window_1_day, window_3_day, window_7_day,
  window_30_day, mask_key,
}
use usage_viewer.Search.Results.{KeyResult, Results, DailyUsagePoint, LeaderboardEntry, SelfResult}
use usage_viewer.Concurrency.{Client, resolve, count_of}
use usage_viewer.Postgres.Preflight.{Rows, scan_rows, rows_failure}
use usage_viewer.Postgres.ReadOnly.{
  Outcome, returns, fails, panics, Driver, Run, read_committed, with_read_only_tx,
}
use usage_viewer.Postgres.Statements.{
  daily_usage_sql, leaderboard_sql, self_lookup_sql, today_cost_sql,
}
use usage_viewer.Postgres.Listing.{
  key_count_browse_sql, key_count_text_sql, listing_sql, escape_like_text,
}

pub data Argument : Type 0 where
  text_argument : Text → Argument
  time_argument : ℤ → Argument
  int_argument : ℤ → Argument

-- What the scan of a listed key fills in.
pub record KeyRow : Type 0 where
  pub id : ℤ
  pub name : Text
  pub group_name : Text
  pub quota : Text
  pub quota_used : Text
  pub expires_at : Text
  pub last_used_at : Text
  pub status : Text
  pub created_at : Text
  pub total30d_cost : Text
  pub today_cost : Text

-- What the scan of a row of the leaderboard fills in.
pub record RankRow : Type 0 where
  pub window_text : Text
  pub rank : ℤ
  pub id : ℤ
  pub raw_key : Text
  pub name : Text
  pub group_name : Text
  pub actual_cost : Text

-- What the scan of a self-lookup fills in.
pub record SelfRow : Type 0 where
  pub id : ℤ
  pub raw_key : Text
  pub name : Text
  pub group_name : Text
  pub quota : Text
  pub quota_used : Text
  pub status : Text
  pub expires_at : Text

-- The scan of a single row: pgx.ErrNoRows stands apart from other errors.
pub data RowAnswer : Type 0 where
  row : SelfRow → RowAnswer
  no_rows : RowAnswer
  row_failed : GoError → RowAnswer

-- A transaction, by its answers.
pub record Transaction : Type 0 where
  pub count : Text → List Argument → Result GoError ℤ
  pub key_rows : Text → List Argument → Result GoError (Rows KeyRow)
  pub daily_rows : Text → List Argument → Result GoError (Rows DailyUsagePoint)
  pub rank_rows : Text → List Argument → Result GoError (Rows RankRow)
  pub self_row : Text → List Argument → RowAnswer
  pub cost : Text → List Argument → Result GoError Text

-- A pool: how it runs a transaction, and what the statements answer in it.
pub record Database : Type 0 where
  pub driver : Driver
  pub transaction : Transaction

-- The clock, read at the start of an operation and once more while a search lists the keys.
pub record Clock : Type 0 where
  pub now : ℕ
  pub later : ℕ

abbrev pub day : ℕ
day = 86400000000000

-- Truncate(24 * time.Hour)
unfoldable pub truncate_day : ℤ → ℤ
truncate_day (pos n) = pos (n - n % day)
truncate_day (negsuc n) = negsuc ((n / day + 1) * day - 1)

-- AddDate(0, 0, -days)
unfoldable pub days_before : ℤ → ℤ → ℤ
days_before days t = t -ℤ (days *ℤ pos day)

-- The repositories; `none` is a nil pool, and `none` for a repository a nil one.
pub record Repository : Type 0 where
  pub pool : Option Database
  pub timeout : ℤ

-- The first check of every operation: the repository, its pool and its time limit are in order.
unfoldable pub usable : Option Repository → Option (Database × ℤ)
usable none = none
usable (some r) = elim r.pool [
  | none ↦ none
  | some database ↦ if leb_ℤ r.timeout (pos 0) then none else some (database, r.timeout)
]

abbrev pub body_of : {A : Type 0} → Result GoError A → Outcome A
body_of (ok a) = returns a
body_of (err e) = fails e

-- withReadOnlyTx, with what the body assigns to the variables round it.
unfoldable pub read_only_run :
    {A : Type 0} → Database × ℤ → (Transaction → Result GoError A) → Run A
read_only_run (database, timeout) body =
    with_read_only_tx (some database.driver) timeout read_committed
      (body_of (body database.transaction))

-- Every error of the transaction becomes the repository's own one; the bodies here do not panic.
abbrev pub value_of : {A : Type 0} → Outcome A → Option A
value_of (returns a) = some a
value_of (fails e) = none
value_of (panics p) = none

unfoldable pub read_only_answer :
    {A : Type 0} → Database × ℤ → (Transaction → Result GoError A) → Option A
read_only_answer database body = value_of (read_only_run database body).outcome

-- The loop over `rows.Next()` and `rows.Err()` behind it, with the errors as they are.
unfoldable pub collect_plain : {A : Type 0} → Result GoError (Rows A) → Result GoError (List A)
collect_plain answer = do
  rows ← answer
  observed ← scan_rows rows.scans []
  rows_failure rows.failure observed
