-- ===== src/Postgres/Repositories/Reporting.antt =====
-- internal/postgres/daily.go, leaderboard.go and selflookup.go: the daily costs of a key, the leaderboard
-- and the self-lookup.
use usage_viewer.Prelude.{
  ◌==◌, Bool, ◌||◌, List, [], ◌∷◌, ◌++◌, Option, none, some, Result, ok, err, ◌>>=◌, Text, bytes,
  text_eq, ℤ, pos, leb_ℤ, ltb_ℤ, ◌-ℤ◌, if◌then◌else◌,
}
use usage_viewer.Diagnostics.{GoError, plain}
use usage_viewer.Search.{
  Window, validate_days, validate_limit, validate_credential, all_windows, window_days,
  window_1_day, window_3_day, window_7_day, window_30_day, mask_key,
}
use usage_viewer.Search.Results.{DailyUsagePoint, LeaderboardEntry, SelfResult}
use usage_viewer.Postgres.Preflight.{rows_failure}
use usage_viewer.Postgres.Statements.{
  daily_usage_sql, leaderboard_sql, self_lookup_sql, today_cost_sql,
}
use usage_viewer.Postgres.Repositories.{
  Argument, text_argument, time_argument, int_argument, RankRow, SelfRow, row, no_rows, row_failed,
  Transaction, Clock, truncate_day, days_before, Repository, usable, read_only_answer,
  collect_plain,
}

-- The key, the start of the first day and the present, as they are bound
unfoldable pub daily_usage_arguments : (key days now : ℤ) → List Argument
daily_usage_arguments key days now =
    int_argument key
    ∷ time_argument (truncate_day (days_before (days -ℤ pos 1) now))
    ∷ time_argument now
    ∷ []

-- The body of DailyUsage
unfoldable pub daily_usage_body :
    (key days now : ℤ) → Transaction → Result GoError (List DailyUsagePoint)
daily_usage_body key days now tx =
    collect_plain (tx.daily_rows daily_usage_sql (daily_usage_arguments key days now))

-- DailyUsage; `none` is ErrDailyUsageUnavailable.
unfoldable pub daily_usage : Option Repository → Clock → ℤ → ℤ → Option (List DailyUsagePoint)
daily_usage repository clock key days = elim (usable repository) [
  | none ↦ none
  | some database ↦ if leb_ℤ key (pos 0) then none else elim (validate_days days) [
    | err e ↦ none
    | ok normalized ↦ read_only_answer database (daily_usage_body key normalized (pos clock.now))
  ]
]

-- windowStart
unfoldable pub window_start : ℤ → Window → ℤ
window_start now w = days_before (pos (window_days w) -ℤ pos 1) (truncate_day now)

abbrev pub Rankings : Type 0
Rankings = List (Window × List LeaderboardEntry)

-- The map that queryLeaderboard starts with
unfoldable pub empty_rankings : List Window → Rankings
empty_rankings [] = []
empty_rankings (w ∷ rest) = (w, []) ∷ empty_rankings rest

-- results[window] = append(results[window], entry)
unfoldable pub append_entry : Window → LeaderboardEntry → Rankings → Rankings
append_entry w entry [] = (w, entry ∷ []) ∷ []
append_entry w entry ((v, entries) ∷ rest) =
    let later = append_entry w entry rest in
    if text_eq v w then (v, entries ++ entry ∷ []) ∷ rest else (v, entries) ∷ later

unfoldable pub entry_of : RankRow → LeaderboardEntry
entry_of r = record {
  rank = r.rank;
  key_masked = mask_key r.raw_key;
  name = r.name;
  group_name = r.group_name;
  actual_cost = r.actual_cost;
}

-- Whether a row names no window or a rank out of bounds.
unfoldable pub row_refused : ℤ → RankRow → Bool
row_refused limit r = window_days r.window_text == 0 || ltb_ℤ r.rank (pos 1) || ltb_ℤ limit r.rank

abbrev pub invalid_ranking : GoError
invalid_ranking = plain (bytes "leaderboard query returned invalid ranking data")

-- The loop of queryLeaderboard
unfoldable pub rank_rows : ℤ → List (Result GoError RankRow) → Rankings → Result GoError Rankings
rank_rows limit [] rankings = ok rankings
rank_rows limit (err e ∷ rest) rankings = err e
rank_rows limit (ok r ∷ rest) rankings =
    let later = rank_rows limit rest (append_entry r.window_text (entry_of r) rankings) in
    if row_refused limit r then err invalid_ranking else later

-- The starts of the windows and the limit, as they are bound
unfoldable pub leaderboard_arguments : (now limit : ℤ) → List Argument
leaderboard_arguments now limit =
    time_argument (window_start now window_1_day)
    ∷ time_argument (window_start now window_3_day)
    ∷ time_argument (window_start now window_7_day)
    ∷ time_argument (window_start now window_30_day)
    ∷ int_argument limit
    ∷ []

-- queryLeaderboard
unfoldable pub query_leaderboard : (now limit : ℤ) → Transaction → Result GoError Rankings
query_leaderboard now limit tx = do
  rows ← tx.rank_rows leaderboard_sql (leaderboard_arguments now limit)
  rankings ← rank_rows limit rows.scans (empty_rankings all_windows)
  rows_failure rows.failure rankings

-- Top; `none` is ErrLeaderboardUnavailable.
unfoldable pub top : Option Repository → Clock → ℤ → Option Rankings
top repository clock limit = elim (usable repository) [
  | none ↦ none
  | some database ↦ elim (validate_limit limit) [
    | err e ↦ none
    | ok normalized ↦ read_only_answer database (query_leaderboard (pos clock.now) normalized)
  ]
]

unfoldable pub self_result : SelfRow → Text → SelfResult
self_result r today_cost = record {
  key_masked = mask_key r.raw_key;
  name = r.name;
  group_name = r.group_name;
  quota = r.quota;
  quota_used = r.quota_used;
  status = r.status;
  expires_at = r.expires_at;
  today_cost = today_cost;
  daily_usage = [];
}

-- The body of Lookup
unfoldable pub lookup_body : Text → ℤ → Transaction → Result GoError (Option (SelfResult × ℤ))
lookup_body value today tx = elim (tx.self_row self_lookup_sql (text_argument value ∷ [])) [
  | no_rows ↦ ok none
  | row_failed e ↦ err e
  | row r ↦ elim (tx.cost today_cost_sql (int_argument r.id ∷ time_argument today ∷ [])) [
    | err e ↦ err e
    | ok today_cost ↦ ok (some (self_result r today_cost, r.id))
  ]
]

-- ErrSelfLookupUnavailable
abbrev pub err_self_lookup_unavailable : GoError
err_self_lookup_unavailable = plain (bytes "self-lookup is temporarily unavailable")

-- Any error of the transaction becomes ErrSelfLookupUnavailable.
abbrev pub or_self_lookup_unavailable : {A : Type 0} → Option A → Result GoError A
or_self_lookup_unavailable none = err err_self_lookup_unavailable
or_self_lookup_unavailable (some a) = ok a

-- Lookup; `none` says that no key matches.
unfoldable pub self_lookup :
    Option Repository → Clock → Text → Result GoError (Option (SelfResult × ℤ))
self_lookup repository clock credential = elim (usable repository) [
  | none ↦ err err_self_lookup_unavailable
  | some database ↦ elim (validate_credential credential) [
    | err e ↦ err err_self_lookup_unavailable
    | ok value ↦
        or_self_lookup_unavailable
          (read_only_answer database (lookup_body value (truncate_day (pos clock.now))))
  ]
]
