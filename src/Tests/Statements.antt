-- ===== src/Tests/Statements.antt =====
-- internal/concurrency, internal/postgres: counters and statements, at concrete answers of Redis.
use usage_viewer.Prelude.{
  ℕ, ◌+◌, ◌-◌, ◌*◌, ◌==◌, ◌≤◌, ◌<◌, ◌≡◌, refl, inl, true, false, [], ◌∷◌, some, bytes, text_eq, ℤ,
  pos, arith, if◌then◌else◌,
}
use usage_viewer.Creds.DotEnv.{print_int, decimal}
use usage_viewer.Search.{
  Query, is_valid, page_in_range, known_sort_by, known_direction, valid_mode, mode_browse,
  target_key, sort_by_today_cost, descending, window_7_day, window_days, page_size,
}
use usage_viewer.Concurrency.{Client, executed, resolve, lookup}
use usage_viewer.Concurrency.Counts.{Holds, resolve-counts}
use usage_viewer.Postgres.Listing.{listing_sql}
use usage_viewer.Postgres.Listing.Escaping.{like, contains_pattern, escape_like_text-like}
use usage_viewer.Postgres.Listing.Ordering.{listing_of, listing_sql-listing_of}
use usage_viewer.Postgres.Repositories.{day, int_argument, time_argument}
use usage_viewer.Postgres.Repositories.Searching.{page_offset}
use usage_viewer.Postgres.Repositories.Reporting.{window_start, daily_usage_arguments}
use usage_viewer.Postgres.Repositories.Windows.{
  first_day, window_start-bounds, page_offset-is_valid,
}

-- Redis holds three request slots and one live lease for each key.
abbrev pub redis : Client
redis = record {
  time = some (pos 1000000);
  zcount = λ key from to. if text_eq key (bytes "concurrency:api_key:7") then pos 3 else pos 1;
  execution = executed;
}

redis-Holds : Holds redis (pos 1000000) (pos 7) 3 1
unfolding print_int decimal text_eq
redis-Holds = record { in_slots = refl; in_live = refl }

resolve-counts_example : lookup (pos 7) (resolve (some redis) (pos 7 ∷ [])) ≡ some (pos 4)
resolve-counts_example =
    resolve-counts redis (pos 7 ∷ []) (pos 7) (pos 1000000) 3 1 (refl, inl refl) redis-Holds
      (ground arith) (ground arith)

escape_like_text-like_example :
    like (λ a b. a == b) false (contains_pattern (bytes "50%_")) (bytes "a 50%_ b") ≡ true
escape_like_text-like_example =
    (escape_like_text-like (λ a b. a == b) (bytes "50%_") (bytes "a 50%_ b")).1
      (bytes "a ", bytes "50%_", bytes " b", refl, refl)

abbrev pub third_page : Query
third_page = record {
  target_type = target_key;
  mode = mode_browse;
  text = [];
  page = pos 3;
  sort_by = sort_by_today_cost;
  sort_direction = descending;
}

pub third_page_valid : is_valid third_page ≡ true
unfolding is_valid text_eq page_in_range known_sort_by known_direction valid_mode
third_page_valid = refl

listing_sql-listing_of_example : listing_sql third_page ≡ listing_of third_page
listing_sql-listing_of_example = listing_sql-listing_of third_page

page_offset-is_valid_example :
    (n : ℕ) × (pos 3 ≡ pos n) × (1 ≤ n) × (page_offset third_page ≡ pos ((n - 1) * page_size))
page_offset-is_valid_example = page_offset-is_valid third_page third_page_valid

abbrev pub noon : ℕ
noon = 40 * day + 43200000000000

window_start-bounds_example :
    (window_start (pos noon) window_7_day ≡ pos (first_day (window_days window_7_day) noon))
    × (first_day (window_days window_7_day) noon + (window_days window_7_day - 1) * day ≤ noon)
    × (noon < first_day (window_days window_7_day) noon + window_days window_7_day * day)
    × ((key : ℤ)
        → daily_usage_arguments key (pos (window_days window_7_day)) (pos noon)
          ≡ int_argument key
            ∷ time_argument (window_start (pos noon) window_7_day)
            ∷ time_argument (pos noon)
            ∷ [])
window_start-bounds_example =
    window_start-bounds window_7_day noon (λ h. unfold window_days text_eq in ground arith)
      (ground arith)
