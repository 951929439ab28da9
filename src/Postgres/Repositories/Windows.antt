-- ===== src/Postgres/Repositories/Windows.antt =====
-- internal/postgres/search.go, daily.go and leaderboard.go: the times and the offset that the statements
-- get.
use usage_viewer.Prelude.{
  ℕ, ◌+◌, ◌-◌, ◌*◌, ◌/◌, ◌≤◌, ◌<◌, ◌≡◌, ◌≢◌, true, [], ◌∷◌, ℤ, pos, wrap64, wrap64-pos, sym, ap,
  ◌∙◌, ◌-ℤ◌, ◌*ℤ◌, max_int64, arith,
}
use usage_viewer.Search.{Query, Window, is_valid, page_size, window_days}
use usage_viewer.Search.Queries.{is_valid-bounds}
use usage_viewer.Postgres.Repositories.{int_argument, time_argument, day, truncate_day, days_before}
use usage_viewer.Postgres.Repositories.Searching.{page_offset}
use usage_viewer.Postgres.Repositories.Reporting.{window_start, daily_usage_arguments}

-- The start of the first of `d` days, of which the last is the day of the time `now`.
abbrev pub first_day : ℕ → ℕ → ℕ
first_day d now = (now / day + 1 - d) * day

days_before-truncate_day :
    (d now : ℕ)
    → 1 ≤ d
    → d * day ≤ now
    → days_before (pos d -ℤ pos 1) (truncate_day (pos now)) ≡ pos (first_day d now)
unfolding days_before truncate_day
days_before-truncate_day d now h b = ground arith

truncate_day-days_before :
    (d now : ℕ)
    → 1 ≤ d
    → d * day ≤ now
    → truncate_day (days_before (pos d -ℤ pos 1) (pos now)) ≡ pos (first_day d now)
unfolding days_before truncate_day
truncate_day-days_before d now h b = ground arith

first_day-bounds :
    (d now : ℕ)
    → 1 ≤ d
    → d * day ≤ now
    → (first_day d now + (d - 1) * day ≤ now) × (now < first_day d now + d * day)
first_day-bounds d now h b = (omega arith, omega arith)

window_days-bound : (w : Window) → window_days w ≤ 30
unfolding window_days
window_days-bound w = ground arith

-- The leaderboard and the daily costs agree on what a number of days means: each begins at the start of a
-- day in UTC, and reaches from there over that many days, of which the last is today.
pub window_start-bounds :
    (w : Window) (now : ℕ)
    → window_days w ≢ 0
    → 30 * day ≤ now
    → (window_start (pos now) w ≡ pos (first_day (window_days w) now))
      × (first_day (window_days w) now + (window_days w - 1) * day ≤ now)
      × (now < first_day (window_days w) now + window_days w * day)
      × ((key : ℤ)
          → daily_usage_arguments key (pos (window_days w)) (pos now)
            ≡ int_argument key
              ∷ time_argument (window_start (pos now) w)
              ∷ time_argument (pos now)
              ∷ [])
unfolding window_start daily_usage_arguments
window_start-bounds w now h b =
    let d = window_days w in
    let l : 1 ≤ d = ground arith in
    let u : d * day ≤ now = omega (arith, window_days-bound w, b) in
    let starts = days_before-truncate_day d now l u in
    (
      starts,
      (first_day-bounds d now l u).0,
      (first_day-bounds d now l u).1,
      λ key.
          ap (λ t. int_argument key ∷ time_argument t ∷ time_argument (pos now) ∷ [])
            (truncate_day-days_before d now l u ∙ sym starts),
    )

wrap64-page :
    (n : ℕ)
    → 1 ≤ n
    → (n - 1) * page_size ≤ max_int64
    → wrap64 (wrap64 (pos n -ℤ pos 1) *ℤ pos page_size) ≡ pos ((n - 1) * page_size)
wrap64-page n h b =
    let minus : pos n -ℤ pos 1 ≡ pos (n - 1) = ground arith in
    let times : pos (n - 1) *ℤ pos page_size ≡ pos ((n - 1) * page_size) = ground arith in
    let small : n - 1 ≤ max_int64 = omega (arith, b) in
    ap (λ x. wrap64 (wrap64 x *ℤ pos page_size)) minus
    ∙ ap (λ x. wrap64 (x *ℤ pos page_size)) (wrap64-pos (n - 1) small)
    ∙ ap wrap64 times
    ∙ wrap64-pos ((n - 1) * page_size) b

-- The offset of a valid query is 20 for each page before its own; its computation never overflows.
pub page_offset-is_valid :
    (q : Query)
    → is_valid q ≡ true
    → (n : ℕ) × (q.page ≡ pos n) × (1 ≤ n) × (page_offset q ≡ pos ((n - 1) * page_size))
unfolding page_offset
page_offset-is_valid q h =
    let ((n, e, l, b), _) = is_valid-bounds q h in
    (n, e, l, ap (λ p. wrap64 (wrap64 (p -ℤ pos 1) *ℤ pos page_size)) e ∙ wrap64-page n l b)
