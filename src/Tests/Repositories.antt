-- ===== src/Tests/Repositories.antt =====
-- internal/postgres: the repositories, at concrete answers of the database.
use usage_viewer.Prelude.{
  err, length, if◌then◌else◌, ◌≡◌, refl, inl, inr, true, [], ◌∷◌, none, some, ok, bytes, trim_space,
  valid_utf8, rune_count, pos, arith,
}
use usage_viewer.Diagnostics.{GoError, plain}
use usage_viewer.Postgres.Repositories.Fitting.{Agree, bodies-Agree}
use usage_viewer.Postgres.Repositories.Parameters.{has_parameters}
use usage_viewer.Postgres.Repositories.{row_failed}
use usage_viewer.Postgres.Repositories.Searching.{search_body}
use usage_viewer.Postgres.Repositories.Reporting.{daily_usage_body, lookup_body}
use usage_viewer.Search.{window_7_day, all_windows, validate_credential}
use usage_viewer.Postgres.ReadOnly.{Driver}
use usage_viewer.Postgres.Repositories.{
  KeyRow, RankRow, SelfRow, row, Transaction, Database, Clock, Repository,
}
use usage_viewer.Postgres.Repositories.Searching.{search}
use usage_viewer.Postgres.Repositories.Reporting.{query_leaderboard, self_lookup}
use usage_viewer.Postgres.Repositories.Rankings.{Ranked, rankings_of, query_leaderboard_iff}
use usage_viewer.Postgres.Repositories.Answers.{Succeeds, Usable}
use usage_viewer.Postgres.Repositories.Listings.{results_of, search_iff}
use usage_viewer.Postgres.Repositories.Reports.Lookups.{own_row}
use usage_viewer.Postgres.Repositories.Reports.{self_lookup_iff}
use usage_viewer.Tests.Statements.{redis, third_page, third_page_valid, noon}

abbrev listed : KeyRow
listed = record {
  id = pos 7;
  name = bytes "build";
  group_name = [];
  quota = bytes "0";
  quota_used = bytes "0";
  expires_at = [];
  last_used_at = [];
  status = bytes "active";
  created_at = [];
  total30d_cost = bytes "1.5";
  today_cost = bytes "0.5";
}

abbrev ranked : RankRow
ranked = record {
  window_text = window_7_day;
  rank = pos 1;
  id = pos 7;
  raw_key = bytes "sk-0123456789abcdef";
  name = bytes "build";
  group_name = [];
  actual_cost = bytes "1.5";
}

abbrev own : SelfRow
own = record {
  id = pos 7;
  raw_key = bytes "sk-0123456789abcdef";
  name = bytes "build";
  group_name = [];
  quota = bytes "0";
  quota_used = bytes "0";
  status = bytes "active";
  expires_at = [];
}

-- A transaction in which each statement finds one row.
abbrev single : Transaction
single = record {
  count = λ s a. ok (pos 1);
  key_rows = λ s a. ok (record { scans = ok listed ∷ []; failure = none });
  daily_rows = λ s a. ok (record { scans = []; failure = none });
  rank_rows = λ s a. ok (record { scans = ok ranked ∷ []; failure = none });
  self_row = λ s a. row own;
  cost = λ s a. ok (bytes "0.5");
}

ranked-Ranked : Ranked (pos 10) ranked
ranked-Ranked = record {
  in_window = inr (inr (inl refl));
  positive = ground arith;
  within = ground arith;
}

query_leaderboard_iff_example :
    query_leaderboard (pos noon) (pos 10) single ≡ ok (rankings_of all_windows (ranked ∷ []))
query_leaderboard_iff_example =
    (query_leaderboard_iff single (pos noon) (pos 10) (rankings_of all_windows (ranked ∷ []))).1 (
      ranked ∷ [],
      record {
        answer = record { scans = ok ranked ∷ []; failure = none };
        queried = refl;
        scanned = refl;
        complete = refl;
        ranked = (ranked-Ranked, tt);
      },
      refl,
    )

abbrev working : Driver
working = record {
  context_error = none;
  begin_tx = λ o. none;
  setting = λ _. ok true;
  commit = none;
}

abbrev pub store : Database
store = record { driver = working; transaction = single }

abbrev viewer : Repository
viewer = record { pool = some store; timeout = pos 1000000000 }

abbrev pub midday : Clock
midday = record { now = noon; later = noon }

working-Succeeds : Succeeds working
working-Succeeds = record { in_time = refl; begins = refl; only_reads = refl; commits = refl }

viewer-Usable : Usable (some viewer) store (pos 1000000000)
viewer-Usable = record { present = refl; limited = ground arith }

build_accepted : validate_credential (bytes "build") ≡ ok (bytes "build")
unfolding validate_credential trim_space valid_utf8 rune_count
build_accepted = refl

search_iff_example :
    search (some viewer) (some redis) midday third_page
    ≡ some (results_of (some redis) third_page (pos 1) (listed ∷ []))
search_iff_example =
    (search_iff (some viewer) (some redis) midday third_page
        (results_of (some redis) third_page (pos 1) (listed ∷ []))).1
      (
        pos 1,
        listed ∷ [],
        record {
          database = store;
          timeout = pos 1000000000;
          is_usable = viewer-Usable;
          valid = third_page_valid;
          succeeds = working-Succeeds;
          counted = inl (refl, refl);
          listed = refl;
        },
        refl,
      )

self_lookup_iff_example :
    self_lookup (some viewer) midday (bytes "build") ≡ ok (some (own_row own (bytes "0.5"), pos 7))
self_lookup_iff_example =
    (self_lookup_iff (some viewer) midday (bytes "build")
        (some (own_row own (bytes "0.5"), pos 7))).1
      (
        bytes "build",
        store,
        build_accepted,
        record { timeout = pos 1000000000; is_usable = viewer-Usable; succeeds = working-Succeeds },
        (own, bytes "0.5", refl, refl, refl, refl),
      )

abbrev arguments_error : GoError
arguments_error = plain (bytes "expected other arguments")

-- The transaction that answers as `single` does, where the arguments fit.
abbrev careful : Transaction
careful = record {
  count = λ s a. if has_parameters (length a) s then single.count s a else err arguments_error;
  key_rows =
      λ s a. if has_parameters (length a) s then single.key_rows s a else err arguments_error;
  daily_rows =
      λ s a. if has_parameters (length a) s then single.daily_rows s a else err arguments_error;
  rank_rows =
      λ s a. if has_parameters (length a) s then single.rank_rows s a else err arguments_error;
  self_row = λ s a.
      if has_parameters (length a) s then single.self_row s a else row_failed arguments_error;
  cost = λ s a. if has_parameters (length a) s then single.cost s a else err arguments_error;
}

single-Agree : Agree single careful
single-Agree = record {
  count = λ s a h. ground (arith, h);
  key_rows = λ s a h. ground (arith, h);
  daily_rows = λ s a h. ground (arith, h);
  rank_rows = λ s a h. ground (arith, h);
  self_row = λ s a h. ground (arith, h);
  cost = λ s a h. ground (arith, h);
}

bodies-Agree_example :
    (search_body third_page midday single ≡ search_body third_page midday careful)
    × (daily_usage_body (pos 7) (pos 30) (pos noon) single
        ≡ daily_usage_body (pos 7) (pos 30) (pos noon) careful)
    × (query_leaderboard (pos noon) (pos 10) single ≡ query_leaderboard (pos noon) (pos 10) careful)
    × (lookup_body (bytes "build") (pos noon) single
        ≡ lookup_body (bytes "build") (pos noon) careful)
bodies-Agree_example =
    bodies-Agree single careful single-Agree third_page midday (pos 7) (pos 30) (pos noon) (pos 10)
      (pos noon) (bytes "build")
