-- ===== src/Postgres/Repositories/Searching.antt =====
-- internal/postgres/search.go: the search for keys.
use usage_viewer.Prelude.{
  ◌==◌, not, List, [], ◌∷◌, map, Option, none, some, Result, ok, ◌>>=◌, Text, ℤ, pos, ◌-ℤ◌, ◌*ℤ◌,
  wrap64, if◌then◌else◌,
}
use usage_viewer.Diagnostics.{GoError}
use usage_viewer.Search.{Query, is_valid, mode_browse, page_size}
use usage_viewer.Search.Results.{KeyResult, Results}
use usage_viewer.Concurrency.{Client, resolve, count_of}
use usage_viewer.Postgres.Listing.{
  key_count_browse_sql, key_count_text_sql, listing_sql, escape_like_text,
}
use usage_viewer.Postgres.Repositories.{
  Argument, text_argument, time_argument, int_argument, KeyRow, Transaction, Clock, truncate_day,
  days_before, Repository, usable, read_only_answer, collect_plain,
}

-- collectKeyResults: a row as a result, whose concurrency is not known yet.
unfoldable pub key_result : KeyRow → KeyResult
key_result r = record {
  id = r.id;
  name = r.name;
  group_name = r.group_name;
  current_concurrency = pos 0;
  today_cost = r.today_cost;
  total30d_cost = r.total30d_cost;
  quota = r.quota;
  quota_used = r.quota_used;
  last_used_at = r.last_used_at;
  expires_at = r.expires_at;
  status = r.status;
  created_at = r.created_at;
}

unfoldable pub collect_key_results :
    Transaction → Text → List Argument → Result GoError (List KeyResult)
collect_key_results tx statement arguments = do
  rows ← collect_plain (tx.key_rows statement arguments)
  ok (map key_result rows)

-- countKeys
unfoldable pub count_keys : Transaction → Query → Result GoError ℤ
count_keys tx q =
    if q.mode == mode_browse
    then tx.count key_count_browse_sql []
    else tx.count key_count_text_sql (text_argument (escape_like_text q.text) ∷ [])

-- The offset of searchKeys, in Go's `int`
unfoldable pub page_offset : Query → ℤ
page_offset q = wrap64 (wrap64 (q.page -ℤ pos 1) *ℤ pos page_size)

-- The arguments that searchKeys binds
unfoldable pub listing_arguments : Query → (today thirty_days_ago now : ℤ) → List Argument
listing_arguments q today thirty_days_ago now =
    let window =
      time_argument thirty_days_ago
      ∷ time_argument today
      ∷ time_argument now
      ∷ int_argument (page_offset q)
      ∷ [] in
    if q.mode == mode_browse then window else text_argument (escape_like_text q.text) ∷ window

-- searchKeys
unfoldable pub search_keys :
    Transaction → Query → (today thirty_days_ago now : ℤ) → Result GoError (List KeyResult)
search_keys tx q today thirty_days_ago now =
    collect_key_results tx (listing_sql q) (listing_arguments q today thirty_days_ago now)

-- The body of Search
unfoldable pub search_body : Query → Clock → Transaction → Result GoError (ℤ × List KeyResult)
search_body q clock tx = do
  total ← count_keys tx q
  let today = truncate_day (pos clock.now)
  keys ← search_keys tx q today (days_before (pos 30) today) (pos clock.later)
  ok (total, keys)

unfoldable pub with_concurrency : ℤ → KeyResult → KeyResult
with_concurrency n key = record {
  id = key.id;
  name = key.name;
  group_name = key.group_name;
  current_concurrency = n;
  today_cost = key.today_cost;
  total30d_cost = key.total30d_cost;
  quota = key.quota;
  quota_used = key.quota_used;
  last_used_at = key.last_used_at;
  expires_at = key.expires_at;
  status = key.status;
  created_at = key.created_at;
}

-- Search behind the transaction: the concurrency of each key.
unfoldable pub fill_concurrency : Option Client → List KeyResult → List KeyResult
fill_concurrency resolver keys =
    let counts = resolve resolver (map (λ (k : KeyResult). k.id) keys) in
    map (λ (k : KeyResult). with_concurrency (count_of k.id counts) k) keys

-- Search; `none` is ErrSearchUnavailable.
unfoldable pub search : Option Repository → Option Client → Clock → Query → Option Results
search repository resolver clock q = elim (usable repository) [
  | none ↦ none
  | some database ↦
      if not (is_valid q) then none else elim (read_only_answer database (search_body q clock)) [
        | none ↦ none
        | some (total, keys) ↦ some (record {
          keys = fill_concurrency resolver keys;
          page = q.page;
          page_size = pos page_size;
          total = total;
        })
      ]
]
