-- ===== src/Postgres/Repositories/Listings.antt =====
-- internal/postgres/search.go: when `Search` answers, and with what.
use usage_viewer.Prelude.{
  ◌==◌, ◌≡◌, ◌↔◌, ◌⊎◌, inl, inr, refl, ap, ◌∙◌, true, false, Bool-cases, [], ◌∷◌, List, map, Option,
  none, some, ok, ℤ, pos, Option-cases, Result-cases, arith,
}
use usage_viewer.Search.{Query, is_valid, mode_browse, page_size}
use usage_viewer.Search.Results.{KeyResult, Results}
use usage_viewer.Concurrency.{Client, lookup, count_of, resolve}
use usage_viewer.Postgres.Listing.{
  listing_sql, key_count_browse_sql, key_count_text_sql, escape_like_text,
}
use usage_viewer.Postgres.Repositories.{
  text_argument, KeyRow, Transaction, Database, Clock, Repository, usable, read_only_answer,
  collect_plain, days_before, truncate_day,
}
use usage_viewer.Postgres.Repositories.Searching.{
  key_result, collect_key_results, count_keys, listing_arguments, search_keys, search_body,
  with_concurrency, fill_concurrency, search,
}
use usage_viewer.Postgres.Repositories.Answers.{
  Succeeds, Usable, usable_iff, read_only_answer_iff, collect_plain_iff,
}

abbrev pub today_of : Clock → ℤ
today_of clock = truncate_day (pos clock.now)

-- The count of an id among those that a resolver has counted, 0 where there is none.
abbrev pub in_flight : Option Client → List ℤ → ℤ → ℤ
in_flight resolver ids id = elim (lookup id (resolve resolver ids)) [ none ↦ pos 0 | some n ↦ n ]

-- A listed row as it is answered, when the ids of the page are those given.
abbrev pub answered_key : Option Client → List ℤ → KeyRow → KeyResult
answered_key resolver ids r = record {
  id = r.id;
  name = r.name;
  group_name = r.group_name;
  current_concurrency = in_flight resolver ids r.id;
  today_cost = r.today_cost;
  total30d_cost = r.total30d_cost;
  quota = r.quota;
  quota_used = r.quota_used;
  last_used_at = r.last_used_at;
  expires_at = r.expires_at;
  status = r.status;
  created_at = r.created_at;
}

abbrev pub ids_of : List KeyRow → List ℤ
ids_of rows = map (λ (r : KeyRow). r.id) rows

-- The answer to a search: the rows of the page, with the requests in flight for the ids of the page.
abbrev pub results_of : Option Client → Query → ℤ → List KeyRow → Results
results_of resolver q total rows = record {
  keys = map (answered_key resolver (ids_of rows)) rows;
  page = q.page;
  page_size = pos page_size;
  total = total;
}

-- The count of the keys, of all or of those that the text of the query occurs in.
abbrev pub Counted : Transaction → Query → ℤ → Type 0
Counted tx q total =
    ((q.mode == mode_browse ≡ true) × (tx.count key_count_browse_sql [] ≡ ok total))
    ⊎ ((q.mode == mode_browse ≡ false)
        × (tx.count key_count_text_sql (text_argument (escape_like_text q.text) ∷ []) ≡ ok total))

Counted-iff :
    (tx : Transaction) (q : Query) (total : ℤ) → (count_keys tx q ≡ ok total) ↔ Counted tx q total
unfolding count_keys
Counted-iff tx q total = (
  λ h. elim (Bool-cases (q.mode == mode_browse)) [
    | inl b ↦ inl (b, ground arith)
    | inr b ↦ inr (b, ground arith)
  ],
  λ c. elim c [ inl (b, h) ↦ ground (arith, b, h) | inr (b, h) ↦ ground (arith, b, h) ],
)

ids_of-map :
    (rows : List KeyRow) → map (λ (k : KeyResult). k.id) (map key_result rows) ≡ ids_of rows
unfolding key_result
ids_of-map [] = refl
ids_of-map (r ∷ rows) = ap (λ ids. r.id ∷ ids) (ids_of-map rows)

filled_rows :
    (resolver : Option Client) (ids : List ℤ) (rows : List KeyRow)
    → map
        (λ (k : KeyResult). with_concurrency (count_of k.id (resolve resolver ids)) k)
        (map key_result rows)
      ≡ map (answered_key resolver ids) rows
unfolding key_result with_concurrency count_of
filled_rows resolver ids [] = refl
filled_rows resolver ids (r ∷ rows) =
    ap (λ ks. answered_key resolver ids r ∷ ks) (filled_rows resolver ids rows)

filled :
    (resolver : Option Client) (rows : List KeyRow)
    → fill_concurrency resolver (map key_result rows)
      ≡ map (answered_key resolver (ids_of rows)) rows
unfolding fill_concurrency
filled resolver rows =
    ap
      (λ ids.
        map (λ (k : KeyResult). with_concurrency (count_of k.id (resolve resolver ids)) k)
          (map key_result rows))
      (ids_of-map rows)
    ∙ filled_rows resolver (ids_of rows) rows

-- What makes a search answer: its parts, and the rows that the database gives.
pub record Searched (repository : Option Repository) (clock : Clock) (q : Query) (total : ℤ)
    (rows : List KeyRow) : Type 0 where
  pub database : Database
  pub timeout : ℤ
  pub is_usable : Usable repository database timeout
  pub valid : is_valid q ≡ true
  pub succeeds : Succeeds database.driver
  pub counted : Counted database.transaction q total
  pub listed :
      database.transaction.key_rows (listing_sql q) (
        listing_arguments q
          (today_of clock)
          (days_before (pos 30) (today_of clock))
          (pos clock.later))
      ≡ ok (record { scans = map ok rows; failure = none })

search_keys_iff :
    (tx : Transaction) (q : Query) (today before now : ℤ) (keys : List KeyResult)
    → (search_keys tx q today before now ≡ ok keys) ↔ (
        (rows : List KeyRow) × (tx.key_rows (listing_sql q) (listing_arguments q today before now)
          ≡ ok (record { scans = map ok rows; failure = none }))
        × (keys ≡ map key_result rows))
unfolding search_keys collect_key_results
search_keys_iff tx q today before now keys =
    let answer = tx.key_rows (listing_sql q) (listing_arguments q today before now) in
    (
      λ h. elim (Result-cases (collect_plain answer)) [
        | inr (e, c) ↦ absurd (ground arith)
        | inl (rows, c) ↦ (rows, (collect_plain_iff answer rows).0 c, ground arith)
      ],
      λ (rows, e, k). ground (arith, (collect_plain_iff answer rows).1 e, k),
    )

search_body_iff :
    (q : Query) (clock : Clock) (tx : Transaction) (total : ℤ) (keys : List KeyResult)
    → (search_body q clock tx ≡ ok (total, keys)) ↔ (
        (count_keys tx q ≡ ok total)
        × (search_keys tx q
              (today_of clock)
              (days_before (pos 30) (today_of clock))
              (pos clock.later)
            ≡ ok keys))
unfolding search_body
search_body_iff q clock tx total keys = (λ h. ground arith, λ h. ground arith)

module _ (repository : Option Repository) (resolver : Option Client) (clock : Clock) (q : Query)
    (results : Results) where
  -- `Search` answers exactly when the repository is in order, the query is valid, its transaction succeeds,
  -- and so do the count and the listing for the query in it. It then answers with the rows of that listing,
  -- in their order, each with the number that the resolver, asked for the ids of all of them, has for its id,
  -- or 0 where it has none, with the page of the query and the count.
  pub search_iff : (search repository resolver clock q ≡ some results) ↔ (
      (total : ℤ) × (rows : List KeyRow) × Searched repository clock q total rows
      × (results ≡ results_of resolver q total rows))
  unfolding search
  search_iff = (
    λ h. elim (Option-cases (usable repository)) [
      | inl u ↦ absurd (ground arith)
      | inr ((database, timeout), u) ↦
          elim (Option-cases (read_only_answer (database, timeout) (search_body q clock))) [
            | inl n ↦ absurd (ground arith)
            | inr ((total, keys), a) ↦
                let (l, s, b) =
                  (read_only_answer_iff database timeout (search_body q clock) (total, keys)).0 a in
                let (c, k) = (search_body_iff q clock database.transaction total keys).0 b in
                let (rows, e, m) =
                  (search_keys_iff database.transaction q (today_of clock)
                      (days_before (pos 30) (today_of clock)) (pos clock.later) keys).0
                    k in
                (
                  total,
                  rows,
                  record {
                    database = database;
                    timeout = timeout;
                    is_usable = (usable_iff repository database timeout).0 u;
                    valid = ground arith;
                    succeeds = s;
                    counted = (Counted-iff database.transaction q total).0 c;
                    listed = e;
                  },
                  ground (arith, ap (fill_concurrency resolver) m, filled resolver rows),
                )
          ]
    ],
    λ (total, rows, d, r).
        let k =
          (search_keys_iff d.database.transaction q (today_of clock)
              (days_before (pos 30) (today_of clock)) (pos clock.later) (map key_result rows)).1
            (rows, d.listed, refl) in
        let b =
          (search_body_iff q clock d.database.transaction total (map key_result rows)).1
            ((Counted-iff d.database.transaction q total).1 d.counted, k) in
        let a =
          (read_only_answer_iff d.database d.timeout (search_body q clock)
              (total, map key_result rows)).1
            (d.is_usable.limited, d.succeeds, b) in
        let u = (usable_iff repository d.database d.timeout).1 d.is_usable in
        ground (arith, u, a, d.valid, r, filled resolver rows),
  )
