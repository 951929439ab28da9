-- ===== src/Postgres/Repositories/Reports/Lookups.antt =====
-- internal/postgres/selflookup.go: what the transaction of `Lookup` returns.
use usage_viewer.Prelude.{
  ◌≡◌, ◌⊎◌, inl, inr, refl, [], ◌∷◌, Option, none, some, Result, ok, Text, ℤ, Result-cases, arith,
}
use usage_viewer.Diagnostics.{GoError}
use usage_viewer.Search.{mask_key}
use usage_viewer.Search.Results.{SelfResult}
use usage_viewer.Postgres.Statements.{self_lookup_sql, today_cost_sql}
use usage_viewer.Postgres.Repositories.{
  text_argument, time_argument, int_argument, SelfRow, RowAnswer, row, no_rows, row_failed,
  Transaction,
}
use usage_viewer.Postgres.Repositories.Reporting.{self_result, lookup_body}

-- The row of a key and its cost of the day, with the key masked.
abbrev pub own_row : SelfRow → Text → SelfResult
own_row r cost = record {
  key_masked = mask_key r.raw_key;
  name = r.name;
  group_name = r.group_name;
  quota = r.quota;
  quota_used = r.quota_used;
  status = r.status;
  expires_at = r.expires_at;
  today_cost = cost;
  daily_usage = [];
}

self_result-own_row : (r : SelfRow) (cost : Text) → self_result r cost ≡ own_row r cost
unfolding self_result
self_result-own_row r cost = refl

-- What a transaction answers about a credential: no row, or a row and its cost of the day.
abbrev pub Looked : Transaction → Text → ℤ → Option (SelfResult × ℤ) → Type 0
Looked tx value today none = tx.self_row self_lookup_sql (text_argument value ∷ []) ≡ no_rows
Looked tx value today (some (result, id)) =
    (r : SelfRow) × (cost : Text) × (tx.self_row self_lookup_sql (text_argument value ∷ []) ≡ row r)
    × (tx.cost today_cost_sql (int_argument r.id ∷ time_argument today ∷ []) ≡ ok cost)
    × (result ≡ own_row r cost)
    × (id ≡ r.id)

pub RowAnswer-cases :
    (a : RowAnswer)
    → ((r : SelfRow) × (a ≡ row r)) ⊎ ((a ≡ no_rows) ⊎ ((e : GoError) × (a ≡ row_failed e)))
RowAnswer-cases (row r) = inl (r, refl)
RowAnswer-cases no_rows = inr (inl refl)
RowAnswer-cases (row_failed e) = inr (inr (e, refl))

module _ (value : Text) (today : ℤ) (tx : Transaction) where
  abbrev self_answer : RowAnswer
  self_answer = tx.self_row self_lookup_sql (text_argument value ∷ [])

  abbrev cost_answer : SelfRow → Result GoError Text
  cost_answer r = tx.cost today_cost_sql (int_argument r.id ∷ time_argument today ∷ [])

  pub lookup_body-Looked :
      (found : Option (SelfResult × ℤ))
      → lookup_body value today tx ≡ ok found
      → Looked tx value today found
  unfolding lookup_body
  lookup_body-Looked none h = elim (RowAnswer-cases self_answer) [
    | inl (r, q) ↦ elim (Result-cases (cost_answer r)) [
      | inl (cost, c) ↦ absurd (ground arith)
      | inr (e, c) ↦ absurd (ground arith)
    ]
    | inr (inl n) ↦ n
    | inr (inr (e, f)) ↦ absurd (ground arith)
  ]
  lookup_body-Looked (some (result, id)) h = elim (RowAnswer-cases self_answer) [
    | inl (r, q) ↦ elim (Result-cases (cost_answer r)) [
      | inl (cost, c) ↦ (r, cost, q, c, ground (arith, self_result-own_row r cost), ground arith)
      | inr (e, c) ↦ absurd (ground arith)
    ]
    | inr (inl n) ↦ absurd (ground arith)
    | inr (inr (e, f)) ↦ absurd (ground arith)
  ]

  pub Looked-lookup_body :
      (found : Option (SelfResult × ℤ))
      → Looked tx value today found
      → lookup_body value today tx ≡ ok found
  unfolding lookup_body
  Looked-lookup_body none n = ground (arith, n)
  Looked-lookup_body (some (result, id)) (r, cost, q, c, s, i) =
      ground (arith, q, c, s, i, self_result-own_row r cost)
