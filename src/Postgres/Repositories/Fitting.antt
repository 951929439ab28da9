-- ===== src/Postgres/Repositories/Fitting.antt =====
-- internal/postgres: no statement is sent with other arguments than it has parameters.
use usage_viewer.Prelude.{
  ◌≡◌, refl, inl, inr, true, List, [], ◌∷◌, some, Text, ℤ, pos, length, arith,
}
use usage_viewer.Search.{Query}
use usage_viewer.Postgres.Catalog.{
  connectivity_probe_sql, role_evidence_sql, read_only_evidence_sql, relation_evidence_sql,
  column_evidence_sql,
}
use usage_viewer.Postgres.Catalog.Authority.{authority_evidence_sql}
use usage_viewer.Postgres.Statements.{
  daily_usage_sql, leaderboard_sql, self_lookup_sql, today_cost_sql,
}
use usage_viewer.Postgres.Listing.{
  listing_sql, key_count_browse_sql, key_count_text_sql, escape_like_text,
}
use usage_viewer.Postgres.Contract.{Contract, current_contract}
use usage_viewer.Postgres.Preflight.{
  Connection, contract_schemas, contract_tables, contract_columns, relation_schemas, relation_names,
  check_light_admission, check_connection_admission, collect_snapshot,
}
use usage_viewer.Postgres.Repositories.{
  Argument, text_argument, time_argument, int_argument, Transaction, Clock, truncate_day,
  days_before,
}
use usage_viewer.Postgres.Repositories.Searching.{
  collect_key_results, count_keys, listing_arguments, search_keys, search_body,
}
use usage_viewer.Postgres.Repositories.Reporting.{
  daily_usage_arguments, daily_usage_body, leaderboard_arguments, query_leaderboard, lookup_body,
}
use usage_viewer.Postgres.Repositories.Reports.Lookups.{RowAnswer-cases}
use usage_viewer.Postgres.Repositories.Parameters.{
  has_parameters, search_parameters, fixed_parameters, evidence_parameters,
}

-- The arguments are as many as the parameters of the statement, which are exactly `$1`, `$2` and so on.
abbrev pub Fits : Text → List Argument → Type 0
Fits statement arguments = has_parameters (length arguments) statement ≡ true

-- Two transactions that answer alike to statements whose arguments fit; what else they answer is open.
pub record Agree (tx other : Transaction) : Type 0 where
  pub count : (s : Text) (a : List Argument) → Fits s a → tx.count s a ≡ other.count s a
  pub key_rows : (s : Text) (a : List Argument) → Fits s a → tx.key_rows s a ≡ other.key_rows s a
  pub daily_rows :
      (s : Text) (a : List Argument) → Fits s a → tx.daily_rows s a ≡ other.daily_rows s a
  pub rank_rows : (s : Text) (a : List Argument) → Fits s a → tx.rank_rows s a ≡ other.rank_rows s a
  pub self_row : (s : Text) (a : List Argument) → Fits s a → tx.self_row s a ≡ other.self_row s a
  pub cost : (s : Text) (a : List Argument) → Fits s a → tx.cost s a ≡ other.cost s a

module _ (tx other : Transaction) (agree : Agree tx other) where
  count_keys-Agree : (q : Query) → count_keys tx q ≡ count_keys other q
  unfolding count_keys
  count_keys-Agree q =
      let all = agree.count key_count_browse_sql [] fixed_parameters.0 in
      let some_of =
        agree.count key_count_text_sql (text_argument (escape_like_text q.text) ∷ [])
          fixed_parameters.1 in
      ground (arith, all, some_of)

  search_keys-Agree :
      (q : Query) (today before now : ℤ)
      → search_keys tx q today before now ≡ search_keys other q today before now
  unfolding search_keys collect_key_results
  search_keys-Agree q today before now =
      let a = listing_arguments q today before now in
      rw (agree.key_rows (listing_sql q) a (search_parameters q today before now)) refl

  search_body-Agree :
      (q : Query) (clock : Clock) → search_body q clock tx ≡ search_body q clock other
  unfolding search_body
  search_body-Agree q clock =
      let today = truncate_day (pos clock.now) in
      rw
        (
          search_body,
          count_keys-Agree q,
          search_keys-Agree q today (days_before (pos 30) today) (pos clock.later),
        )
        refl

  daily_usage_body-Agree :
      (key days now : ℤ) → daily_usage_body key days now tx ≡ daily_usage_body key days now other
  unfolding daily_usage_body daily_usage_arguments
  daily_usage_body-Agree key days now =
      rw (agree.daily_rows daily_usage_sql (daily_usage_arguments key days now) fixed_parameters.2)
        refl

  query_leaderboard-Agree :
      (now limit : ℤ) → query_leaderboard now limit tx ≡ query_leaderboard now limit other
  unfolding query_leaderboard leaderboard_arguments
  query_leaderboard-Agree now limit =
      rw (agree.rank_rows leaderboard_sql (leaderboard_arguments now limit) fixed_parameters.3) refl

  lookup_body-Agree :
      (value : Text) (today : ℤ) → lookup_body value today tx ≡ lookup_body value today other
  unfolding lookup_body
  lookup_body-Agree value today =
      let own = agree.self_row self_lookup_sql (text_argument value ∷ []) fixed_parameters.4 in
      elim (RowAnswer-cases (other.self_row self_lookup_sql (text_argument value ∷ []))) [
        | inl (r, q) ↦
            let arguments = int_argument r.id ∷ time_argument today ∷ [] in
            ground (arith, own, q, agree.cost today_cost_sql arguments fixed_parameters.5)
        | inr (inl n) ↦ ground (arith, own, n)
        | inr (inr (e, f)) ↦ ground (arith, own, f)
      ]

  -- What the repositories ask of a transaction, they ask by statements whose arguments fit: a search, the
  -- daily costs of a key, the leaderboard and a self-lookup come out the same in two transactions that answer
  -- alike to statements with exactly as many arguments as they have parameters, whatever the transactions
  -- answer to others.
  pub bodies-Agree :
      (q : Query) (clock : Clock) (key days now limit today : ℤ) (value : Text)
      → (search_body q clock tx ≡ search_body q clock other)
        × (daily_usage_body key days now tx ≡ daily_usage_body key days now other)
        × (query_leaderboard now limit tx ≡ query_leaderboard now limit other)
        × (lookup_body value today tx ≡ lookup_body value today other)
  bodies-Agree q clock key days now limit today value = (
    search_body-Agree q clock,
    daily_usage_body-Agree key days now,
    query_leaderboard-Agree now limit,
    lookup_body-Agree value today,
  )

-- Two connections that answer alike to statements with as many arguments as they have parameters.
pub record AgreeAlso (conn other : Connection) : Type 0 where
  pub int_row : (s : Text) → has_parameters 0 s ≡ true → conn.int_row s ≡ other.int_row s
  pub bool_row : (s : Text) → has_parameters 0 s ≡ true → conn.bool_row s ≡ other.bool_row s
  pub role_row : (s : Text) → has_parameters 0 s ≡ true → conn.role_row s ≡ other.role_row s
  pub authority_row :
      (s : Text) (a b c : List Text)
      → has_parameters 3 s ≡ true
      → conn.authority_row s a b c ≡ other.authority_row s a b c
  pub relation_rows :
      (s : Text) (a b : List Text)
      → has_parameters 2 s ≡ true
      → conn.relation_rows s a b ≡ other.relation_rows s a b
  pub column_rows :
      (s : Text) (a b c : List Text)
      → has_parameters 3 s ≡ true
      → conn.column_rows s a b c ≡ other.column_rows s a b c

module _ (conn other : Connection) (agree : AgreeAlso conn other) where
  collect_snapshot-Agree :
      (contract : Contract) → collect_snapshot conn contract ≡ collect_snapshot other contract
  unfolding collect_snapshot
  collect_snapshot-Agree contract =
      let schemas = contract_schemas contract in
      let tables = contract_tables contract in
      let columns = contract_columns contract in
      rw
        (
          agree.role_row role_evidence_sql evidence_parameters.1,
          agree.bool_row read_only_evidence_sql evidence_parameters.2,
          agree.authority_row authority_evidence_sql schemas tables columns evidence_parameters.3,
          agree.relation_rows relation_evidence_sql (relation_schemas contract)
              (relation_names contract) evidence_parameters.4,
          agree.column_rows column_evidence_sql schemas tables columns evidence_parameters.5,
        )
        refl

  light-Agree : check_light_admission (some conn) ≡ check_light_admission (some other)
  unfolding check_light_admission
  light-Agree = rw (agree.int_row connectivity_probe_sql evidence_parameters.0) refl

  -- The admission of a connection, the light one and that by evidence, comes out the same for two connections
  -- that answer alike to statements which are sent with exactly as many arguments as they have parameters,
  -- whatever the connections answer to others.
  pub check_connection_admission-Agree :
      (expected : Text)
      → (check_light_admission (some conn) ≡ check_light_admission (some other))
        × (check_connection_admission (some conn) expected
            ≡ check_connection_admission (some other) expected)
  unfolding check_connection_admission
  check_connection_admission-Agree expected =
      (light-Agree, ground (arith, light-Agree, collect_snapshot-Agree current_contract))
