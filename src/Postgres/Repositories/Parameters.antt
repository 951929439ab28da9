-- ===== src/Postgres/Repositories/Parameters.antt =====
-- internal/postgres: the parameters of the statements.
use usage_viewer.Prelude.{
  ℕ, zero, suc, ◌+◌, leb, ◌==◌, ◌≡◌, refl, Bool, true, false, ◌&&◌, ◌||◌, [], ◌∷◌, Text, ℤ, length,
  arith, if◌then◌else◌, Bool-cases, inl, inr,
}
use usage_viewer.Search.{Query, mode_browse}
use usage_viewer.Postgres.Catalog.{
  connectivity_probe_sql, role_evidence_sql, read_only_evidence_sql, relation_evidence_sql,
  column_evidence_sql,
}
use usage_viewer.Postgres.Catalog.Authority.{authority_evidence_sql}
use usage_viewer.Postgres.Statements.{
  daily_usage_sql, leaderboard_sql, self_lookup_sql, today_cost_sql,
}
use usage_viewer.Postgres.Listing.{
  listing_sql, key_browse_sql_prefix, key_text_sql_prefix, key_count_browse_sql, key_count_text_sql,
  key_browse_by_id_desc_sql, key_browse_by_id_asc_sql, key_browse_by_today_cost_desc_sql,
  key_browse_by_today_cost_asc_sql, key_browse_by_total30d_cost_desc_sql,
  key_browse_by_total30d_cost_asc_sql, key_by_text_sql, key_text_by_id_asc_sql,
  key_text_by_today_cost_desc_sql, key_text_by_today_cost_asc_sql,
  key_text_by_total30d_cost_desc_sql, key_text_by_total30d_cost_asc_sql,
}
use usage_viewer.Postgres.Repositories.Searching.{listing_arguments}

-- Whether a text begins with a digit from 1 to a number.
first_digit_within : ℕ → Text → Bool
first_digit_within n [] = false
first_digit_within n (c ∷ s) = leb 49 c && leb c (48 + n)

first_digit_is : ℕ → Text → Bool
first_digit_is n [] = false
first_digit_is n (c ∷ s) = c == 48 + n

-- Whether every parameter of a statement, a dollar sign and a digit, has a number up to `n`.
unfoldable all_within : ℕ → Text → Bool
unfolding first_digit_within
all_within n [] = true
all_within n (c ∷ s) = (if c == 36 then first_digit_within n s else true) && all_within n s

unfoldable mentions : ℕ → Text → Bool
unfolding first_digit_is
mentions n [] = false
mentions n (c ∷ s) = c == 36 && first_digit_is n s || mentions n s

unfoldable mentions_up_to : ℕ → Text → Bool
mentions_up_to zero s = true
mentions_up_to (suc n) s = mentions (suc n) s && mentions_up_to n s

-- Whether the parameters of a statement are exactly those with the numbers from 1 to `n`.
unfoldable pub has_parameters : ℕ → Text → Bool
unfolding all_within mentions_up_to mentions
has_parameters n s = all_within n s && mentions_up_to n s

browse_parameters :
    (q : Query) → q.mode == mode_browse ≡ true → has_parameters 4 (listing_sql q) ≡ true
unfolding listing_sql has_parameters key_browse_by_id_desc_sql key_browse_by_id_asc_sql
    key_browse_by_today_cost_desc_sql key_browse_by_today_cost_asc_sql
    key_browse_by_total30d_cost_desc_sql key_browse_by_total30d_cost_asc_sql key_browse_sql_prefix
browse_parameters q h = ground arith

text_parameters :
    (q : Query) → q.mode == mode_browse ≡ false → has_parameters 5 (listing_sql q) ≡ true
unfolding listing_sql has_parameters key_by_text_sql key_text_by_id_asc_sql
    key_text_by_today_cost_desc_sql key_text_by_today_cost_asc_sql
    key_text_by_total30d_cost_desc_sql key_text_by_total30d_cost_asc_sql key_text_sql_prefix
text_parameters q h = ground arith

pub fixed_parameters :
    (has_parameters 0 key_count_browse_sql ≡ true)
    × (has_parameters 1 key_count_text_sql ≡ true)
    × (has_parameters 3 daily_usage_sql ≡ true)
    × (has_parameters 5 leaderboard_sql ≡ true)
    × (has_parameters 1 self_lookup_sql ≡ true)
    × (has_parameters 2 today_cost_sql ≡ true)
unfolding has_parameters key_count_browse_sql key_count_text_sql daily_usage_sql leaderboard_sql
    self_lookup_sql today_cost_sql
fixed_parameters = (refl, refl, refl, refl, refl, refl)

pub search_parameters :
    (q : Query) (today before now : ℤ)
    → has_parameters (length (listing_arguments q today before now)) (listing_sql q) ≡ true
unfolding listing_arguments
search_parameters q today before now = elim (Bool-cases (q.mode == mode_browse)) [
  | inl b ↦ ground (arith, browse_parameters q b)
  | inr t ↦ ground (arith, text_parameters q t)
]

pub evidence_parameters :
    (has_parameters 0 connectivity_probe_sql ≡ true)
    × (has_parameters 0 role_evidence_sql ≡ true)
    × (has_parameters 0 read_only_evidence_sql ≡ true)
    × (has_parameters 3 authority_evidence_sql ≡ true)
    × (has_parameters 2 relation_evidence_sql ≡ true)
    × (has_parameters 3 column_evidence_sql ≡ true)
unfolding has_parameters connectivity_probe_sql role_evidence_sql read_only_evidence_sql
    authority_evidence_sql relation_evidence_sql column_evidence_sql
evidence_parameters = (refl, refl, refl, refl, refl, refl)
