-- ===== src/Postgres/ReadOnly/Cleanup/Traces.antt =====
-- internal/postgres/readonly.go: what is read off a trace, and the codes of a transaction's errors.
use usage_viewer.Prelude.{
  ℕ, suc, ◌≡◌, refl, ◌⊎◌, true, false, List, [], ◌∷◌, ok, none, some, text_eq, ℤ, pos, ◌≤ℤ◌, leb_ℤ,
  arith,
}
use usage_viewer.Postgres.Catalog.{transaction_read_only_sql}
use usage_viewer.Diagnostics.{
  GoError, code_of, code_database_connectivity, code_database_read_only, canonical_values, wrap,
  as_diagnostic, code_of_diagnostic,
}
use usage_viewer.Postgres.Stages.{connectivity, read_only, at_stage, diagnostic_for_stage}
use usage_viewer.Postgres.ReadOnly.{
  Outcome, returns, fails, panics, Event, begun, asked_setting, ran_body, commit_called,
  rolled_back, Driver, access_read_only, cleanup_timeout,
}

unfoldable pub count_begun : List Event → ℕ
count_begun [] = 0
count_begun (begun _ ∷ es) = suc (count_begun es)
count_begun (_ ∷ es) = count_begun es

unfoldable pub count_rolled_back : List Event → ℕ
count_rolled_back [] = 0
count_rolled_back (rolled_back _ ∷ es) = suc (count_rolled_back es)
count_rolled_back (_ ∷ es) = count_rolled_back es

unfoldable pub count_commit_called : List Event → ℕ
count_commit_called [] = 0
count_commit_called (commit_called ∷ es) = suc (count_commit_called es)
count_commit_called (_ ∷ es) = count_commit_called es

-- The calls of `Commit` that the driver carries out: all of them, or none.
unfoldable pub count_committed : Driver → List Event → ℕ
unfolding count_commit_called
count_committed driver es = elim driver.commit [ none ↦ count_commit_called es | some e ↦ 0 ]

abbrev pub succeeded : {A : Type 0} → Outcome A → ℕ
succeeded (returns a) = 1
succeeded (fails e) = 0
succeeded (panics p) = 0

-- An event that a transaction of this driver may show, given the time limit.
abbrev pub Sound : Driver → ℤ → Event → Type 0
Sound driver timeout (begun o) = o.access_mode ≡ access_read_only
Sound driver timeout asked_setting = Unit
Sound driver timeout ran_body = driver.setting transaction_read_only_sql ≡ ok true
Sound driver timeout commit_called = driver.setting transaction_read_only_sql ≡ ok true
Sound driver timeout (rolled_back limit) =
    (pos 1 ≤ℤ limit) × (limit ≤ℤ timeout) × (limit ≤ℤ pos 1000000000)

pub limit-Sound :
    (driver : Driver) (timeout : ℤ)
    → leb_ℤ timeout (pos 0) ≡ false
    → Sound driver timeout (rolled_back (cleanup_timeout timeout))
unfolding cleanup_timeout
limit-Sound driver timeout h = ground arith

pub at_connectivity : (e : GoError) → code_of (at_stage connectivity e) ≡ code_database_connectivity
unfolding code_of as_diagnostic code_of_diagnostic diagnostic_for_stage wrap canonical_values
    text_eq
at_connectivity e = refl

pub at_read_only : (e : GoError) → code_of (at_stage read_only e) ≡ code_database_read_only
unfolding code_of as_diagnostic code_of_diagnostic diagnostic_for_stage wrap canonical_values
    text_eq
at_read_only e = refl

-- The code of an outcome that fails.
abbrev pub Coded : {A : Type 0} → Outcome A → Type 0
Coded (returns a) = Unit
Coded (panics p) = Unit
Coded (fails e) = (code_of e ≡ code_database_connectivity) ⊎ (code_of e ≡ code_database_read_only)
