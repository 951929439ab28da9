-- ===== src/Postgres/Preflight/Evidence/Coding.antt =====
-- internal/postgres/preflight.go: the codes of the errors that refuse a connection.
use usage_viewer.Prelude.{
  ◌≡◌, refl, ◌⊎◌, inl, inr, Bool, true, false, not, [], some, Result, ok, err, ◌>>=◌, Text, text_eq,
  ℤ, pos, eqb_ℤ, if◌then◌else◌,
}
use usage_viewer.Diagnostics.{
  GoError, Diagnostic, diagnosed, new, wrap, code_of, as_diagnostic, code_of_diagnostic,
  canonical_values, code_database_connectivity, code_database_privilege, code_database_read_only,
  code_schema_compatibility,
}
use usage_viewer.Postgres.Catalog.{
  connectivity_probe_sql, role_evidence_sql, read_only_evidence_sql, relation_evidence_sql,
  column_evidence_sql,
}
use usage_viewer.Postgres.Stages.{
  Stage, connectivity, role, read_only, authority, schema, at_stage, diagnostic_for_stage,
}
use usage_viewer.Postgres.Contract.{Contract}
use usage_viewer.Postgres.Admission.{
  Snapshot, validate_admission, role_refused, exact_relation_match, schema_diagnostic,
  privilege_diagnostic, read_only_diagnostic, exact_schema_match,
}
use usage_viewer.Postgres.Preflight.{
  Rows, Connection, or_stage, scan_rows, rows_failure, collect_rows, collect_snapshot,
  check_light_admission, as_error, contract_schemas, contract_tables, contract_columns,
  relation_schemas, relation_names,
}

-- The codes that a refused connection may show.
abbrev pub IsDatabaseCode : GoError → Type 0
IsDatabaseCode e =
    (code_of e ≡ code_database_connectivity)
    ⊎ (code_of e ≡ code_database_privilege)
    ⊎ (code_of e ≡ code_database_read_only)
    ⊎ (code_of e ≡ code_schema_compatibility)

at_stage-IsDatabaseCode : (stage : Stage) (e : GoError) → IsDatabaseCode (at_stage stage e)
unfolding code_of as_diagnostic code_of_diagnostic diagnostic_for_stage wrap canonical_values
    text_eq
at_stage-IsDatabaseCode connectivity e = inl refl
at_stage-IsDatabaseCode role e = inr (inl refl)
at_stage-IsDatabaseCode read_only e = inr (inr (inl refl))
at_stage-IsDatabaseCode authority e = inr (inl refl)
at_stage-IsDatabaseCode schema e = inr (inr (inr refl))

-- A failed step ends in a database code.
abbrev pub Coded {ℓ} : {A : Type ℓ} → Result GoError A → Type 0
Coded (ok a) = Unit
Coded (err e) = IsDatabaseCode e

or_stage-Coded {ℓ} : {A : Type ℓ} (stage : Stage) (r : Result GoError A) → Coded (or_stage stage r)
or_stage-Coded stage (ok a) = tt
or_stage-Coded stage (err e) = at_stage-IsDatabaseCode stage e

bind-Coded {ℓ κ} :
    {A : Type ℓ} {B : Type κ} (r : Result GoError A) (f : A → Result GoError B)
    → Coded r
    → ((a : A) → Coded (f a))
    → Coded (r >>= f)
bind-Coded (ok a) f c k = k a
bind-Coded (err e) f c k = c

if-Coded {ℓ} :
    {A : Type ℓ} (b : Bool) (m n : Result GoError A)
    → Coded m
    → Coded n
    → Coded (if b then m else n)
if-Coded true m n cm cn = cm
if-Coded false m n cm cn = cn

collect_rows-Coded : {A : Type 0} (answer : Result GoError (Rows A)) → Coded (collect_rows answer)
unfolding collect_rows
collect_rows-Coded answer =
    bind-Coded (or_stage schema answer) _ (or_stage-Coded schema answer) λ rows.
      bind-Coded (or_stage schema (scan_rows rows.scans [])) _
        (or_stage-Coded schema (scan_rows rows.scans []))
        λ o. or_stage-Coded schema (rows_failure rows.failure o)

schema-IsDatabaseCode : IsDatabaseCode (diagnosed schema_diagnostic)
unfolding code_of as_diagnostic code_of_diagnostic new canonical_values text_eq
schema-IsDatabaseCode = inr (inr (inr refl))

pub collect_snapshot-Coded :
    (conn : Connection) (contract : Contract) → Coded (collect_snapshot conn contract)
unfolding collect_snapshot
collect_snapshot-Coded conn contract =
    bind-Coded (or_stage role (conn.role_row role_evidence_sql)) _
      (or_stage-Coded role (conn.role_row role_evidence_sql))
      λ r.
        bind-Coded (or_stage read_only (conn.bool_row read_only_evidence_sql)) _
          (or_stage-Coded read_only (conn.bool_row read_only_evidence_sql))
          λ w. bind-Coded (or_stage authority _) _ (or_stage-Coded authority _) λ a.
            bind-Coded
              (collect_rows (
                conn.relation_rows relation_evidence_sql (relation_schemas contract)
                  (relation_names contract)))
              _ (collect_rows-Coded _)
              λ relations.
                if-Coded (not (exact_relation_match contract relations)) _ _ schema-IsDatabaseCode (
                  bind-Coded
                    (collect_rows (
                      conn.column_rows column_evidence_sql (contract_schemas contract)
                        (contract_tables contract) (contract_columns contract)))
                    _ (collect_rows-Coded _) (λ columns. tt))

if_error-Coded :
    (b : Bool) (m n : Result Diagnostic (Unit {0}))
    → Coded (as_error m)
    → Coded (as_error n)
    → Coded (as_error (if b then m else n))
if_error-Coded true m n cm cn = cm
if_error-Coded false m n cm cn = cn

privilege-IsDatabaseCode : IsDatabaseCode (diagnosed privilege_diagnostic)
unfolding code_of as_diagnostic code_of_diagnostic new canonical_values text_eq
privilege-IsDatabaseCode = inr (inl refl)

read_only-IsDatabaseCode : IsDatabaseCode (diagnosed read_only_diagnostic)
unfolding code_of as_diagnostic code_of_diagnostic new canonical_values text_eq
read_only-IsDatabaseCode = inr (inr (inl refl))

pub as_error-Coded :
    (expected : Text) (contract : Contract) (s : Snapshot)
    → Coded (as_error (validate_admission expected contract s))
unfolding validate_admission
as_error-Coded expected contract s =
    if_error-Coded (role_refused expected s) _ _ privilege-IsDatabaseCode (
      if_error-Coded (not s.default_transaction_read_only) _ _ read_only-IsDatabaseCode (
        if_error-Coded (not (exact_relation_match contract s.required_relations)) _ _
          schema-IsDatabaseCode
          (if_error-Coded (not (exact_schema_match contract s.required_columns).1) _ _
            schema-IsDatabaseCode
            (if_error-Coded (not (exact_schema_match contract s.required_columns).0) _ _
              privilege-IsDatabaseCode tt))))

pub probe-Coded : (conn : Connection) → Coded (check_light_admission (some conn))
unfolding check_light_admission
probe-Coded conn = split (conn.int_row connectivity_probe_sql)
  where
    split :
        (r : Result GoError ℤ)
        → Coded (check_light_admission (some (record conn { int_row = λ _. r })))
    split (err e) = at_stage-IsDatabaseCode connectivity e
    split (ok n) = if-Coded (eqb_ℤ n (pos 1)) _ _ tt (at_stage-IsDatabaseCode connectivity _)
