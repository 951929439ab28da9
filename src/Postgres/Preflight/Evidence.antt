-- ===== src/Postgres/Preflight/Evidence.antt =====
-- internal/postgres/preflight.go: which evidence admits a connection, and what a refusal says.
pub mod Coding
use mathlib.Core.Path.{subst}
use usage_viewer.Prelude.{
  ◌≡◌, ◌↔◌, refl, sym, ap, ◌∙◌, ◌⊎◌, inl, inr, Bool, true, false, not, [], some, Result, ok, err,
  ◌>>=◌, Result-cases, Text, text_eq, ℤ, pos, eqb_ℤ, eqb_ℤ→eq, arith, if◌then◌else◌,
}
use usage_viewer.Diagnostics.{
  GoError, Diagnostic, diagnosed, new, wrap, code_of, as_diagnostic, code_of_diagnostic,
  canonical_values, code_database_connectivity, code_database_privilege, code_database_read_only,
  code_schema_compatibility,
}
use usage_viewer.Postgres.Catalog.{
  connectivity_probe_sql, role_evidence_sql, read_only_evidence_sql, relation_evidence_sql,
  column_evidence_sql,
}
use usage_viewer.Postgres.Catalog.Authority.{authority_evidence_sql}
use usage_viewer.Postgres.Stages.{
  Stage, connectivity, role, read_only, authority, schema, at_stage, diagnostic_for_stage,
}
use usage_viewer.Postgres.Contract.{Contract, current_contract}
use usage_viewer.Postgres.Admission.{
  Snapshot, validate_admission, role_refused, exact_relation_match, schema_diagnostic,
  privilege_diagnostic, read_only_diagnostic, exact_schema_match,
}
use usage_viewer.Postgres.Admission.Decision.{Admitted, validate_admission_iff}
use usage_viewer.Postgres.Preflight.{
  Rows, Connection, or_stage, scan_rows, rows_failure, collect_rows, collect_snapshot,
  check_light_admission, check_connection_admission, as_error, contract_schemas, contract_tables,
  contract_columns, relation_schemas, relation_names,
}
use usage_viewer.Postgres.Preflight.Evidence.Coding.{
  IsDatabaseCode, Coded, collect_snapshot-Coded, as_error-Coded, probe-Coded,
}

-- The light admission of a connection: its probe gives 1.
light_iff :
    (conn : Connection)
    → (check_light_admission (some conn) ≡ ok tt)
      ↔ (conn.int_row connectivity_probe_sql ≡ ok (pos 1))
unfolding check_light_admission
light_iff conn = (forth (conn.int_row connectivity_probe_sql), λ h. rw (h, check_light_admission))
  where
    forth :
        (r : Result GoError ℤ)
        → check_light_admission (some (record conn { int_row = λ _. r })) ≡ ok tt
        → r ≡ ok (pos 1)
    forth (err e) h = absurd (ground arith)
    forth (ok n) h = ap ok (eqb_ℤ→eq n (pos 1) (ground arith))

as_error_ok : (r : Result Diagnostic (Unit {0})) → (as_error r ≡ ok tt) ↔ (r ≡ ok tt)
as_error_ok (ok a) = (λ h. refl, λ h. refl)
as_error_ok (err d) = (λ h. absurd (ground arith), λ h. absurd (ground arith))

module _ (conn : Connection) (expected : Text) where
  -- What follows the probe, from the snapshot on.
  decide : Result GoError Snapshot → Result GoError (Unit {0})
  decide (err e) = err e
  decide (ok s) = as_error (validate_admission expected current_contract s)

  check_ok :
      check_light_admission (some conn) ≡ ok tt
      → check_connection_admission (some conn) expected
        ≡ decide (collect_snapshot conn current_contract)
  unfolding check_connection_admission decide
  check_ok h = rw (h, check_connection_admission) (ground arith)

  check_err :
      (e : GoError)
      → check_light_admission (some conn) ≡ err e
      → check_connection_admission (some conn) expected ≡ err e
  unfolding check_connection_admission
  check_err e h = rw (h, check_connection_admission)

  decide_iff :
      (r : Result GoError Snapshot)
      → (decide r ≡ ok tt) ↔ ((s : Snapshot) × (r ≡ ok s) × Admitted expected current_contract s)
  unfolding decide
  decide_iff (err e) = (λ h. absurd (ground arith), λ (s, h, a). absurd (ground arith))
  decide_iff (ok s) = (
    λ h. (s, refl, (validate_admission_iff expected current_contract s).0 ((as_error_ok _).0 h)),
    λ (s', h, a).
        (as_error_ok _).1
          (ground (arith, h, (validate_admission_iff expected current_contract s').1 a)),
  )

  -- A connection is admitted exactly when its probe gives 1, all its evidence is collected, and the
  -- snapshot of that evidence is one that the current contract admits.
  pub check_connection_admission_iff : (check_connection_admission (some conn) expected ≡ ok tt) ↔ (
      (conn.int_row connectivity_probe_sql ≡ ok (pos 1))
      × (s : Snapshot) × (collect_snapshot conn current_contract ≡ ok s)
      × Admitted expected current_contract s)
  check_connection_admission_iff = elim (Result-cases (check_light_admission (some conn))) [
    | inl (u, h) ↦
        let d = decide_iff (collect_snapshot conn current_contract) in
        (
          λ c. let (s, q, a) = d.0 (sym (check_ok h) ∙ c) in ((light_iff conn).0 h, s, q, a),
          λ (p, s, q, a). check_ok h ∙ d.1 (s, q, a),
        )
    | inr (e, h) ↦ (
      λ c. absurd (ground (arith, check_err e h)),
      λ (p, s, q, a). absurd (ground (arith, (light_iff conn).1 p)),
    )
  ]

  decide-Coded : (r : Result GoError Snapshot) → Coded r → Coded (decide r)
  unfolding decide
  decide-Coded (err e) c = c
  decide-Coded (ok s) c = as_error-Coded expected current_contract s

  -- A connection that is not admitted gives a diagnostic of connectivity, of privileges, of the
  -- read-only check or of the schema, and no other.
  check_connection_admission-Coded :
      (e : GoError) → check_connection_admission (some conn) expected ≡ err e → IsDatabaseCode e
  check_connection_admission-Coded e h = elim (Result-cases (check_light_admission (some conn))) [
    | inl (u, q) ↦
        subst Coded (sym (check_ok q) ∙ h)
          (decide-Coded _ (collect_snapshot-Coded conn current_contract))
    | inr (e', q) ↦ subst Coded (sym (check_err e' q) ∙ h) (subst Coded q (probe-Coded conn))
  ]
