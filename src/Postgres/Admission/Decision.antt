-- ===== src/Postgres/Admission/Decision.antt =====
-- internal/postgres/admission.go: a role is admitted exactly when its attributes, its authority and
-- the schema that it sees are those required, and otherwise the diagnostic says which part failed.
use usage_viewer.Prelude.{
  true, false, ◌≡◌, ◌≢◌, ◌↔◌, inl, inr, refl, List, [], ◌∷◌, ok, err, Text, text_eq_iff, trim_space,
  ℤ, pos, eqb_ℤ→eq, All, all_of, arith, Bool-cases,
}
use usage_viewer.Postgres.Contract.{Contract}
use usage_viewer.Postgres.Matching.{matches}
use usage_viewer.Postgres.Admission.{
  Snapshot, relation_keys, column_keys, exact_relation_match, column_key, observed_column_key,
  column_well_formed, column_agrees, selectable, exact_schema_match, any_nonzero, authority_counts,
  has_forbidden_authority, role_refused, validate_admission, privilege_diagnostic,
  read_only_diagnostic, schema_diagnostic,
}
use usage_viewer.Postgres.Admission.Schemas.{
  RelationsMatch, ColumnsMatch, exact_relation_match_iff, all_of_iff, column_matches_iff,
}

any_nonzero_iff : (ns : List ℤ) → (any_nonzero ns ≡ false) ↔ (All (λ n. n ≡ pos 0) ns)
unfolding any_nonzero
any_nonzero_iff [] = (λ h. tt, λ h. refl)
any_nonzero_iff (n ∷ ns) = (
  λ h. (eqb_ℤ→eq n (pos 0) (ground arith), (any_nonzero_iff ns).0 (ground arith)),
  λ h. rw (h.0, (any_nonzero_iff ns).1 h.1),
)

has_forbidden_authority-false :
    (s : Snapshot)
    → (has_forbidden_authority s ≡ false) ↔ (All (λ n. n ≡ pos 0) (authority_counts s))
unfolding has_forbidden_authority
has_forbidden_authority-false s = any_nonzero_iff (authority_counts s)

-- The requirements on the role itself.
pub record RoleAdmitted (expected : Text) (s : Snapshot) : Type 0 where
  pub named : trim_space expected ≢ []
  pub is_current : s.current_role ≡ expected
  pub can_login : s.role_can_login ≡ true
  pub no_super : s.role_super ≡ false
  pub no_inherit : s.role_inherit ≡ false
  pub no_create_role : s.role_create_role ≡ false
  pub no_create_db : s.role_create_db ≡ false
  pub no_replication : s.role_replication ≡ false
  pub no_bypass : s.role_bypass_rls ≡ false
  pub connects : s.database_connect ≡ true
  pub uses_schema : s.public_schema_usage ≡ true
  pub no_authority : All (λ n. n ≡ pos 0) (authority_counts s)

role_refused-false :
    (expected : Text) (s : Snapshot) → role_refused expected s ≡ false → RoleAdmitted expected s
unfolding role_refused
role_refused-false expected s h = record {
  named = ground arith;
  is_current = (text_eq_iff s.current_role expected).0 (ground arith);
  can_login = ground arith;
  no_super = ground arith;
  no_inherit = ground arith;
  no_create_role = ground arith;
  no_create_db = ground arith;
  no_replication = ground arith;
  no_bypass = ground arith;
  connects = ground arith;
  uses_schema = ground arith;
  no_authority = (has_forbidden_authority-false s).0 (ground arith);
}

role_refused_admitted :
    (expected : Text) (s : Snapshot) → RoleAdmitted expected s → role_refused expected s ≡ false
unfolding role_refused
role_refused_admitted expected s r = ground (
  arith,
  (text_eq_iff s.current_role expected).1 r.is_current,
  (has_forbidden_authority-false s).1 r.no_authority,
)

abbrev pub Admitted : Text → Contract → Snapshot → Type 0
Admitted expected contract s =
    RoleAdmitted expected s
    × (s.default_transaction_read_only ≡ true)
    × RelationsMatch contract s.required_relations
    × ColumnsMatch contract s.required_columns
    × All (λ c. c.selectable ≡ true) s.required_columns

module _ (expected : Text) (contract : Contract) (s : Snapshot) where
  -- A role is admitted exactly when it is the expected one and that has a name, it may log in and
  -- connect and has none of the forbidden attributes, all fourteen counts of authority are 0, its
  -- transactions only read by default, and the relations and columns that it sees are those of the
  -- contract, each column selectable.
  pub validate_admission_iff :
      (validate_admission expected contract s ≡ ok tt) ↔ Admitted expected contract s
  unfolding validate_admission exact_schema_match
  validate_admission_iff =
      let rel = exact_relation_match_iff contract s.required_relations in
      let col = column_matches_iff contract s.required_columns in
      let sel = all_of_iff s.required_columns in
      (
        λ h. (
          role_refused-false expected s (ground arith),
          ground arith,
          rel.0 (ground arith),
          col.0 (ground arith),
          sel.0 (ground arith),
        ),
        λ a. rw (role_refused_admitted expected s a.0, a.1, rel.1 a.2, col.1 a.3, sel.1 a.4),
      )

  -- A refusal says what failed first: the role or its authority, a default that lets it write, the
  -- schema, or the right to select its columns.
  validate_admission_refusals :
      (¬ RoleAdmitted expected s
        → validate_admission expected contract s ≡ err privilege_diagnostic)
      × (RoleAdmitted expected s
          → s.default_transaction_read_only ≡ false
          → validate_admission expected contract s ≡ err read_only_diagnostic)
      × (RoleAdmitted expected s
          → s.default_transaction_read_only ≡ true
          → ¬ (
              RelationsMatch contract s.required_relations
              × ColumnsMatch contract s.required_columns)
          → validate_admission expected contract s ≡ err schema_diagnostic)
      × (RoleAdmitted expected s
          → s.default_transaction_read_only ≡ true
          → RelationsMatch contract s.required_relations
          → ColumnsMatch contract s.required_columns
          → ¬ All (λ c. c.selectable ≡ true) s.required_columns
          → validate_admission expected contract s ≡ err privilege_diagnostic)
  unfolding validate_admission exact_schema_match
  validate_admission_refusals =
      let rel = exact_relation_match_iff contract s.required_relations in
      let col = column_matches_iff contract s.required_columns in
      let sel = all_of_iff s.required_columns in
      (
        λ n. elim (Bool-cases (role_refused expected s)) [
          | inl r ↦ rw r
          | inr r ↦ absurd (n (role_refused-false expected s r))
        ],
        λ r w. rw (role_refused_admitted expected s r, w),
        λ r w n. elim (Bool-cases (exact_relation_match contract s.required_relations)) [
          | inl m ↦
              elim (Bool-cases (
                matches column_key column_well_formed observed_column_key column_agrees
                  contract.columns s.required_columns)) [
                    | inl c ↦ absurd (n (rel.0 m, col.0 c))
                    | inr c ↦ rw (role_refused_admitted expected s r, w, m, c)
                  ]
          | inr m ↦ rw (role_refused_admitted expected s r, w, m)
        ],
        λ r w m c n. elim (Bool-cases (all_of selectable s.required_columns)) [
          | inl a ↦ absurd (n (sel.0 a))
          | inr a ↦ rw (role_refused_admitted expected s r, w, rel.1 m, col.1 c, a)
        ],
      )
