-- ===== src/Postgres/Admission.antt =====
-- internal/postgres/admission.go: the decision on a database role, from a snapshot of what the
-- database says about it. The counts are `int64`.
pub mod Schemas
pub mod Decision
use usage_viewer.Prelude.{
  Bool, true, false, not, ◌&&◌, ◌||◌, ◌≡◌, ◌↔◌, List, [], ◌∷◌, Option, none, some, Result, ok, err,
  Text, bytes, text_eq, text_eq_iff, trim_space, is_nil, length, ℤ, pos, eqb_ℤ, Eq, all_of, and_iff,
  arith, if◌then◌else◌,
}
use usage_viewer.Diagnostics.{
  Diagnostic, new, code_database_privilege, code_database_read_only, code_schema_compatibility,
  category_database_privilege, category_database_read_only, category_schema_compatibility,
  message_database_privilege, message_database_read_only, message_schema_compatibility,
}
use usage_viewer.Postgres.Contract.{RelationContract, ColumnContract, Contract}
use usage_viewer.Postgres.Matching.{matches}

pub record ObservedColumn : Type 0 where
  pub schema : Text
  pub table : Text
  pub column : Text
  pub udt_name : Text
  pub nullable : Bool
  pub selectable : Bool

pub record ObservedRelation : Type 0 where
  pub schema : Text
  pub name : Text
  pub relkind : Text

pub record Snapshot : Type 0 where
  pub current_role : Text
  pub role_can_login : Bool
  pub role_super : Bool
  pub role_inherit : Bool
  pub role_create_role : Bool
  pub role_create_db : Bool
  pub role_replication : Bool
  pub role_bypass_rls : Bool
  pub default_transaction_read_only : Bool
  pub database_connect : Bool
  pub public_schema_usage : Bool
  pub membership_count : ℤ
  pub owned_database_count : ℤ
  pub owned_schema_count : ℤ
  pub owned_relation_count : ℤ
  pub database_create_or_temp_count : ℤ
  pub schema_create_count : ℤ
  pub table_write_privilege_count : ℤ
  pub sequence_privilege_count : ℤ
  pub grant_option_count : ℤ
  pub security_definer_execute_count : ℤ
  pub large_object_write_count : ℤ
  pub owned_routine_count : ℤ
  pub broad_select_privilege_count : ℤ
  pub unexpected_select_privilege_count : ℤ
  pub required_relations : List ObservedRelation
  pub required_columns : List ObservedColumn

-- relationKey and columnKey, compared field by field.
abbrev pub RelationKey : Type 0
RelationKey = Text × Text

abbrev pub ColumnKey : Type 0
ColumnKey = Text × Text × Text

abbrev pub relation_key_eq : RelationKey → RelationKey → Bool
relation_key_eq a b = text_eq a.0 b.0 && text_eq a.1 b.1

abbrev pub column_key_eq : ColumnKey → ColumnKey → Bool
column_key_eq a b = text_eq a.0 b.0 && (text_eq a.1 b.1 && text_eq a.2 b.2)

pub relation_key_eq_iff : (a b : RelationKey) → (relation_key_eq a b ≡ true) ↔ (a ≡ b)
relation_key_eq_iff a b = (
  λ h. ground (arith, text_eq_iff a.0 b.0, text_eq_iff a.1 b.1),
  λ h. ground (arith, text_eq_iff a.0 b.0, text_eq_iff a.1 b.1),
)

pub column_key_eq_iff : (a b : ColumnKey) → (column_key_eq a b ≡ true) ↔ (a ≡ b)
column_key_eq_iff a b = (
  λ h. ground (arith, text_eq_iff a.0 b.0, text_eq_iff a.1 b.1, text_eq_iff a.2 b.2),
  λ h. ground (arith, text_eq_iff a.0 b.0, text_eq_iff a.1 b.1, text_eq_iff a.2 b.2),
)

instance abbrev pub relation_keys : Eq RelationKey
relation_keys = record { beq = relation_key_eq; beq_iff = relation_key_eq_iff }

instance abbrev pub column_keys : Eq ColumnKey
column_keys = record { beq = column_key_eq; beq_iff = column_key_eq_iff }

-- makeRelationKey
abbrev pub relation_key : RelationContract → RelationKey
relation_key r = (r.schema, r.name)

abbrev pub observed_relation_key : ObservedRelation → RelationKey
observed_relation_key r = (r.schema, r.name)

unfoldable pub relation_well_formed : RelationContract → Bool
relation_well_formed r = not (
    is_nil (trim_space r.schema)
    || is_nil (trim_space r.name)
    || not (text_eq r.relkind (bytes "r")))

unfoldable pub relation_agrees : ObservedRelation → RelationContract → Bool
relation_agrees r want = text_eq r.relkind want.relkind

-- exactRelationMatch
unfoldable pub exact_relation_match : Contract → List ObservedRelation → Bool
exact_relation_match contract observed =
    matches relation_key relation_well_formed observed_relation_key relation_agrees
      contract.relations observed

-- makeColumnKey
abbrev pub column_key : ColumnContract → ColumnKey
column_key c = (c.schema, c.table, c.column)

abbrev pub observed_column_key : ObservedColumn → ColumnKey
observed_column_key c = (c.schema, c.table, c.column)

unfoldable pub column_well_formed : ColumnContract → Bool
column_well_formed c =
    not (is_nil c.schema || is_nil c.table || is_nil c.column || is_nil c.udt_name)

abbrev same_bool : Bool → Bool → Bool
same_bool true b = b
same_bool false b = not b

unfoldable pub column_agrees : ObservedColumn → ColumnContract → Bool
column_agrees c want = text_eq c.udt_name want.udt_name && same_bool c.nullable want.nullable

unfoldable pub selectable : ObservedColumn → Bool
selectable c = c.selectable

-- exactSchemaMatch: whether all columns are selectable, and whether the schema matches. A
-- mismatch ends the loop with (false, false).
unfoldable pub exact_schema_match : Contract → List ObservedColumn → Bool × Bool
exact_schema_match contract observed =
    if matches column_key column_well_formed observed_column_key column_agrees contract.columns
      observed
    then (all_of selectable observed, true)
    else (false, false)

any_nonzero : List ℤ → Bool
any_nonzero [] = false
any_nonzero (n ∷ ns) = not (eqb_ℤ n (pos 0)) || any_nonzero ns

abbrev pub authority_counts : Snapshot → List ℤ
authority_counts s =
    s.membership_count ∷ s.owned_database_count ∷ s.owned_schema_count ∷ s.owned_relation_count
    ∷ s.database_create_or_temp_count ∷ s.schema_create_count ∷ s.table_write_privilege_count
    ∷ s.sequence_privilege_count ∷ s.grant_option_count ∷ s.security_definer_execute_count
    ∷ s.large_object_write_count ∷ s.owned_routine_count ∷ s.broad_select_privilege_count
    ∷ s.unexpected_select_privilege_count ∷ []

-- hasForbiddenAuthority
unfoldable pub has_forbidden_authority : Snapshot → Bool
unfolding any_nonzero
has_forbidden_authority s = any_nonzero (authority_counts s)

abbrev pub privilege_diagnostic : Diagnostic
privilege_diagnostic =
    new code_database_privilege category_database_privilege message_database_privilege

abbrev pub read_only_diagnostic : Diagnostic
read_only_diagnostic =
    new code_database_read_only category_database_read_only message_database_read_only

abbrev pub schema_diagnostic : Diagnostic
schema_diagnostic =
    new code_schema_compatibility category_schema_compatibility message_schema_compatibility

-- The first test of `ValidateAdmission`.
unfoldable pub role_refused : Text → Snapshot → Bool
role_refused expected s =
    is_nil (trim_space expected)
    || not (text_eq s.current_role expected)
    || not s.role_can_login
    || s.role_super
    || s.role_inherit
    || s.role_create_role
    || s.role_create_db
    || s.role_replication
    || s.role_bypass_rls
    || not s.database_connect
    || not s.public_schema_usage
    || has_forbidden_authority s

-- ValidateAdmission; `ok` is the nil error.
unfoldable pub validate_admission : Text → Contract → Snapshot → Result Diagnostic (Unit {0})
validate_admission expected contract s =
    if role_refused expected s
    then err privilege_diagnostic
    else if not s.default_transaction_read_only
    then err read_only_diagnostic
    else if not (exact_relation_match contract s.required_relations)
    then err schema_diagnostic
    else let (columns_selectable, schema_matches) =
        exact_schema_match contract s.required_columns in
      if not schema_matches
      then err schema_diagnostic
      else if not columns_selectable
      then err privilege_diagnostic
      else ok tt
