-- ===== src/Postgres/Admission/Schemas.antt =====
-- internal/postgres/admission.go: which relations and columns match a contract.
use mathlib.Core.List.{Nodup, Perm}
use usage_viewer.Prelude.{
  true, ◌≡◌, ◌≢◌, ◌↔◌, refl, List, [], ◌∷◌, map, text_eq_iff, All, all_of, and_iff, arith,
}
use usage_viewer.Postgres.Contract.{RelationContract, ColumnContract, Contract}
use usage_viewer.Postgres.Matching.{matches}
use usage_viewer.Postgres.Matching.Exact.{matches_sound, matches_complete}
use usage_viewer.Postgres.Admission.{
  ObservedRelation, ObservedColumn, relation_keys, column_keys, relation_key, observed_relation_key,
  relation_well_formed, relation_agrees, exact_relation_match, column_key, observed_column_key,
  column_well_formed, column_agrees, selectable, exact_schema_match,
}

-- What an observed item says in the contract's terms.
abbrev pub as_relation : ObservedRelation → RelationContract
as_relation r = record { schema = r.schema; name = r.name; relkind = r.relkind }

abbrev pub as_column : ObservedColumn → ColumnContract
as_column c = record {
  schema = c.schema;
  table = c.table;
  column = c.column;
  udt_name = c.udt_name;
  nullable = c.nullable;
}

relation_agrees_iff :
    (r : ObservedRelation) (want : RelationContract)
    → relation_key want ≡ observed_relation_key r
    → (relation_agrees r want ≡ true) ↔ (as_relation r ≡ want)
unfolding relation_agrees
relation_agrees_iff r want k = (
  λ h. ground (arith, text_eq_iff r.relkind want.relkind),
  λ h. ground (arith, text_eq_iff r.relkind want.relkind),
)

column_agrees_iff :
    (c : ObservedColumn) (want : ColumnContract)
    → column_key want ≡ observed_column_key c
    → (column_agrees c want ≡ true) ↔ (as_column c ≡ want)
unfolding column_agrees
column_agrees_iff c want k = (
  λ h. ground (arith, text_eq_iff c.udt_name want.udt_name),
  λ h. ground (arith, text_eq_iff c.udt_name want.udt_name),
)

-- The relations shown are those of the contract, in some order.
abbrev pub RelationsMatch : Contract → List ObservedRelation → Type 0
RelationsMatch contract observed =
    (contract.relations ≢ [])
    × (All (λ r. relation_well_formed r ≡ true) contract.relations)
    × Nodup (map relation_key contract.relations)
    × Perm (map as_relation observed) contract.relations

abbrev pub ColumnsMatch : Contract → List ObservedColumn → Type 0
ColumnsMatch contract observed =
    (contract.columns ≢ [])
    × (All (λ c. column_well_formed c ≡ true) contract.columns)
    × Nodup (map column_key contract.columns)
    × Perm (map as_column observed) contract.columns

-- `exactRelationMatch` accepts exactly the relations of a contract that is not empty, well formed
-- and free of double names, each of them once and in any order.
pub exact_relation_match_iff :
    (contract : Contract) (observed : List ObservedRelation)
    → (exact_relation_match contract observed ≡ true) ↔ RelationsMatch contract observed
unfolding exact_relation_match
exact_relation_match_iff contract observed = (
  matches_sound relation_key observed_relation_key relation_agrees as_relation (λ r. refl)
      relation_agrees_iff relation_well_formed contract.relations observed,
  matches_complete relation_key observed_relation_key relation_agrees as_relation (λ r. refl)
      relation_agrees_iff relation_well_formed contract.relations observed (hlevel),
)

pub all_of_iff :
    (cs : List ObservedColumn) → (all_of selectable cs ≡ true) ↔ (All (λ c. c.selectable ≡ true) cs)
unfolding selectable
all_of_iff [] = (λ h. tt, λ h. refl)
all_of_iff (c ∷ cs) = (
  λ h. (ground arith, (all_of_iff cs).0 (ground arith)),
  λ h. (and_iff _ _).1 (h.0, (all_of_iff cs).1 h.1),
)

pub column_matches_iff :
    (contract : Contract) (observed : List ObservedColumn)
    → (matches column_key column_well_formed observed_column_key column_agrees contract.columns
          observed
        ≡ true)
      ↔ ColumnsMatch contract observed
column_matches_iff contract observed = (
  matches_sound column_key observed_column_key column_agrees as_column (λ c. refl) column_agrees_iff
      column_well_formed contract.columns observed,
  matches_complete column_key observed_column_key column_agrees as_column (λ c. refl)
      column_agrees_iff column_well_formed contract.columns observed (hlevel),
)

-- `exactSchemaMatch` reports a match exactly when the columns shown are those of a contract that is
-- not empty, well formed and free of double columns, with their types and their nullability, each
-- once and in any order; and it reports that all are selectable exactly when they match and all of
-- them are.
exact_schema_match_iff :
    (contract : Contract) (observed : List ObservedColumn)
    → (((exact_schema_match contract observed).1 ≡ true) ↔ ColumnsMatch contract observed)
      × (((exact_schema_match contract observed).0 ≡ true)
          ↔ (ColumnsMatch contract observed × All (λ c. c.selectable ≡ true) observed))
unfolding exact_schema_match selectable
exact_schema_match_iff contract observed =
    let m = column_matches_iff contract observed in
    (
      (λ h. m.0 (ground arith), λ h. rw (m.1 h)),
      (
        λ h. (m.0 (ground arith), (all_of_iff observed).0 (ground arith)),
        λ h. rw (m.1 h.0) ((all_of_iff observed).1 h.1),
      ),
    )
