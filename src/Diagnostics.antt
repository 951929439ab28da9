-- ===== src/Diagnostics.antt =====
-- internal/diagnostics/diagnostics.go: diagnostics with canonical public text, errors as values,
-- and the classification of an error by `errors.As`.
pub mod Canonical
use usage_viewer.Prelude.{Bool, ◌≡◌, Option, none, some, ◌++◌, Text, bytes, text_eq, if◌then◌else◌}

-- type Code and its constants
abbrev pub Code : Type 0
Code = Text

abbrev pub Category : Type 0
Category = Text

abbrev pub code_configuration : Code
code_configuration = bytes "UV-CFG-001"

abbrev pub code_database_connectivity : Code
code_database_connectivity = bytes "UV-DB-001"

abbrev pub code_database_privilege : Code
code_database_privilege = bytes "UV-ROLE-001"

abbrev pub code_database_read_only : Code
code_database_read_only = bytes "UV-RO-001"

abbrev pub code_schema_compatibility : Code
code_schema_compatibility = bytes "UV-SCHEMA-001"

abbrev pub code_unsafe_bind : Code
code_unsafe_bind = bytes "UV-BIND-001"

abbrev pub code_server : Code
code_server = bytes "UV-SERVER-001"

abbrev pub category_configuration : Category
category_configuration = bytes "configuration"

abbrev pub category_database_connectivity : Category
category_database_connectivity = bytes "database_connectivity"

abbrev pub category_database_privilege : Category
category_database_privilege = bytes "database_privilege"

abbrev pub category_database_read_only : Category
category_database_read_only = bytes "database_read_only"

abbrev pub category_schema_compatibility : Category
category_schema_compatibility = bytes "schema_compatibility"

abbrev pub category_unsafe_bind : Category
category_unsafe_bind = bytes "unsafe_bind"

abbrev pub category_server : Category
category_server = bytes "server"

abbrev pub message_configuration : Text
message_configuration = bytes "runtime configuration is invalid"

abbrev pub message_database_connectivity : Text
message_database_connectivity = bytes "database connection could not be established"

abbrev pub message_database_privilege : Text
message_database_privilege = bytes "database role is not admitted"

abbrev pub message_database_read_only : Text
message_database_read_only = bytes "database read-only verification failed"

abbrev pub message_schema_compatibility : Text
message_schema_compatibility = bytes "database schema is not compatible"

abbrev pub message_unsafe_bind : Text
message_unsafe_bind = bytes "listen address is not safely acknowledged"

abbrev pub message_server : Text
message_server = bytes "server could not start safely"

abbrev pub Values : Type 0
Values = Code × Category × Text

-- canonicalValues
unfoldable pub canonical_values : Code → Values
canonical_values code =
    if text_eq code code_configuration
    then (code_configuration, category_configuration, message_configuration)
    else if text_eq code code_database_connectivity
    then (code_database_connectivity, category_database_connectivity, message_database_connectivity)
    else if text_eq code code_database_privilege
    then (code_database_privilege, category_database_privilege, message_database_privilege)
    else if text_eq code code_database_read_only
    then (code_database_read_only, category_database_read_only, message_database_read_only)
    else if text_eq code code_schema_compatibility
    then (code_schema_compatibility, category_schema_compatibility, message_schema_compatibility)
    else if text_eq code code_unsafe_bind
    then (code_unsafe_bind, category_unsafe_bind, message_unsafe_bind)
    else if text_eq code code_server
    then (code_server, category_server, message_server)
    else (code_server, category_server, message_server)

-- A Go error: a diagnostic, which keeps its cause and does not unwrap to it; an error made of a
-- text; or one that wraps another (`%w`).
mutual
  pub data GoError : Type 0 where
    plain : Text → GoError
    wrapped : Text → GoError → GoError
    diagnosed : Diagnostic → GoError

  pub data Diagnostic : Type 0 where
    diagnostic : Code → Category → Text → Cause → Diagnostic

  pub data Cause : Type 0 where
    no_cause : Cause
    caused_by : GoError → Cause

-- New
unfoldable pub new : Code → Category → Text → Diagnostic
unfolding canonical_values
new code _ _ = let (c, k, m) = canonical_values code in diagnostic c k m no_cause

with_cause : Diagnostic → Cause → Diagnostic
with_cause (diagnostic c k m _) cause = diagnostic c k m cause

-- Wrap
unfoldable pub wrap : Code → Category → Text → Cause → Diagnostic
unfolding new with_cause
wrap code category message cause = with_cause (new code category message) cause

stored_code : Diagnostic → Code
stored_code (diagnostic c _ _ _) = c

-- (*Diagnostic).Code; `none` is the nil pointer.
unfoldable pub code_of_diagnostic : Option Diagnostic → Code
unfolding canonical_values stored_code
code_of_diagnostic none = code_server
code_of_diagnostic (some d) = (canonical_values (stored_code d)).0

-- (*Diagnostic).Category
unfoldable pub category_of_diagnostic : Option Diagnostic → Category
unfolding canonical_values stored_code
category_of_diagnostic none = category_server
category_of_diagnostic (some d) = (canonical_values (stored_code d)).1

-- (*Diagnostic).Message
unfoldable pub message_of_diagnostic : Option Diagnostic → Text
unfolding canonical_values stored_code
message_of_diagnostic none = message_server
message_of_diagnostic (some d) = (canonical_values (stored_code d)).2

-- (*Diagnostic).Error
unfoldable pub error_text : Option Diagnostic → Text
unfolding code_of_diagnostic message_of_diagnostic
error_text d = code_of_diagnostic d ++ bytes ": " ++ message_of_diagnostic d

-- errors.As with a target of type `*Diagnostic`: the first diagnostic of the chain. A diagnostic
-- has no `Unwrap`, so the search stops there.
unfoldable pub as_diagnostic : GoError → Option Diagnostic
as_diagnostic (plain _) = none
as_diagnostic (wrapped _ e) = as_diagnostic e
as_diagnostic (diagnosed d) = some d

-- CodeOf
unfoldable pub code_of : GoError → Code
unfolding as_diagnostic code_of_diagnostic
code_of e = elim (as_diagnostic e) [ some d ↦ code_of_diagnostic (some d) | none ↦ code_server ]

-- CategoryOf
unfoldable pub category_of : GoError → Category
unfolding as_diagnostic category_of_diagnostic
category_of e = elim (as_diagnostic e) [
  | some d ↦ category_of_diagnostic (some d)
  | none ↦ category_server
]
