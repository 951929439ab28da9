-- ===== src/Diagnostics/Canonical.antt =====
-- internal/diagnostics/diagnostics.go: nothing but canonical text leaves a diagnostic.
use usage_viewer.Prelude.{
  ◌≡◌, refl, ◌⊎◌, inl, inr, Option-cases, Option, none, some, arith, Text, text_eq, ap,
}
use usage_viewer.Diagnostics.{
  Code, Category, Values, Cause, GoError, Diagnostic, wrapped, diagnostic, canonical_values, wrap,
  code_of_diagnostic, category_of_diagnostic, message_of_diagnostic, error_text, as_diagnostic,
  code_of, category_of, code_configuration, code_database_connectivity, code_database_privilege,
  code_database_read_only, code_schema_compatibility, code_unsafe_bind, code_server,
}

-- The public codes.
abbrev pub IsPublic : Code → Type 0
IsPublic c =
    (c ≡ code_configuration)
    ⊎ (c ≡ code_database_connectivity)
    ⊎ (c ≡ code_database_privilege)
    ⊎ (c ≡ code_database_read_only)
    ⊎ (c ≡ code_schema_compatibility)
    ⊎ (c ≡ code_unsafe_bind)
    ⊎ (c ≡ code_server)

canonical_code-IsPublic : (code : Code) → IsPublic (canonical_values code).0
unfolding canonical_values
canonical_code-IsPublic code = ground arith

-- The canonical text of a canonical code is the same text.
canonical_values_idem :
    (code : Code) → canonical_values (canonical_values code).0 ≡ canonical_values code
unfolding canonical_values text_eq
canonical_values_idem code = ground arith

-- The public values of a diagnostic, a nil pointer included.
abbrev public_values : Option Diagnostic → Values
public_values d = (code_of_diagnostic d, category_of_diagnostic d, message_of_diagnostic d)

public_values-canonical :
    (d : Option Diagnostic) → canonical_values (code_of_diagnostic d) ≡ public_values d
unfolding code_of_diagnostic category_of_diagnostic message_of_diagnostic
public_values-canonical none = unfold canonical_values text_eq in refl
public_values-canonical (some (diagnostic c k m x)) = canonical_values_idem c

code_of_diagnostic-IsPublic : (d : Option Diagnostic) → IsPublic (code_of_diagnostic d)
unfolding code_of_diagnostic
code_of_diagnostic-IsPublic none = ground arith
code_of_diagnostic-IsPublic (some (diagnostic c k m x)) = canonical_code-IsPublic c

-- Whatever a diagnostic stores, and for a nil pointer too, the code that it shows is one of the
-- seven public codes, and the category and the message that it shows are those of that code.
pub diagnostic_shows_canonical :
    (d : Option Diagnostic)
    → IsPublic (code_of_diagnostic d)
      × (canonical_values (code_of_diagnostic d)
          ≡ (code_of_diagnostic d, category_of_diagnostic d, message_of_diagnostic d))
diagnostic_shows_canonical d = (code_of_diagnostic-IsPublic d, public_values-canonical d)

-- Two wrapped diagnostics of one code show the same text, code and category, whatever category,
-- message and cause they were given: the cause cannot be read off the public text.
wrap_hides_cause :
    (code : Code) (k k' : Category) (m m' : Text) (x x' : Cause)
    → (error_text (some (wrap code k m x)) ≡ error_text (some (wrap code k' m' x')))
      × (code_of_diagnostic (some (wrap code k m x)) ≡ (canonical_values code).0)
      × (category_of_diagnostic (some (wrap code k m x)) ≡ (canonical_values code).1)
unfolding wrap error_text code_of_diagnostic category_of_diagnostic
wrap_hides_cause code k k' m m' x x' =
    (refl, ap (λ v. v.0) (canonical_values_idem code), ap (λ v. v.1) (canonical_values_idem code))

pub code_of-IsPublic : (e : GoError) → IsPublic (code_of e)
unfolding code_of
code_of-IsPublic e = elim (Option-cases (as_diagnostic e)) [
  | inl n ↦ ground (arith, n)
  | inr (d, n) ↦ rw (code_of, n) (code_of_diagnostic-IsPublic (some d))
]

-- The code and the category that `CodeOf` and `CategoryOf` give for any error belong together, the
-- code is public, and wrapping the error changes neither.
code_of-category_of :
    (e : GoError) (t : Text)
    → IsPublic (code_of e)
      × ((canonical_values (code_of e)).1 ≡ category_of e)
      × (code_of (wrapped t e) ≡ code_of e)
      × (category_of (wrapped t e) ≡ category_of e)
unfolding code_of category_of as_diagnostic
code_of-category_of e t = split (as_diagnostic e)
  where
    split :
        (o : Option Diagnostic)
        → let c : Code = elim o [ some d ↦ code_of_diagnostic (some d) | none ↦ code_server ] in
          let k : Category = elim o [
            | some d ↦ category_of_diagnostic (some d)
            | none ↦ category_of_diagnostic none
          ] in
          IsPublic c × ((canonical_values c).1 ≡ k) × (c ≡ c) × (k ≡ k)
    split none =
        (code_of_diagnostic-IsPublic none, ap (λ v. v.1) (public_values-canonical none), refl, refl)
    split (some d) = (
      code_of_diagnostic-IsPublic (some d),
      ap (λ v. v.1) (public_values-canonical (some d)),
      refl,
      refl,
    )
