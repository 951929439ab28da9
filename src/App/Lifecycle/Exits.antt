-- ===== src/App/Lifecycle/Exits.antt =====
-- cmd/viewer/main.go: the exit codes.
use mathlib.Core.Path.{subst}
use usage_viewer.Prelude.{ℕ, ◌≤◌, ◌≡◌, refl, sym, Option, none, some, ok, inl, inr, text_eq, arith}
use usage_viewer.Diagnostics.{
  GoError, Code, Diagnostic, diagnosed, as_diagnostic, code_of, code_of_diagnostic,
  code_configuration, code_unsafe_bind, code_database_connectivity, code_database_privilege,
  code_database_read_only, code_schema_compatibility, code_server,
}
use usage_viewer.Diagnostics.Canonical.{code_of-IsPublic}
use usage_viewer.App.Lifecycle.{RunResult, exit_code_of, exit_code, public_diagnostic, run_with}

-- The exit code for each public code.
pub data ExitsWith : Code → ℕ → Type 0 where
  configuration_exit : ExitsWith code_configuration 2
  unsafe_bind_exit : ExitsWith code_unsafe_bind 2
  connectivity_exit : ExitsWith code_database_connectivity 3
  privilege_exit : ExitsWith code_database_privilege 4
  read_only_exit : ExitsWith code_database_read_only 5
  schema_exit : ExitsWith code_schema_compatibility 6
  server_exit : ExitsWith code_server 7

-- `exitCode` of an error, once its code is known.
exit_code_at :
    (e : GoError) (c : Code) (n : ℕ)
    → code_of e ≡ c
    → exit_code_of c ≡ n
    → ExitsWith c n
    → ExitsWith (code_of e) (exit_code e)
unfolding exit_code exit_code_of
exit_code_at e c n h k x = rw (h, k) x

pub exit_code-ExitsWith : (e : GoError) → ExitsWith (code_of e) (exit_code e)
unfolding exit_code_of text_eq
exit_code-ExitsWith e = elim (code_of-IsPublic e) [
  | inl h ↦ exit_code_at e _ 2 h refl configuration_exit
  | inr (inl h) ↦ exit_code_at e _ 3 h refl connectivity_exit
  | inr (inr (inl h)) ↦ exit_code_at e _ 4 h refl privilege_exit
  | inr (inr (inr (inl h))) ↦ exit_code_at e _ 5 h refl read_only_exit
  | inr (inr (inr (inr (inl h)))) ↦ exit_code_at e _ 6 h refl schema_exit
  | inr (inr (inr (inr (inr (inl h))))) ↦ exit_code_at e _ 2 h refl unsafe_bind_exit
  | inr (inr (inr (inr (inr (inr h))))) ↦ exit_code_at e _ 7 h refl server_exit
]

pub exit_code_positive : (c : Code) (n : ℕ) → ExitsWith c n → 1 ≤ n
exit_code_positive c n configuration_exit = ground arith
exit_code_positive c n unsafe_bind_exit = ground arith
exit_code_positive c n connectivity_exit = ground arith
exit_code_positive c n privilege_exit = ground arith
exit_code_positive c n read_only_exit = ground arith
exit_code_positive c n schema_exit = ground arith
exit_code_positive c n server_exit = ground arith

pub run_with-ExitsWith :
    (result : RunResult) (d : Diagnostic)
    → result.failure ≡ some (diagnosed d)
    → ExitsWith (code_of_diagnostic (some d)) (run_with (ok result))
unfolding run_with public_diagnostic as_diagnostic code_of
run_with-ExitsWith result d h =
    subst
      (λ (f : Option GoError).
        ExitsWith (code_of_diagnostic (some d))
          (elim f as (λ x. ℕ) [ none ↦ 0 | some e ↦ exit_code (public_diagnostic e) ]))
      (sym h) (exit_code-ExitsWith (diagnosed d))
