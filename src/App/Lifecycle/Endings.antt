-- ===== src/App/Lifecycle/Endings.antt =====
-- internal/app/app.go, cmd/viewer/main.go: what is closed when the program ends, and how it ends.
use usage_viewer.Prelude.{
  ℕ, suc, ◌+◌, ◌≤◌, ◌≡◌, ◌↔◌, refl, ap, ◌∙◌, inl, inr, Bool, true, false, List, [], ◌∷◌, ◌++◌, map,
  Option, none, some, Text, ok, Bool-cases, Option-cases, arith,
}
use usage_viewer.Diagnostics.{GoError, plain, wrapped, Diagnostic, diagnosed, code_of_diagnostic}
use usage_viewer.Creds.{Source, System}
use usage_viewer.App.{
  Dependencies, PoolAction, pool_opened, pool_closed, Established, establish_pool,
}
use usage_viewer.App.Pools.{Settled, all_closed, one_kept, one_closed, establish_pool-Settled}
use usage_viewer.App.Lifecycle.Exits.{
  ExitsWith, exit_code_positive, exit_code-ExitsWith, run_with-ExitsWith,
}
use usage_viewer.App.Lifecycle.{
  Action, on_pool, listened, listener_closed, Host, RunResult, server_diagnostic,
  admitted_diagnostic, close_once, finish, serve_http, run_credential_mode, handle_db_error,
  run_with_pool, run_established, run_application, public_diagnostic, run_with,
}

-- Pools opened and closed, and listeners opened and closed.
pools_opened : List Action → ℕ
pools_opened [] = 0
pools_opened (on_pool (pool_opened _) ∷ rest) = suc (pools_opened rest)
pools_opened (_ ∷ rest) = pools_opened rest

pools_closed : List Action → ℕ
pools_closed [] = 0
pools_closed (on_pool (pool_closed _) ∷ rest) = suc (pools_closed rest)
pools_closed (_ ∷ rest) = pools_closed rest

listeners_opened : List Action → ℕ
listeners_opened [] = 0
listeners_opened (listened ∷ rest) = suc (listeners_opened rest)
listeners_opened (_ ∷ rest) = listeners_opened rest

listeners_closed : List Action → ℕ
listeners_closed [] = 0
listeners_closed (listener_closed ∷ rest) = suc (listeners_closed rest)
listeners_closed (_ ∷ rest) = listeners_closed rest

abbrev kept : Option ℕ → ℕ
kept none = 0
kept (some _) = 1

-- Behind the actions of a settled attempt, the rest has to close the pool that was kept.
settled_pools :
    {n : ℕ} {actions : List PoolAction} {pool : Option ℕ} (rest : List Action)
    → Settled n actions pool
    → (pools_opened (map on_pool actions ++ rest) + pools_closed rest
        ≡ pools_closed (map on_pool actions ++ rest) + kept pool + pools_opened rest)
      × (listeners_opened (map on_pool actions ++ rest) ≡ listeners_opened rest)
      × (listeners_closed (map on_pool actions ++ rest) ≡ listeners_closed rest)
unfolding pools_opened pools_closed listeners_opened listeners_closed
settled_pools rest all_closed = (ground arith, refl, refl)
settled_pools rest one_kept = (ground arith, refl, refl)
settled_pools rest (one_closed s) = ground (arith, settled_pools rest s)

-- A part of a run that touches no pool, and closes the listener that it opened.
Quiet : RunResult → Type 0
Quiet r =
    (pools_opened r.actions ≡ 0)
    × (pools_closed r.actions ≡ 0)
    × (listeners_opened r.actions ≡ listeners_closed r.actions)
    × (listeners_opened r.actions ≤ 1)

serve_http-Quiet : (host : Host) (has_handler : Bool) → Quiet (serve_http host has_handler)
unfolding Quiet serve_http finish close_once pools_opened pools_closed listeners_opened
    listeners_closed
serve_http-Quiet host has_handler = ground arith

run_credential_mode-Quiet : (host : Host) → Quiet (run_credential_mode host)
unfolding Quiet run_credential_mode pools_opened pools_closed listeners_opened listeners_closed
run_credential_mode-Quiet host =
    let (a, b, c, d) = serve_http-Quiet host host.has_credential_handler in
    ground (arith, a, b, c, d)

handle_db_error-Quiet :
    (host : Host) (cause : GoError) (source : Option Source)
    → Quiet (handle_db_error host cause source)
unfolding Quiet handle_db_error pools_opened pools_closed listeners_opened listeners_closed
handle_db_error-Quiet host cause source =
    let (a, b, c, d) = run_credential_mode-Quiet host in ground (arith, a, b, c, d)

-- A run of the program, whose opened pools and listeners are closed again.
pub Released : RunResult → Type 0
Released r =
    (pools_opened r.actions ≡ pools_closed r.actions)
    × (listeners_opened r.actions ≡ listeners_closed r.actions)
    × (listeners_opened r.actions ≤ 1)

closing_last :
    (xs : List Action) (p : ℕ)
    → (pools_opened (xs ++ on_pool (pool_closed p) ∷ []) ≡ pools_opened xs)
      × (pools_closed (xs ++ on_pool (pool_closed p) ∷ []) ≡ suc (pools_closed xs))
      × (listeners_opened (xs ++ on_pool (pool_closed p) ∷ []) ≡ listeners_opened xs)
      × (listeners_closed (xs ++ on_pool (pool_closed p) ∷ []) ≡ listeners_closed xs)
unfolding pools_opened pools_closed listeners_opened listeners_closed
closing_last [] p = (refl, refl, refl, refl)
closing_last (x ∷ xs) p = let (a, b, c, d) = closing_last xs p in ground (arith, a, b, c, d)

nothing_counted :
    (pools_opened [] ≡ 0)
    × (pools_closed [] ≡ 0)
    × (listeners_opened [] ≡ 0)
    × (listeners_closed [] ≡ 0)
unfolding pools_opened pools_closed listeners_opened listeners_closed
nothing_counted = (refl, refl, refl, refl)

run_with_pool-closes :
    (host : Host) (p : ℕ)
    → (pools_opened (run_with_pool host p).actions ≡ 0)
      × (pools_closed (run_with_pool host p).actions ≡ 1)
      × (listeners_opened (run_with_pool host p).actions
          ≡ listeners_closed (run_with_pool host p).actions)
      × (listeners_opened (run_with_pool host p).actions ≤ 1)
unfolding run_with_pool Quiet
run_with_pool-closes host p = elim (Bool-cases host.done_after) [
  | inl e ↦ let (a, b, c, d) = closing_last [] p in ground (arith, a, b, c, d, nothing_counted)
  | inr e ↦
      let (a, b, c, d) = closing_last (serve_http host host.has_handler).actions p in
      let (q, r, s, t) = serve_http-Quiet host host.has_handler in
      ground (arith, a, b, c, d, q, r, s, t)
]

established-Released :
    (host : Host) (e : Established)
    → Settled 0 e.attempt.actions e.attempt.pool
    → ((p : ℕ) → e.attempt.pool ≡ some p → e.attempt.failure ≡ none)
    → Released (run_established host e)
unfolding run_established Released Quiet
established-Released host e s k = elim (Option-cases e.attempt.pool) [
  | inr (p, q) ↦
      let (a, b, c) = settled_pools (run_with_pool host p).actions s in
      let (u, v, w, z) = run_with_pool-closes host p in ground (arith, k p q, a, b, c, u, v, w, z)
  | inl q ↦ elim (Option-cases e.attempt.failure) [
    | inl f ↦
        let (a, b, c) = settled_pools (run_credential_mode host).actions s in
        let (u, v, w, z) = run_credential_mode-Quiet host in ground (arith, a, b, c, u, v, w, z)
    | inr (cause, f) ↦
        let (a, b, c) = settled_pools (handle_db_error host cause e.source).actions s in
        let (u, v, w, z) = handle_db_error-Quiet host cause e.source in
        ground (arith, a, b, c, u, v, w, z)
  ]
]

abbrev is_diagnosed : Option GoError → Bool
is_diagnosed none = true
is_diagnosed (some (plain _)) = false
is_diagnosed (some (wrapped _ _)) = false
is_diagnosed (some (diagnosed _)) = true

diagnosed_error :
    (e : GoError) → is_diagnosed (some e) ≡ true → (d : Diagnostic) × (e ≡ diagnosed d)
diagnosed_error (plain t) h = absurd (ground arith)
diagnosed_error (wrapped t e) h = absurd (ground arith)
diagnosed_error (diagnosed d) h = (d, refl)

serve_http_diagnosed :
    (host : Host) (has_handler : Bool) → is_diagnosed (serve_http host has_handler).failure ≡ true
unfolding serve_http finish server_diagnostic
serve_http_diagnosed host has_handler = ground arith

credential_mode_diagnosed : (host : Host) → is_diagnosed (run_credential_mode host).failure ≡ true
unfolding run_credential_mode server_diagnostic
credential_mode_diagnosed host =
    ground (arith, serve_http_diagnosed host host.has_credential_handler)

admitted_diagnosed : (e : GoError) → is_diagnosed (some (admitted_diagnostic e)) ≡ true
unfolding admitted_diagnostic server_diagnostic
admitted_diagnosed e = ground arith

established_diagnosed :
    (host : Host) (e : Established) → is_diagnosed (run_established host e).failure ≡ true
unfolding run_established handle_db_error run_with_pool
established_diagnosed host e = elim (Option-cases e.attempt.failure) [
  | inr (cause, f) ↦ ground (arith, credential_mode_diagnosed host, admitted_diagnosed cause)
  | inl f ↦
      ground (arith, credential_mode_diagnosed host, serve_http_diagnosed host host.has_handler)
]

module _ (sys : System) (deps : Dependencies) (host : Host) (database_url data_dir : Text)
    (source : Option Source) where
  -- However the program ends, with an error, in the credential mode, after serving or by a signal, every
  -- pool that it opened is closed, and the listener, which it opens at most once, is closed once.
  pub run_application-Released :
      Released (run_application sys deps host database_url data_dir source)
  unfolding run_application Released pools_opened pools_closed listeners_opened listeners_closed
  run_application-Released =
      let (s, k) = establish_pool-Settled sys deps database_url data_dir source in
      let (a, b, c) =
        established-Released host (establish_pool sys deps database_url data_dir source) s k in
      ground (arith, a, b, c)

  -- Every error of a run is a diagnostic, and the process ends with the exit code of the public code that
  -- it shows: 2 for the configuration and an unsafe address, 3 for the connection, 4 for the role, 5 for the
  -- read-only check, 6 for the schema and 7 for the server. It ends with 0 exactly when the run has no error.
  pub run_application-exit :
      let result = run_application sys deps host database_url data_dir source in
      ((e : GoError)
        → result.failure ≡ some e
        → (d : Diagnostic) × (e ≡ diagnosed d)
          × ExitsWith (code_of_diagnostic (some d)) (run_with (ok result)))
      × ((run_with (ok result) ≡ 0) ↔ (result.failure ≡ none))
  unfolding run_application run_with server_diagnostic
  run_application-exit =
      let failure : Option GoError =
        (run_application sys deps host database_url data_dir source).failure in
      let x = established_diagnosed host (establish_pool sys deps database_url data_dir source) in
      let diagnosed_failure : is_diagnosed failure ≡ true = ground (arith, x) in
      (
        (λ e h.
            let (d, q) = diagnosed_error e (ground arith) in
            (
              d,
              q,
              run_with-ExitsWith (run_application sys deps host database_url data_dir source) d
                  (h ∙ ap some q),
            )),
        elim (Option-cases failure) [
          | inl n ↦ (λ h. n, λ h. ground arith)
          | inr (e, n) ↦ (
            λ h. absurd (
                ground (arith, exit_code_positive _ _ (exit_code-ExitsWith (public_diagnostic e)))),
            λ h. absurd (ground arith),
          )
        ],
      )
