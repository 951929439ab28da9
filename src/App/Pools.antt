-- ===== src/App/Pools.antt =====
-- internal/app/app.go: no pool that is opened is left open, but the one that is returned.
use mathlib.Core.Path.{subst}
use mathlib.Core.List.{append_assoc, append-nil}
use usage_viewer.Prelude.{
  ℕ, suc, ◌≡◌, refl, sym, inl, inr, ◌⊎◌, Bool, true, false, List, [], ◌∷◌, ◌++◌, Option, none, some,
  Text, is_nil, Bool-cases, Option-cases, arith,
}
use usage_viewer.Diagnostics.{GoError}
use usage_viewer.Creds.{Entry, Source, Found, System}
use usage_viewer.Creds.DotEnv.{discover, connection_candidates, dsn}
use usage_viewer.App.{
  Opening, open_failed, open_nil, open_pool, Dependencies, PoolAction, pool_opened, pool_checked,
  pool_closed, Attempt, check_opened, after_opening, open_and_preflight, try_candidates,
  try_results, establish_pool, or_no_connection,
}

-- From the number `n` on, every pool is opened, checked and closed before the next, up to one that
-- passes the check and is returned.
pub data Settled : ℕ → List PoolAction → Option ℕ → Type 0 where
  all_closed : {n : ℕ} → Settled n [] none
  one_kept : {n : ℕ} → Settled n (pool_opened n ∷ pool_checked n ∷ []) (some n)
  one_closed :
      {n : ℕ} {actions : List PoolAction} {pool : Option ℕ}
      → Settled (suc n) actions pool
      → Settled n (pool_opened n ∷ pool_checked n ∷ pool_closed n ∷ actions) pool

-- An attempt that starts at `n`: its actions are settled; with a pool there is no error; without one,
-- whatever is settled from its next number on may follow.
pub record Clean (n : ℕ) (a : Attempt) : Type 0 where
  pub settled : Settled n a.actions a.pool
  pub decided : {p : ℕ} → a.pool ≡ some p → a.failure ≡ none
  pub continues :
      {actions : List PoolAction} {pool : Option ℕ}
      → a.pool ≡ none
      → Settled a.next actions pool
      → Settled n (a.actions ++ actions) pool

after_opening-Clean :
    (o : Opening) (check : Option GoError) (n : ℕ) → Clean n (after_opening o check n)
unfolding after_opening check_opened
after_opening-Clean (open_failed e) check n = record {
  settled = all_closed;
  decided = λ h. absurd (ground arith);
  continues = λ h s. s;
}
after_opening-Clean open_nil check n = record {
  settled = all_closed;
  decided = λ h. refl;
  continues = λ h s. s;
}
after_opening-Clean open_pool none n = record {
  settled = one_kept;
  decided = λ h. refl;
  continues = λ h s. absurd (ground arith);
}
after_opening-Clean open_pool (some e) n = record {
  settled = one_closed all_closed;
  decided = λ h. absurd (ground arith);
  continues = λ h s. one_closed s;
}

open_and_preflight-Clean :
    (deps : Dependencies) (light : Bool) (url : Text) (n : ℕ)
    → Clean n (open_and_preflight deps light url n)
unfolding open_and_preflight
open_and_preflight-Clean deps light url n = after_opening-Clean _ _ n

-- An attempt without a pool, and one that starts where it ends.
abbrev joined : Attempt → Attempt → Attempt
joined a b = record {
  pool = b.pool;
  failure = b.failure;
  actions = a.actions ++ b.actions;
  next = b.next;
}

joined-Clean :
    (n : ℕ) (a b : Attempt) → Clean n a → a.pool ≡ none → Clean a.next b → Clean n (joined a b)
joined-Clean n a b x h y = record {
  settled = x.continues h y.settled;
  decided = y.decided;
  continues = λ {actions} {pool} k s.
      subst (λ l. Settled n l pool) (sym (append_assoc a.actions b.actions actions))
        (x.continues h (y.continues k s));
}

same-Clean : (n : ℕ) {a b : Attempt} → a ≡ b → Clean n b → Clean n a
same-Clean n e x = subst (Clean n) (sym e) x

try_candidates-Clean :
    (deps : Dependencies) (candidates : List Entry) (last : Option GoError) (n : ℕ)
    → Clean n (try_candidates deps candidates last n)
unfolding try_candidates
try_candidates-Clean deps [] last n = record {
  settled = all_closed;
  decided = λ h. absurd (ground arith);
  continues = λ h s. s;
}
try_candidates-Clean deps (candidate ∷ rest) last n =
    let a = open_and_preflight deps true (dsn candidate) n in
    let x = open_and_preflight-Clean deps true (dsn candidate) n in
    let later = try_candidates deps rest a.failure a.next in
    let y = try_candidates-Clean deps rest a.failure a.next in
    elim (Option-cases a.pool) [
      | inr (p, e) ↦ same-Clean n (ground (arith, x.decided e)) x
      | inl e ↦ same-Clean n (ground arith) (joined-Clean n a later x e y)
    ]

try_results-Clean :
    (sys : System) (deps : Dependencies) (results : List Found) (last : Option GoError)
    (source : Option Source) (n : ℕ)
    → Clean n (try_results sys deps results last source n).attempt
unfolding try_results
try_results-Clean sys deps [] last source n = record {
  settled = all_closed;
  decided = λ h. absurd (ground arith);
  continues = λ h s. s;
}
try_results-Clean sys deps (result ∷ rest) last source n =
    let a = try_candidates deps (connection_candidates sys result.entry) last n in
    let x = try_candidates-Clean deps (connection_candidates sys result.entry) last n in
    let later = (try_results sys deps rest a.failure (some result.source) a.next).attempt in
    let y = try_results-Clean sys deps rest a.failure (some result.source) a.next in
    elim (Option-cases a.pool) [
      | inr (p, e) ↦ same-Clean n (ground arith) x
      | inl e ↦ same-Clean n (ground arith) (joined-Clean n a later x e y)
    ]

pub list_cases {ℓ} :
    {A : Type ℓ} (xs : List A) → (xs ≡ []) ⊎ ((x : A) × (rest : List A) × (xs ≡ x ∷ rest))
list_cases [] = inl refl
list_cases (x ∷ rest) = inr (x, rest, refl)

-- The error that an attempt without a pool gets changes nothing else.
or_no_connection-Clean : (a : Attempt) → Clean 0 a → Clean 0 (or_no_connection a)
or_no_connection-Clean a x = elim (Option-cases a.pool) [
  | inr (p, e) ↦ same-Clean 0 (ground arith) x
  | inl e ↦
      let last : Attempt = record {
        pool = none;
        failure = (or_no_connection a).failure;
        actions = [];
        next = a.next;
      } in
      same-Clean 0 (ground (arith, append-nil a.actions)) (
        joined-Clean 0 a last x e (record {
          settled = all_closed;
          decided = λ h. absurd (ground arith);
          continues = λ h s. s;
        }))
]

settles :
    {a b : Attempt}
    → a ≡ b
    → Clean 0 b
    → Settled 0 a.actions a.pool × ((p : ℕ) → a.pool ≡ some p → a.failure ≡ none)
settles e x =
    subst
      (λ (o : Attempt). Settled 0 o.actions o.pool × ((p : ℕ) → o.pool ≡ some p → o.failure ≡ none))
      (sym e) (x.settled, λ p h. x.decided h)

-- However the candidates answer, every pool that `establishPool` opens is checked, and closed before the
-- next one is opened, unless it passes the check: then it is the last one, and is returned, with no error.
pub establish_pool-Settled :
    (sys : System) (deps : Dependencies) (database_url data_dir : Text) (source : Option Source)
    → Settled 0
        (establish_pool sys deps database_url data_dir source).attempt.actions
        (establish_pool sys deps database_url data_dir source).attempt.pool
      × ((p : ℕ)
          → (establish_pool sys deps database_url data_dir source).attempt.pool ≡ some p
          → (establish_pool sys deps database_url data_dir source).attempt.failure ≡ none)
unfolding establish_pool try_candidates
establish_pool-Settled sys deps database_url data_dir source =
    elim (Bool-cases (is_nil database_url)) [
      | inr e ↦
          let x = open_and_preflight-Clean deps false database_url 0 in
          let same : (establish_pool sys deps database_url data_dir source).attempt
              ≡ open_and_preflight deps false database_url 0 =
            ground arith in
          settles same x
      | inl e ↦ elim (list_cases (discover sys data_dir)) [
        | inl q ↦
            let same : (establish_pool sys deps database_url data_dir source).attempt
                ≡ record { pool = none; failure = none; actions = []; next = 0 } =
              ground arith in
            settles same (try_candidates-Clean deps [] none 0)
        | inr (result, rest, q) ↦
            let tried = (try_results sys deps (result ∷ rest) none source 0).attempt in
            let same : (establish_pool sys deps database_url data_dir source).attempt
                ≡ or_no_connection tried =
              ground arith in
            settles same (
              or_no_connection-Clean tried
                (try_results-Clean sys deps (result ∷ rest) none source 0))
      ]
    ]
