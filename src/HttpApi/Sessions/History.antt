-- ===== src/HttpApi/Sessions/History.antt =====
-- internal/httpapi/auth.go: the session store over any history of logins, checks and logouts.
use usage_viewer.Prelude.{
  ℕ, ◌+◌, ◌≤◌, ◌≡◌, ◌≢◌, refl, ap, ◌⊎◌, inl, inr, true, List, [], ◌∷◌, ◌++◌, Option, none, some,
  Text, text_eq, text_eq_iff, All, Bool-cases, arith,
}
use usage_viewer.HttpApi.Sessions.{
  Store, new_store, session_duration, encode, lookup, create, valid, revoke,
}
use usage_viewer.HttpApi.Sessions.Laws.{lookup-remove, lookup-insert, valid_iff, lookup-valid_back}

-- The operations of the store, with the random bytes and the time of each.
pub data Op : Type 0 where
  creates : Option Text → ℕ → Op
  checks : Text → ℕ → Op
  revokes : Text → Op

unfoldable pub step : Store → Op → Store
step store (creates buf now) = (create buf now store).1
step store (checks token now) = (valid token now store).1
step store (revokes token) = revoke token store

unfoldable pub run : Store → List Op → Store
unfolding step
run store [] = store
run store (op ∷ ops) = run (step store op) ops

abbrev pub NotRevoking : Text → Op → Type 0
NotRevoking token (creates buf now) = Unit
NotRevoking token (checks t now) = Unit
NotRevoking token (revokes t) = t ≢ token

-- The token was created in the history, with this expiry, and not revoked since.
abbrev pub CreatedIn : Text → ℕ → List Op → Type 0
CreatedIn token expiry ops =
    (before : List Op) × (buf : Text) × (start : ℕ) × (after : List Op) × (ops
      ≡ before ++ (creates (some buf) start ∷ after))
    × (encode buf ≡ token)
    × (expiry ≡ start + session_duration)
    × All (NotRevoking token) after

step_back :
    (token : Text) (store : Store) (op : Op) (x : ℕ)
    → lookup token (step store op) ≡ some x
    → ((lookup token store ≡ some x) × NotRevoking token op)
      ⊎ ((buf : Text) × (start : ℕ) × (op ≡ creates (some buf) start)
          × (encode buf ≡ token)
          × (x ≡ start + session_duration))
unfolding step create revoke
step_back token store (creates none now) x h = inl (h, tt)
step_back token store (creates (some buf) now) x h =
    elim (Bool-cases (text_eq (encode buf) token)) [
      | inl e ↦ inr (
        buf,
        now,
        refl,
        (text_eq_iff (encode buf) token).0 e,
        ground (arith, lookup-insert (encode buf) token (now + session_duration) store),
      )
      | inr e ↦
          inl (ground (arith, lookup-insert (encode buf) token (now + session_duration) store), tt)
    ]
step_back token store (checks t now) x h = inl (lookup-valid_back t token now store h, tt)
step_back token store (revokes t) x h = inl (
  ground (arith, lookup-remove t token store),
  λ e. ground (arith, lookup-remove t token store, text_eq_iff t token),
)

run_back :
    (token : Text) (store : Store) (ops : List Op) (x : ℕ)
    → lookup token (run store ops) ≡ some x
    → ((lookup token store ≡ some x) × All (NotRevoking token) ops) ⊎ CreatedIn token x ops
unfolding run
run_back token store [] x h = inl (h, tt)
run_back token store (op ∷ ops) x h = elim (run_back token (step store op) ops x h) [
  | inr (before, buf, start, after, e, k, d, n) ↦
      inr (op ∷ before, buf, start, after, ap (◌∷◌ op) e, k, d, n)
  | inl (l, n) ↦ elim (step_back token store op x l) [
    | inl (l', n') ↦ inl (l', (n', n))
    | inr (buf, start, e, k, d) ↦ inr ([], buf, start, ops, ap (λ o. o ∷ ops) e, k, d, n)
  ]
]

-- A token is accepted only if some login created it, at most 24 hours before the check, and no
-- logout has revoked it since, whatever else happened.
pub valid-CreatedIn :
    (ops : List Op) (token : Text) (now : ℕ)
    → (valid token now (run new_store ops)).0 ≡ true
    → (expiry : ℕ) × (now ≤ expiry) × CreatedIn token expiry ops
valid-CreatedIn ops token now h =
    let (n, x, q, l) = (valid_iff token now (run new_store ops)).0 h in
    elim (run_back token new_store ops x q) [
      | inl (e, a) ↦ absurd (unfold lookup in (ground arith))
      | inr c ↦ (x, l, c)
    ]

-- An operation that leaves the session of a token as it is until its expiry.
abbrev pub Spares : Text → ℕ → Op → Type 0
Spares token expiry (creates none now) = Unit
Spares token expiry (creates (some buf) now) = encode buf ≢ token
Spares token expiry (checks t now) = (t ≢ token) ⊎ (now ≤ expiry)
Spares token expiry (revokes t) = t ≢ token

step-Spares :
    (token : Text) (store : Store) (op : Op) (x : ℕ)
    → lookup token store ≡ some x
    → Spares token x op
    → lookup token (step store op) ≡ some x
unfolding step create revoke valid
step-Spares token store (creates none now) x h s = h
step-Spares token store (creates (some buf) now) x h s = ground (
  arith,
  lookup-insert (encode buf) token (now + session_duration) store,
  text_eq_iff (encode buf) token,
)
step-Spares token store (checks t now) x h s =
    ground (arith, lookup-remove t token store, text_eq_iff t token)
step-Spares token store (revokes t) x h s =
    ground (arith, lookup-remove t token store, text_eq_iff t token)

run-Spares :
    (token : Text) (store : Store) (ops : List Op) (x : ℕ)
    → lookup token store ≡ some x
    → All (Spares token x) ops
    → lookup token (run store ops) ≡ some x
unfolding run
run-Spares token store [] x h s = h
run-Spares token store (op ∷ ops) x h s =
    run-Spares token (step store op) ops x (step-Spares token store op x h s.0) s.1

-- A session that a login created is accepted until 24 hours have passed, after any later operations
-- that do not revoke the token, create it again or check it past that time.
pub valid_lasts :
    (store : Store) (buf : Text) (start now : ℕ) (after : List Op)
    → encode buf ≢ []
    → All (Spares (encode buf) (start + session_duration)) after
    → now ≤ start + session_duration
    → (valid (encode buf) now (run store (creates (some buf) start ∷ after))).0 ≡ true
unfolding run
valid_lasts store buf start now after n s l = (valid_iff (encode buf) now _).1 (
  n,
  start + session_duration,
  run-Spares (encode buf) (step store (creates (some buf) start)) after (start + session_duration)
      (unfold step create in
        ground (
          arith,
          lookup-insert (encode buf) (encode buf) (start + session_duration) store,
          text_eq_iff (encode buf) (encode buf),
        ))
      s,
  l,
)
