-- ===== src/HttpApi/Sessions/Laws.antt =====
-- internal/httpapi/auth.go: one operation of the session store, seen through `lookup`.
use usage_viewer.Prelude.{
  ℕ, ◌+◌, ◌≤◌, ◌≡◌, ◌≢◌, ◌↔◌, inl, inr, true, false, [], ◌∷◌, none, some, Text, text_eq,
  text_eq_iff, text_eq_refl, leb, Option-cases, arith, if◌then◌else◌,
}
use usage_viewer.HttpApi.Sessions.{
  Store, session_duration, encode, lookup, remove, insert, create, valid, revoke,
}

pub lookup-remove :
    (k j : Text) (store : Store)
    → lookup j (remove k store) ≡ (if text_eq k j then none else lookup j store)
unfolding lookup remove
lookup-remove k j [] = ground arith
lookup-remove k j ((t, x) ∷ store) =
    ground (arith, lookup-remove k j store, text_eq_iff t k, text_eq_iff t j, text_eq_iff k j)

pub lookup-insert :
    (k j : Text) (x : ℕ) (store : Store)
    → lookup j (insert k x store) ≡ (if text_eq k j then some x else lookup j store)
unfolding lookup insert
lookup-insert k j x store = ground (arith, lookup-remove k j store)

-- What a check of a token says about its session.
pub valid_iff :
    (token : Text) (now : ℕ) (store : Store)
    → ((valid token now store).0 ≡ true)
      ↔ ((token ≢ []) × (expiry : ℕ) × (lookup token store ≡ some expiry) × (now ≤ expiry))
unfolding valid
valid_iff token now store = elim (Option-cases (lookup token store)) [
  | inl n ↦ (λ h. absurd (ground arith), λ (t, x, q, l). absurd (ground arith))
  | inr (x, q) ↦ (λ h. (ground arith, x, q, ground arith), λ (t, y, p, l). ground arith)
]

-- A check changes no session that another check at that time or later would accept.
lookup-valid :
    (token j : Text) (now : ℕ) (store : Store) {x : ℕ}
    → lookup j store ≡ some x
    → now ≤ x
    → lookup j (valid token now store).1 ≡ some x
unfolding valid
lookup-valid token j now store h l =
    ground (arith, lookup-remove token j store, text_eq_iff token j)

pub lookup-valid_back :
    (token j : Text) (now : ℕ) (store : Store) {x : ℕ}
    → lookup j (valid token now store).1 ≡ some x
    → lookup j store ≡ some x
unfolding valid
lookup-valid_back token j now store h = ground (arith, lookup-remove token j store)

-- A token that was just created is accepted, when it is not empty, exactly for the 24 hours that
-- follow, the last instant included, and no other token is affected.
create_then_valid :
    (buf : Text) (now later : ℕ) (store : Store)
    → encode buf ≢ []
    → ((valid (encode buf) later (create (some buf) now store).1).0
        ≡ leb later (now + session_duration))
      × ((other : Text)
          → other ≢ encode buf
          → (valid other later (create (some buf) now store).1).0 ≡ (valid other later store).0)
unfolding create valid
create_then_valid buf now later store h = (
  ground (
    arith,
    lookup-insert (encode buf) (encode buf) (now + session_duration) store,
    text_eq_refl (encode buf),
  ),
  λ other n. ground (
    arith,
    lookup-insert (encode buf) other (now + session_duration) store,
    text_eq_iff (encode buf) other,
  ),
)

-- A revoked token is refused at every time, and no other token is affected.
pub revoke_then_valid :
    (token other : Text) (now : ℕ) (store : Store)
    → ((valid token now (revoke token store)).0 ≡ false)
      × (other ≢ token → (valid other now (revoke token store)).0 ≡ (valid other now store).0)
unfolding revoke valid
revoke_then_valid token other now store = (
  ground (arith, lookup-remove token token store, text_eq_refl token),
  λ n. ground (arith, lookup-remove token other store, text_eq_iff token other),
)
