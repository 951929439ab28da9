-- ===== src/HttpApi/Sessions.antt =====
-- internal/httpapi/auth.go: the session store. The clock and the random bytes are arguments; times
-- are nanoseconds. The mutex makes each operation one step.
pub mod Laws
pub mod History
use usage_viewer.Prelude.{
  ℕ, ◌+◌, ◌-◌, ◌*◌, ◌/◌, ◌%◌, Bool, true, false, List, [], ◌∷◌, Option, none, some, Text, text_eq,
  ltb, ◌==◌, is_nil, if◌then◌else◌,
}

-- sessionDuration, 24 hours
abbrev pub session_duration : ℕ
session_duration = 86400000000000

-- The map from tokens to expiry times.
abbrev pub Store : Type 0
Store = List (Text × ℕ)

abbrev pub new_store : Store
new_store = []

-- The character of six bits in the URL alphabet of base64.
symbol : ℕ → ℕ
symbol n =
    if ltb n 26
    then 65 + n
    else if ltb n 52
    then 71 + n
    else if ltb n 62
    then n - 4
    else if n == 62
    then 45
    else 95

-- base64.RawURLEncoding.EncodeToString
unfoldable pub encode : Text → Text
unfolding symbol
encode [] = []
encode (a ∷ []) = symbol (a / 4) ∷ symbol (a % 4 * 16) ∷ []
encode (a ∷ b ∷ []) = symbol (a / 4) ∷ symbol (a % 4 * 16 + b / 16) ∷ symbol (b % 16 * 4) ∷ []
encode (a ∷ b ∷ c ∷ rest) =
    symbol (a / 4)
    ∷ symbol (a % 4 * 16 + b / 16)
    ∷ symbol (b % 16 * 4 + c / 64)
    ∷ symbol (c % 64)
    ∷ encode rest

-- store.sessions[token]
unfoldable pub lookup : Text → Store → Option ℕ
lookup token [] = none
lookup token ((t, expiry) ∷ rest) = if text_eq t token then some expiry else lookup token rest

-- delete(store.sessions, token)
unfoldable pub remove : Text → Store → Store
remove token [] = []
remove token ((t, expiry) ∷ rest) =
    let kept = remove token rest in if text_eq t token then kept else (t, expiry) ∷ kept

-- store.sessions[token] = expiry
unfoldable pub insert : Text → ℕ → Store → Store
unfolding remove
insert token expiry store = (token, expiry) ∷ remove token store

-- sessionStore.create; `none` is an error of the random source.
unfoldable pub create : Option Text → ℕ → Store → Option Text × Store
create none now store = (none, store)
create (some buf) now store =
    (some (encode buf), insert (encode buf) (now + session_duration) store)

-- sessionStore.valid: an expired session is dropped.
unfoldable pub valid : Text → ℕ → Store → Bool × Store
valid token now store = if is_nil token then (false, store) else elim (lookup token store) [
  | none ↦ (false, store)
  | some expiry ↦ if ltb expiry now then (false, remove token store) else (true, store)
]

-- sessionStore.revoke
unfoldable pub revoke : Text → Store → Store
revoke token store = remove token store
