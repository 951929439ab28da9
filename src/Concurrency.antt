-- ===== src/Concurrency.antt =====
-- internal/concurrency/concurrency.go: the requests in flight for each key, which Redis counts. What
-- Redis answers is a parameter; a Go map is an association list, in which a key stands once.
pub mod Counts
use usage_viewer.Prelude.{
  ◌+◌, List, [], ◌∷◌, ◌++◌, Option, none, some, Text, bytes, ℤ, pos, negsuc, eqb_ℤ, ◌+ℤ◌, ◌-ℤ◌,
  wrap64, is_nil, if◌then◌else◌,
}
use usage_viewer.Config.{Config}
use usage_viewer.Creds.DotEnv.{print_int}

-- apiKeySlotKeyPrefix, liveAPIKeySlotKeyPrefix, slotTTLSeconds and liveLeaseTTLSeconds
abbrev pub slot_key_prefix : Text
slot_key_prefix = bytes "concurrency:api_key:"

abbrev pub live_slot_key_prefix : Text
live_slot_key_prefix = bytes "concurrency:live:api_key:"

abbrev pub slot_ttl_seconds : ℤ
slot_ttl_seconds = pos 900

abbrev pub live_lease_ttl_seconds : ℤ
live_lease_ttl_seconds = pos 60

-- How the pipeline ends: without an error, with redis.Nil, or with another error.
pub data Execution : Type 0 where
  executed : Execution
  nil_reply : Execution
  broken : Execution

-- A Redis client, by its answers: the clock in Unix seconds, `none` for an error, the value of a ZCount
-- command for a key, a minimum and a maximum, and the end of the pipeline.
pub record Client : Type 0 where
  pub time : Option ℤ
  pub zcount : Text → Text → Text → ℤ
  pub execution : Execution

-- The redis.Options that NewResolver fills in.
pub record ClientOptions : Type 0 where
  pub addr : Text
  pub password : Text
  pub db : ℤ

-- NewResolver; `none` is a nil resolver.
unfoldable pub new_resolver : Config → Option ClientOptions
new_resolver cfg =
    if is_nil cfg.redis_host
    then none
    else some (record {
      addr = cfg.redis_host ++ bytes ":" ++ print_int cfg.redis_port;
      password = cfg.redis_password;
      db = cfg.redis_db;
    })

abbrev pub Counts : Type 0
Counts = List (ℤ × ℤ)

-- result[id], `none` where the map lacks the key
unfoldable pub lookup : ℤ → Counts → Option ℤ
lookup id [] = none
lookup id ((k, v) ∷ counts) = if eqb_ℤ k id then some v else lookup id counts

-- result[id] with Go's zero value
unfoldable pub count_of : ℤ → Counts → ℤ
unfolding lookup
count_of id counts = elim (lookup id counts) [ none ↦ pos 0 | some v ↦ v ]

-- result[id] = value
unfoldable pub store_count : ℤ → ℤ → Counts → Counts
store_count id value [] = (id, value) ∷ []
store_count id value ((k, v) ∷ counts) =
    let rest = store_count id value counts in
    if eqb_ℤ k id then (k, value) ∷ counts else (k, v) ∷ rest

-- The first loop of Resolve
unfoldable pub zeros : List ℤ → Counts → Counts
unfolding store_count
zeros [] counts = counts
zeros (id ∷ ids) counts = zeros ids (store_count id (pos 0) counts)

-- The commands of the pipeline, each with its id, as their values.
unfoldable pub commands : Client → ℤ → List ℤ → Counts
commands client now [] = []
commands client now (id ∷ ids) =
    let slot_cutoff = wrap64 (now -ℤ slot_ttl_seconds) in
    let live_cutoff = wrap64 (now -ℤ live_lease_ttl_seconds) in
    (id, client.zcount (slot_key_prefix ++ print_int id) (print_int slot_cutoff) (bytes "+inf"))
    ∷ (
      id,
      client.zcount (live_slot_key_prefix ++ print_int id) (print_int live_cutoff) (bytes "+inf"),
    )
    ∷ commands client now ids

-- The last loop of Resolve: result[cmd.id] += cmd.cmd.Val()
unfoldable pub add_counts : Counts → Counts → Counts
unfolding count_of store_count
add_counts [] counts = counts
add_counts ((id, value) ∷ rest) counts =
    add_counts rest (store_count id (wrap64 (count_of id counts +ℤ value)) counts)

-- Resolve behind the zeros
unfoldable pub resolve_with : Client → List ℤ → Counts → Counts
unfolding commands add_counts
resolve_with client ids counts = elim client.time [
  | none ↦ counts
  | some now ↦ elim client.execution [
    | executed ↦ add_counts (commands client now ids) counts
    | nil_reply ↦ add_counts (commands client now ids) counts
    | broken ↦ counts
  ]
]

-- Resolve; `none` is a nil resolver or client.
unfoldable pub resolve : Option Client → List ℤ → Counts
unfolding zeros resolve_with
resolve none ids = []
resolve (some client) ids = if is_nil ids then [] else resolve_with client ids (zeros ids [])
