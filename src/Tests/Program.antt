-- ===== src/Tests/Program.antt =====
-- internal/creds, internal/app: the theorems at concrete inputs.
use usage_viewer.Prelude.{
  ℕ, zero, suc, ◌≡◌, ◌↔◌, Bool, true, false, [], ◌∷◌, ◌++◌, refl, arith, if◌then◌else◌, Option,
  none, some, ok, Text, bytes, trim_space, text_eq, text_eq_refl, pos, All,
}
use usage_viewer.Diagnostics.{GoError, Diagnostic, plain, diagnosed, code_of_diagnostic}
use usage_viewer.Creds.{System, Entry, found, source_saved, load_saved, or_default}
use usage_viewer.Creds.DotEnv.{discover, dsn, at_host, is_service_name, connection_candidates}
use usage_viewer.Creds.DotEnv.Discovery.{Complete, discover-Complete}
use usage_viewer.App.{Dependencies, Opening, open_pool, open_failed, establish_pool}
use usage_viewer.App.Connecting.{Reachable, connected, discover-saved, establish_pool-connects}
use usage_viewer.App.Pools.{Settled, establish_pool-Settled}
use usage_viewer.App.Lifecycle.{Host, context_done, run_application, run_with}
use usage_viewer.App.Lifecycle.Exits.{ExitsWith}
use usage_viewer.App.Lifecycle.Endings.{Released, run_application-Released, run_application-exit}

abbrev saved_entry : Entry
saved_entry = record {
  host = bytes "db";
  port = pos 5432;
  user = bytes "viewer";
  password = bytes "secret";
  db_name = bytes "app";
  ssl_mode = [];
}

abbrev if_saved : Bool → Option Text
if_saved true = some (bytes "{}")
if_saved false = none

abbrev disk : System
disk = record {
  lookup_env = λ name. none;
  read_file = λ path. if_saved (text_eq path (bytes "data/.usage-viewer-creds.json"));
  join = λ a b. a ++ bytes "/" ++ b;
  parse_url = λ url. none;
  is_ip = λ host. false;
  to_lower = λ t. t;
  decode_yaml = λ t. none;
  decode_json = λ t. some saved_entry;
}

discover-Complete_example : All Complete (discover disk (bytes "data"))
discover-Complete_example = discover-Complete disk (bytes "data")

-- The first pool is refused, all others pass.
abbrev refused_first : ℕ → Option GoError
refused_first zero = some (plain (bytes "host not found"))
refused_first (suc n) = none

abbrev fussy : Dependencies
fussy = record {
  open_full = λ url n. open_pool;
  open_light = some (λ url n. open_pool);
  preflight = λ url n. none;
  light_preflight = some (λ url n. refused_first n);
}

abbrev loaded_entry : Entry
loaded_entry = record saved_entry { ssl_mode = bytes "disable" }

-- The second candidate of the saved entry passes.
abbrev later_host : Text
later_host = dsn (at_host (bytes "127.0.0.1") loaded_entry)

abbrev fallback_open : Text → ℕ → Opening
fallback_open url n =
    if text_eq url later_host then open_pool else open_failed (plain (bytes "host not found"))

-- Only that candidate can be reached.
abbrev fallback : Dependencies
fallback = record {
  open_full = λ url n. open_failed (plain (bytes "refused"));
  open_light = some fallback_open;
  preflight = λ url n. none;
  light_preflight = some (λ url n. none);
}

fallback-Reachable : Reachable fallback later_host
fallback-Reachable = record {
  open_light = fallback_open;
  check_light = λ url n. none;
  has_open = refl;
  has_check = refl;
  opens = λ n. ground (arith, text_eq_refl later_host);
  passes = λ n. refl;
}

saved_loaded : load_saved disk (bytes "data") ≡ some loaded_entry
unfolding load_saved or_default text_eq
saved_loaded = refl

service_candidates :
    connection_candidates disk loaded_entry
    ≡ (loaded_entry ∷ [])
      ++ at_host (bytes "127.0.0.1") loaded_entry ∷ at_host (bytes "localhost") loaded_entry ∷ []
unfolding connection_candidates is_service_name text_eq trim_space
service_candidates = refl

establish_pool-connects_example :
    connected (establish_pool disk fallback [] (bytes "data") none).attempt.pool ≡ true
establish_pool-connects_example =
    let (before, discovered) = discover-saved disk (bytes "data") loaded_entry saved_loaded in
    establish_pool-connects disk fallback (bytes "data") none before
      (found source_saved loaded_entry) [] (loaded_entry ∷ [])
      (at_host (bytes "127.0.0.1") loaded_entry) (at_host (bytes "localhost") loaded_entry ∷ [])
      discovered service_candidates fallback-Reachable

-- Every database URL is reached.
abbrev pub welcoming : Dependencies
welcoming = record {
  open_full = λ url n. open_pool;
  open_light = some (λ url n. open_pool);
  preflight = λ url n. none;
  light_preflight = some (λ url n. none);
}

pub welcoming-Reachable : (url : Text) → Reachable welcoming url
welcoming-Reachable url = record {
  open_light = λ url n. open_pool;
  check_light = λ url n. none;
  has_open = refl;
  has_check = refl;
  opens = λ n. refl;
  passes = λ n. refl;
}

establish_pool-Settled_example :
    Settled 0
      (establish_pool disk fussy [] (bytes "data") none).attempt.actions
      (establish_pool disk fussy [] (bytes "data") none).attempt.pool
    × ((p : ℕ)
        → (establish_pool disk fussy [] (bytes "data") none).attempt.pool ≡ some p
        → (establish_pool disk fussy [] (bytes "data") none).attempt.failure ≡ none)
establish_pool-Settled_example = establish_pool-Settled disk fussy [] (bytes "data") none

abbrev pub stopped_host : Host
stopped_host = record {
  available = true;
  done_before = false;
  done_after = false;
  done_in_mode = false;
  has_handler = true;
  has_credential_handler = true;
  listen = none;
  serve_closes_listener = true;
  ending = context_done none none;
}

run_application-Released_example :
    Released (run_application disk fussy stopped_host [] (bytes "data") none)
run_application-Released_example =
    run_application-Released disk fussy stopped_host [] (bytes "data") none

run_application-exit_example :
    let result = run_application disk fussy stopped_host [] (bytes "data") none in
    ((e : GoError)
      → result.failure ≡ some e
      → (d : Diagnostic) × (e ≡ diagnosed d)
        × ExitsWith (code_of_diagnostic (some d)) (run_with (ok result)))
    × ((run_with (ok result) ≡ 0) ↔ (result.failure ≡ none))
run_application-exit_example = run_application-exit disk fussy stopped_host [] (bytes "data") none
