-- ===== src/Creds/DotEnv/Discovery.antt =====
-- internal/creds: what the discovery finds.
use mathlib.Core.Path.{subst}
use usage_viewer.Prelude.{
  ◌≡◌, refl, sym, inl, inr, ◌⊎◌, Bool, true, false, ◌&&◌, ◌||◌, List, [], ◌∷◌, Option, none, some,
  Text, bytes, is_nil, pos, ltb_ℤ, leb_ℤ, All, Option-cases, arith, if◌then◌else◌,
}
use usage_viewer.Creds.{
  Entry, source_env, Found, System, or_default, port_of, first_found, try_sub2api_config,
  from_sub2api_config, config_paths, load_saved, from_saved_file, from_env, from_parameters,
  incomplete, with_port,
}
use usage_viewer.Creds.DotEnv.{
  discover, try_dot_env_file, from_dot_env_file, dot_env_entry, parameter, Parameters, read_dot_env,
  add_found,
}

-- Credentials that name a host, a user and a database, with a positive port and an SSL mode.
pub record Usable (e : Entry) : Type 0 where
  pub host : is_nil e.host ≡ false
  pub user : is_nil e.user ≡ false
  pub db_name : is_nil e.db_name ≡ false
  pub port : ltb_ℤ (pos 0) e.port ≡ true
  pub ssl_mode : is_nil e.ssl_mode ≡ false

or_default-filled :
    (fallback t : Text) → is_nil fallback ≡ false → is_nil (or_default fallback t) ≡ false
unfolding or_default
or_default-filled fallback t h = ground arith

port_of_positive : (o : Option Text) → ltb_ℤ (pos 0) (port_of o) ≡ true
unfolding port_of
port_of_positive o = ground arith

with_port-Usable :
    (keep : Bool) (e : Entry)
    → incomplete e ≡ false
    → (keep ≡ true → ltb_ℤ (pos 0) e.port ≡ true)
    → Usable (with_port keep e)
unfolding or_default
with_port-Usable keep e c k = record {
  host = ground arith;
  user = ground arith;
  db_name = ground arith;
  port = ground (arith, k);
  ssl_mode = ground arith;
}

try_sub2api_config-Usable :
    (sys : System) (path : Text) (f : Found) → try_sub2api_config sys path ≡ some f → Usable f.entry
unfolding try_sub2api_config
try_sub2api_config-Usable sys path f h = elim (Option-cases (sys.read_file path)) [
  | inl n ↦ absurd (ground arith)
  | inr (content, q) ↦ elim (Option-cases (sys.decode_yaml content)) [
    | inl n ↦ absurd (ground arith)
    | inr (db, d) ↦
        let is_entry : f.entry ≡ with_port (ltb_ℤ (pos 0) db.port) db = ground arith in
        subst Usable (sym is_entry)
          (with_port-Usable (ltb_ℤ (pos 0) db.port) db (ground arith) (λ k. k))
  ]
]

load_saved-Usable : (sys : System) (dir : Text) (e : Entry) → load_saved sys dir ≡ some e → Usable e
unfolding load_saved
load_saved-Usable sys dir e h =
    elim (Option-cases (sys.read_file (sys.join dir (bytes ".usage-viewer-creds.json")))) [
      | inl n ↦ absurd (ground arith)
      | inr (content, q) ↦ elim (Option-cases (sys.decode_json content)) [
        | inl n ↦ absurd (ground arith)
        | inr (db, d) ↦
            let keep : Bool = ltb_ℤ (pos 0) db.port && leb_ℤ db.port (pos 65535) in
            let is_entry : e ≡ with_port keep db = ground arith in
            subst Usable (sym is_entry)
              (with_port-Usable keep db (ground arith) (λ k. ground arith))
      ]
    ]

from_saved_file-Usable :
    (sys : System) (dir : Text) (f : Found) → from_saved_file sys dir ≡ some f → Usable f.entry
unfolding from_saved_file
from_saved_file-Usable sys dir f h = elim (Option-cases (load_saved sys dir)) [
  | inl n ↦ absurd (ground arith)
  | inr (e, q) ↦
      let is_entry : f.entry ≡ e = ground arith in
      subst Usable (sym is_entry) (load_saved-Usable sys dir e q)
]

dot_env_entry-Usable :
    (params : Parameters)
    → (is_nil (parameter (bytes "POSTGRES_USER") params)
        || is_nil (parameter (bytes "POSTGRES_DB") params))
      ≡ false
    → Usable (dot_env_entry params)
unfolding dot_env_entry
dot_env_entry-Usable params h = record {
  host = or_default-filled (bytes "127.0.0.1") (parameter (bytes "DATABASE_HOST") params) refl;
  user = ground arith;
  db_name = ground arith;
  port = port_of_positive (
      if is_nil (parameter (bytes "DATABASE_PORT") params)
      then none
      else some (parameter (bytes "DATABASE_PORT") params));
  ssl_mode = or_default-filled (bytes "disable") (parameter (bytes "DATABASE_SSLMODE") params) refl;
}

try_dot_env_file-Usable :
    (sys : System) (path : Text) (f : Found) → try_dot_env_file sys path ≡ some f → Usable f.entry
unfolding try_dot_env_file
try_dot_env_file-Usable sys path f h = elim (Option-cases (read_dot_env sys path)) [
  | inl n ↦ absurd (ground arith)
  | inr (params, q) ↦
      let is_entry : f.entry ≡ dot_env_entry params = ground arith in
      subst Usable (sym is_entry) (dot_env_entry-Usable params (ground arith))
]

first_found_all :
    (try_path : Text → Option Found) (P : Found → Type 0)
    → ((path : Text) (f : Found) → try_path path ≡ some f → P f)
    → (paths : List Text) (f : Found) → first_found try_path paths ≡ some f
    → P f
unfolding first_found
first_found_all try_path P k [] f h = absurd (ground arith)
first_found_all try_path P k (path ∷ rest) f h = elim (Option-cases (try_path path)) [
  | inr (g, q) ↦ k path f (ground arith)
  | inl q ↦ first_found_all try_path P k rest f (ground arith)
]

-- What the discovery promises of a result.
abbrev pub Complete : Found → Type 0
Complete f = (f.source ≡ source_env) ⊎ Usable f.entry

add_found-All :
    (o : Option Found) (rest : List Found)
    → ((f : Found) → o ≡ some f → Complete f)
    → All Complete rest
    → All Complete (add_found o rest)
add_found-All none rest h k = k
add_found-All (some f) rest h k = (h f refl, k)

from_env_source : (sys : System) (f : Found) → from_env sys ≡ some f → f.source ≡ source_env
unfolding from_env from_parameters
from_env_source sys f h = ground arith

-- Every result of the discovery comes from the environment, or names a host, a user and a database, with
-- a positive port and an SSL mode.
pub discover-Complete : (sys : System) (dir : Text) → All Complete (discover sys dir)
unfolding discover from_sub2api_config from_dot_env_file
discover-Complete sys dir =
    add_found-All (from_env sys) _ (λ f h. inl (from_env_source sys f h))
      (add_found-All (from_sub2api_config sys dir) _
        (λ f h. inr (
          first_found_all (try_sub2api_config sys) (λ g. Usable g.entry)
            (try_sub2api_config-Usable sys) (config_paths sys dir) f h))
        (add_found-All (from_dot_env_file sys dir) _
          (λ f h. inr (
            first_found_all (try_dot_env_file sys) (λ g. Usable g.entry)
              (try_dot_env_file-Usable sys) _ f h))
          (add_found-All (from_saved_file sys dir) []
            (λ f h. inr (from_saved_file-Usable sys dir f h)) tt)))
