-- ===== src/App/Connecting.antt =====
-- internal/app/app.go: when the program gets a pool.
use mathlib.Core.List.{append_assoc}
use usage_viewer.Prelude.{
  ℕ, ◌≡◌, refl, sym, ap, ◌∙◌, inl, inr, Bool, true, false, List, [], ◌∷◌, ◌++◌, Option, none, some,
  Text, ok, is_nil, arith,
}
use usage_viewer.Diagnostics.{GoError}
use usage_viewer.Creds.{
  Entry, Source, Found, found, System, source_saved, load_saved, from_env, from_sub2api_config,
  from_saved_file,
}
use usage_viewer.Creds.DotEnv.{from_dot_env_file, discover, add_found, connection_candidates, dsn}
use usage_viewer.Creds.Saving.{Storable, IsUtf8, after_writing}
use usage_viewer.HttpApi.Messages.{HttpRequest, Platform, Stream, Content}
use usage_viewer.HttpApi.Credentials.{World, Form, try_connect, serve_connect}
use usage_viewer.HttpApi.Credentials.Storing.{written_by, serve_connect-stores}
use usage_viewer.App.Pools.{list_cases}
use usage_viewer.App.{
  Opening, open_pool, Dependencies, Attempt, check_opened, after_opening, open_and_preflight,
  try_candidates, try_results, establish_pool, or_no_connection,
}

-- The light functions open a pool for a database URL, whatever its number, and it passes their check.
pub record Reachable (deps : Dependencies) (url : Text) : Type 0 where
  pub open_light : Text → ℕ → Opening
  pub check_light : Text → ℕ → Option GoError
  pub has_open : deps.open_light ≡ some open_light
  pub has_check : deps.light_preflight ≡ some check_light
  pub opens : (n : ℕ) → open_light url n ≡ open_pool
  pub passes : (n : ℕ) → check_light url n ≡ none

abbrev pub connected : Option ℕ → Bool
connected none = false
connected (some n) = true

module _ (deps : Dependencies) where
  open-Reachable :
      (url : Text) (n : ℕ)
      → Reachable deps url
      → open_and_preflight deps true url n ≡ check_opened n none
  unfolding open_and_preflight after_opening
  open-Reachable url n r = ground (arith, r.has_open, r.has_check, r.opens n, r.passes n)

  try_candidates-connects :
      (before : List Entry) (candidate : Entry) (after : List Entry) (last : Option GoError) (n : ℕ)
      → Reachable deps (dsn candidate)
      → connected (try_candidates deps (before ++ candidate ∷ after) last n).pool ≡ true
  unfolding try_candidates check_opened
  try_candidates-connects [] candidate after last n r =
      ground (arith, open-Reachable (dsn candidate) n r)
  try_candidates-connects (c ∷ before) candidate after last n r =
      let a = open_and_preflight deps true (dsn c) n in
      ground (arith, try_candidates-connects before candidate after a.failure a.next r)

  try_results-connects :
      (sys : System) (before : List Found) (result : Found) (after : List Found)
      (last : Option GoError) (source : Option Source) (n : ℕ)
      → ((e : Option GoError) (k : ℕ)
          → connected (try_candidates deps (connection_candidates sys result.entry) e k).pool
            ≡ true)
      → connected (try_results sys deps (before ++ result ∷ after) last source n).attempt.pool
        ≡ true
  unfolding try_results
  try_results-connects sys [] result after last source n h = ground (arith, h last n)
  try_results-connects sys (f ∷ before) result after last source n h =
      let a = try_candidates deps (connection_candidates sys f.entry) last n in
      ground
        (arith, try_results-connects sys before result after a.failure (some f.source) a.next h)

or_no_connection-connected :
    (a : Attempt) → connected a.pool ≡ true → connected (or_no_connection a).pool ≡ true
or_no_connection-connected a h = ground arith

append_nonempty :
    (before : List Found) (f : Found) (after : List Found) → is_nil (before ++ f ∷ after) ≡ false
append_nonempty [] f after = refl
append_nonempty (b ∷ before) f after = refl

-- Without a configured database URL, `establishPool` returns a pool whenever the light functions open and
-- admit one for some candidate of some credentials that are discovered, whatever fails before it.
pub establish_pool-connects :
    (sys : System) (deps : Dependencies) (dir : Text) (source : Option Source) (before : List Found)
    (result : Found) (after : List Found) (earlier : List Entry) (candidate : Entry)
    (later : List Entry)
    → discover sys dir ≡ before ++ result ∷ after
    → connection_candidates sys result.entry ≡ earlier ++ candidate ∷ later
    → Reachable deps (dsn candidate)
    → connected (establish_pool sys deps [] dir source).attempt.pool ≡ true
unfolding establish_pool
establish_pool-connects sys deps dir source before result after earlier candidate later d c r =
    let tried = try_results-connects deps sys before result after none source 0 λ e k.
      ap (λ cs. connected (try_candidates deps cs e k).pool) c
      ∙ try_candidates-connects deps earlier candidate later e k r in
    elim (list_cases (discover sys dir)) [
      | inl q ↦ absurd (ground (arith, append_nonempty before result after))
      | inr (f, fs, q) ↦
          let whole : f ∷ fs ≡ before ++ result ∷ after = sym q ∙ d in
          let first =
            ap (λ l. connected (try_results sys deps l none source 0).attempt.pool) whole ∙ tried in
          ground (
            arith,
            or_no_connection-connected (try_results sys deps (f ∷ fs) none source 0).attempt first,
          )
    ]

-- What stands before the results of the later sources of `Discover`.
add_found-before :
    (f : Option Found) (rest : List Found) → (b : List Found) × (add_found f rest ≡ b ++ rest)
add_found-before none rest = ([], refl)
add_found-before (some f) rest = (f ∷ [], refl)

pub discover-saved :
    (sys : System) (dir : Text) (e : Entry)
    → load_saved sys dir ≡ some e
    → (before : List Found) × (discover sys dir ≡ before ++ found source_saved e ∷ [])
unfolding discover from_saved_file
discover-saved sys dir e h =
    let l = found source_saved e ∷ [] in
    let (c, p) = add_found-before (from_dot_env_file sys dir) l in
    let (b, q) = add_found-before (from_sub2api_config sys dir) (c ++ l) in
    let (a, s) = add_found-before (from_env sys) (b ++ (c ++ l)) in
    let last : from_saved_file sys dir ≡ some (found source_saved e) = ground arith in
    (
      a ++ (b ++ c),
      ap
            (λ x. add_found (from_env sys) (
              add_found (from_sub2api_config sys dir)
                (add_found (from_dot_env_file sys dir) (add_found x []))))
            last
          ∙ ap (λ l. add_found (from_env sys) (add_found (from_sub2api_config sys dir) l)) p
          ∙ ap (λ l. add_found (from_env sys) l) q
          ∙ s
          ∙ sym (append_assoc a (b ++ c) l ∙ ap (λ l. a ++ l) (append_assoc b c l)),
    )

candidates-first :
    (sys : System) (e : Entry) → (later : List Entry) × (connection_candidates sys e ≡ e ∷ later)
unfolding connection_candidates
candidates-first sys e = (_, refl)

-- Credentials with which the form has reported success get the program a pool at its next start without a
-- configured URL, when the light functions then open and admit what the form could connect to, and where the
-- form's decoder gives texts of valid UTF-8 and the JSON decoder reads back what `json.Marshal` has written for a
-- complete entry of such texts.
pub serve_connect-establishes :
    (world : World) (form : Form) (p : Platform) (r : HttpRequest) (message : Text)
    (deps : Dependencies) (source : Option Source)
    → ((s : Stream) (payload : Entry) (rest : Text)
        → world.decode_connect s ≡ some (payload, rest)
        → IsUtf8 payload)
    → ((e : Entry) (content : Text)
        → Storable e
        → IsUtf8 e
        → world.disk.marshal e ≡ ok content
        → world.system.decode_json content ≡ some e)
    → ((e : Entry) → (try_connect world e).0 ≡ true → Reachable deps (dsn e))
    → (serve_connect world p form r).response.content ≡ Content.connect_result true message
    → let sys = after_writing (written_by (serve_connect world p form r).events) world.system in
      connected (establish_pool sys deps [] form.data_dir source).attempt.pool ≡ true
serve_connect-establishes world form p r message deps source decoded reads reach h =
    let (e, c, u, s) = serve_connect-stores world form p r message decoded reads h in
    let sys = after_writing (written_by (serve_connect world p form r).events) world.system in
    let (before, q) = discover-saved sys form.data_dir e s in
    let (later, f) = candidates-first sys e in
    establish_pool-connects sys deps form.data_dir source before (found source_saved e) [] [] e
      later q f (reach e c)
