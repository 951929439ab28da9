-- ===== src/App/Lifecycle/Starting.antt =====
-- internal/app/app.go: when the program comes to serve.
use usage_viewer.Prelude.{
  ℕ, ◌≡◌, refl, ◌&&◌, ◌||◌, inl, inr, Bool, true, false, List, [], ◌∷◌, ◌++◌, Option, none, some,
  Text, ok, map, Option-cases, arith, if◌then◌else◌,
}
use usage_viewer.Creds.{Entry, Source, System}
use usage_viewer.Creds.DotEnv.{dsn}
use usage_viewer.Creds.Saving.{Storable, IsUtf8, after_writing}
use usage_viewer.HttpApi.Messages.{HttpRequest, Platform, Stream, Content}
use usage_viewer.HttpApi.Credentials.{World, Form, try_connect, serve_connect}
use usage_viewer.HttpApi.Credentials.Storing.{written_by}
use usage_viewer.App.{Dependencies, pool_closed, establish_pool}
use usage_viewer.App.Pools.{establish_pool-Settled}
use usage_viewer.App.Connecting.{Reachable, connected, serve_connect-establishes}
use usage_viewer.App.Lifecycle.{
  Action, on_pool, started_serving, Host, close_once, finish, serve_http, run_with_pool,
  run_established, run_application,
}

-- Nothing stops the process before it serves: its context goes on, and it has a handler and a listener.
pub record Starts (host : Host) : Type 0 where
  pub available : host.available ≡ true
  pub goes_on : host.done_before ≡ false
  pub goes_on_after : host.done_after ≡ false
  pub has_handler : host.has_handler ≡ true
  pub listens : host.listen ≡ none

unfoldable is_serving : Action → Bool
is_serving started_serving = true
is_serving _ = false

unfoldable is_closing : Action → Bool
is_closing (on_pool (pool_closed n)) = true
is_closing _ = false

unfoldable closes_pool : List Action → Bool
unfolding is_closing
closes_pool [] = false
closes_pool (a ∷ actions) = is_closing a || closes_pool actions

-- Whether the program serves, and closes a pool after that.
unfoldable pub serves_with_pool : List Action → Bool
unfolding is_serving closes_pool
serves_with_pool [] = false
serves_with_pool (a ∷ actions) = is_serving a && closes_pool actions || serves_with_pool actions

closes_pool-append :
    (a : List Action) (n : ℕ) → closes_pool (a ++ on_pool (pool_closed n) ∷ []) ≡ true
unfolding closes_pool
closes_pool-append [] n = refl
closes_pool-append (x ∷ a) n = ground (arith, closes_pool-append a n)

serves_with_pool-append :
    (a b : List Action) → serves_with_pool b ≡ true → serves_with_pool (a ++ b) ≡ true
unfolding serves_with_pool
serves_with_pool-append [] b h = h
serves_with_pool-append (x ∷ a) b h = ground (arith, serves_with_pool-append a b h)

module _ (host : Host) (starts : Starts host) where
  serves_with_pool-run_with_pool :
      (pool : ℕ) → serves_with_pool (run_with_pool host pool).actions ≡ true
  unfolding run_with_pool serve_http serves_with_pool
  serves_with_pool-run_with_pool pool =
      let ended = (finish host.serve_closes_listener host.ending).actions in
      let tail = (if host.serve_closes_listener then close_once false else []) ++ ended in
      ground (
        arith,
        starts.goes_on_after,
        starts.has_handler,
        starts.listens,
        closes_pool-append tail pool,
      )

  -- A run that gets a pool serves with it.
  serves_with_pool-run_application :
      (sys : System) (deps : Dependencies) (url dir : Text) (source : Option Source)
      → connected (establish_pool sys deps url dir source).attempt.pool ≡ true
      → serves_with_pool (run_application sys deps host url dir source).actions ≡ true
  unfolding run_application run_established
  serves_with_pool-run_application sys deps url dir source h =
      let e = establish_pool sys deps url dir source in
      elim (Option-cases e.attempt.pool) [
        | inl n ↦ absurd (ground arith)
        | inr (p, q) ↦
            let decided = (establish_pool-Settled sys deps url dir source).1 p q in
            ground (
              arith,
              starts.available,
              starts.goes_on,
              q,
              decided,
              serves_with_pool-append (map on_pool e.attempt.actions) (run_with_pool host p).actions
                  (serves_with_pool-run_with_pool p),
            )
      ]

-- Credentials with which the form has reported success are enough for the program to serve at its next start
-- without a configured URL: it gets a pool, serves with it, and closes it afterwards. The process must get to
-- serving, the light functions must then open and admit what the form could connect to, the form's decoder must
-- give texts of valid UTF-8, and the JSON decoder must read back what `json.Marshal` has written for a complete
-- entry of such texts.
pub serve_connect-serves :
    (world : World) (form : Form) (p : Platform) (r : HttpRequest) (message : Text)
    (deps : Dependencies) (host : Host) (source : Option Source)
    → ((s : Stream) (payload : Entry) (rest : Text)
        → world.decode_connect s ≡ some (payload, rest)
        → IsUtf8 payload)
    → ((e : Entry) (content : Text)
        → Storable e
        → IsUtf8 e
        → world.disk.marshal e ≡ ok content
        → world.system.decode_json content ≡ some e)
    → ((e : Entry) → (try_connect world e).0 ≡ true → Reachable deps (dsn e))
    → Starts host
    → (serve_connect world p form r).response.content ≡ Content.connect_result true message
    → let sys = after_writing (written_by (serve_connect world p form r).events) world.system in
      serves_with_pool (run_application sys deps host [] form.data_dir source).actions ≡ true
serve_connect-serves world form p r message deps host source decoded reads reach starts h =
    let sys = after_writing (written_by (serve_connect world p form r).events) world.system in
    serves_with_pool-run_application host starts sys deps [] form.data_dir source
      (serve_connect-establishes world form p r message deps source decoded reads reach h)
