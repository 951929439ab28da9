-- ===== src/App/Wiring/Promises.antt =====
-- cmd/viewer/main.go: the repositories keep the contract of the handlers' services.
use mathlib.Core.Path.{subst}
use usage_viewer.Prelude.{
  Result, err, ◌≡◌, sym, ap, ◌∙◌, refl, ok, true, false, List, [], ◌∷◌, Option, none, some, Text,
  text_eq, ℤ, All, if◌then◌else◌,
}
use usage_viewer.Diagnostics.{GoError}
use usage_viewer.Config.{Config}
use usage_viewer.Concurrency.{Client, ClientOptions, new_resolver}
use usage_viewer.Search.{
  Query, Window, all_windows, window_1_day, window_3_day, window_7_day, window_30_day,
}
use usage_viewer.Search.Results.{Results, DailyUsagePoint, SelfResult}
use usage_viewer.Search.Reports.{validate_days_iff}
use usage_viewer.Postgres.Repositories.{Database, Clock, Repository, RankRow}
use usage_viewer.Postgres.Repositories.Searching.{search}
use usage_viewer.Postgres.Repositories.Reporting.{daily_usage, top, self_lookup, entry_of, Rankings}
use usage_viewer.Postgres.Repositories.Listings.{search_iff}
use usage_viewer.Postgres.Repositories.Rankings.{Ranked, entries_in, rankings_of}
use usage_viewer.Postgres.Repositories.Reports.{daily_usage_iff, top_iff, self_lookup_iff}
use usage_viewer.HttpApi.Contract.{
  Contract, KeptResults, KeptPoints, KeptRankings, KeptLookup, ShownEntry, ShownRankings,
}
use usage_viewer.HttpApi.Sessions.{Store}
use usage_viewer.HttpApi.Messages.{HttpRequest, Platform}
use usage_viewer.HttpApi.Handlers.{Moment}
use usage_viewer.HttpApi.Router.{serve}
use usage_viewer.HttpApi.Contract.Presenting.{Presented}
use usage_viewer.HttpApi.Contract.Serving.{serve-Presented}
use usage_viewer.App.Wiring.{new_server, new_services, connected, new_repository}

entry_of-Shown : (l : ℤ) (r : RankRow) → Ranked l r → ShownEntry l (entry_of r)
unfolding entry_of
entry_of-Shown l r k = (k.positive, k.within, (r.raw_key, refl))

entries_in-Shown :
    (l : ℤ) (w : Window) (rows : List RankRow)
    → All (Ranked l) rows
    → All (ShownEntry l) (entries_in w rows)
entries_in-Shown l w [] all = tt
entries_in-Shown l w (r ∷ rows) (k, all) =
    elim (text_eq w r.window_text)
      as (λ b.
        All (ShownEntry l) (if b then entry_of r ∷ entries_in w rows else entries_in w rows)) [
          | true ↦ (entry_of-Shown l r k, entries_in-Shown l w rows all)
          | false ↦ entries_in-Shown l w rows all
        ]

rankings_of-Shown :
    (l : ℤ) (rows : List RankRow)
    → All (Ranked l) rows
    → ShownRankings l (rankings_of all_windows rows)
rankings_of-Shown l rows all = (
  refl,
  (
    entries_in-Shown l window_1_day rows all,
    (
      entries_in-Shown l window_3_day rows all,
      (entries_in-Shown l window_7_day rows all, (entries_in-Shown l window_30_day rows all, tt)),
    ),
  ),
)

module _ (repository : Option Repository) (clock : Clock) where
  search_kept :
      (resolver : Option Client) (q : Query) (answer : Option Results)
      → search repository resolver clock q ≡ answer
      → KeptResults q answer
  search_kept resolver q none h = tt
  search_kept resolver q (some results) h =
      let (total, rows, d, r) = (search_iff repository resolver clock q results).0 h in
      (d.valid, ap (λ (x : Results). x.page) r, ap (λ (x : Results). x.page_size) r)

  daily_usage_kept :
      (key days : ℤ) (answer : Option (List DailyUsagePoint))
      → daily_usage repository clock key days ≡ answer
      → KeptPoints key days answer
  daily_usage_kept key days none h = tt
  daily_usage_kept key days (some points) h =
      let (d, database, p, v, s, e) = (daily_usage_iff repository clock key days points).0 h in
      (p, v ∙ ap ok ((validate_days_iff days d).0 v).0)

  top_kept :
      (limit : ℤ) (answer : Option Rankings)
      → top repository clock limit ≡ answer
      → KeptRankings limit answer
  top_kept limit none h = tt
  top_kept limit (some out) h =
      let (l, database, rows, v, s, a, o) = (top_iff repository clock limit out).0 h in
      (l, v, subst (ShownRankings l) (sym o) (rankings_of-Shown l rows a.ranked))

  self_lookup_kept :
      (credential : Text) (answer : Result GoError (Option (SelfResult × ℤ)))
      → self_lookup repository clock credential ≡ answer
      → KeptLookup credential answer
  self_lookup_kept credential (err e) h = tt
  self_lookup_kept credential (ok none) h = tt
  self_lookup_kept credential (ok (some (result, id))) h =
      let (value, database, v, s, (r, cost, q, c, e, i)) =
        (self_lookup_iff repository clock credential (some (result, id))).0 h in
      (value, v, (r.raw_key, ap (λ (x : SelfResult). x.key_masked) e))

-- The services that the program puts together from its repositories keep the contract of the handlers,
-- whatever the configuration, the database, Redis and the clock: an answer to a search is for a valid query
-- and its page, a leaderboard has its four windows, with ranks from 1 to an accepted limit, daily costs
-- are those of a positive key over an accepted number of days, and all keys are masked.
pub new_services-Contract :
    (cfg : Config) (pool : Option Database) (connect : ClientOptions → Client) (clock : Clock)
    → Contract (new_services cfg pool connect clock)
unfolding new_services
new_services-Contract cfg pool connect clock =
    let repository = some (new_repository pool cfg) in
    let resolver = connected connect (new_resolver cfg) in
    record {
      searches = λ q. search_kept repository clock resolver q _ refl;
      daily_usages = λ key days. daily_usage_kept repository clock key days _ refl;
      leaderboards = λ limit. top_kept repository clock limit _ refl;
      self_lookups = λ credential. self_lookup_kept repository clock credential _ refl;
    }

-- The program end to end: whatever the database answers, a response shows search results only for a valid
-- query and its page, daily costs only over an accepted number of days, a leaderboard only with an accepted
-- limit, its four windows and ranks within the limit, and no key of a leaderboard or a self-lookup but masked.
pub new_server-Presented :
    (platform : Platform) (cfg : Config) (pool : Option Database) (connect : ClientOptions → Client)
    (clock : Clock) (moment : Moment) (r : HttpRequest) (store : Store)
    → Presented (serve (new_server platform cfg pool connect clock) moment r store).response.content
unfolding new_server
new_server-Presented platform cfg pool connect clock moment r store =
    serve-Presented (new_server platform cfg pool connect clock) moment r store
      (new_services-Contract cfg pool connect clock)
