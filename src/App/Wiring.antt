-- ===== src/App/Wiring.antt =====
-- cmd/viewer/main.go: the handler that NewHandler puts together, with the repositories as its services.
pub mod Promises
use usage_viewer.Prelude.{Option, none, some, Text}
use usage_viewer.Config.{Config}
use usage_viewer.Concurrency.{Client, ClientOptions, new_resolver}
use usage_viewer.Postgres.Repositories.{Database, Clock, Repository}
use usage_viewer.Postgres.Repositories.Searching.{search}
use usage_viewer.Postgres.Repositories.Reporting.{daily_usage, top, self_lookup}
use usage_viewer.HttpApi.Messages.{Platform}
use usage_viewer.HttpApi.Handlers.{Services, default_account, configure_auth}
use usage_viewer.HttpApi.Router.{Server}

-- NewSearchRepository, NewDailyUsageRepository, NewLeaderboardRepository and NewSelfLookupRepository
unfoldable pub new_repository : Option Database → Config → Repository
new_repository pool cfg = record { pool = pool; timeout = cfg.database_query_timeout }

abbrev pub connected : (ClientOptions → Client) → Option ClientOptions → Option Client
connected connect none = none
connected connect (some options) = some (connect options)

-- The services of NewHandler, at the times at which they are asked; `connect` is redis.NewClient.
unfoldable pub new_services : Config → Option Database → (ClientOptions → Client) → Clock → Services
new_services cfg pool connect clock =
    let repository = some (new_repository pool cfg) in
    record {
      search = some (search repository (connected connect (new_resolver cfg)) clock);
      daily_usage = some (daily_usage repository clock);
      leaderboard = some (top repository clock);
      self_lookup = some (self_lookup repository clock);
    }

-- NewHandler
unfoldable pub new_server :
    Platform → Config → Option Database → (ClientOptions → Client) → Clock → Server
new_server platform cfg pool connect clock = record {
  platform = platform;
  services = new_services cfg pool connect clock;
  account = configure_auth cfg.auth_username cfg.auth_password default_account;
}
