-- ===== src/Tests/Server.antt =====
-- internal/security, internal/postgres and cmd/viewer/main.go: the log, the services and the whole server, at
-- concrete answers.
use usage_viewer.Prelude.{false, [], ◌∷◌, none, some, ok, bytes, pos, All}
use usage_viewer.Config.{Config}
use usage_viewer.Concurrency.{Client, ClientOptions}
use usage_viewer.Security.{time_value}
use usage_viewer.HttpApi.Sessions.{new_store}
use usage_viewer.HttpApi.Messages.{HttpRequest, post}
use usage_viewer.HttpApi.Handlers.{Moment}
use usage_viewer.HttpApi.Router.{serve}
use usage_viewer.HttpApi.Contract.{Contract}
use usage_viewer.HttpApi.Contract.Presenting.{Presented}
use usage_viewer.Tests.Repositories.{store, midday}
use usage_viewer.Tests.Statements.{redis}
use usage_viewer.App.Lifecycle.{RunResult, logged_ready, logged_stopping}
use usage_viewer.App.Logging.{Allowed, run_with_lines, run_with_lines-Allowed}
use usage_viewer.App.Wiring.{new_services, new_server}
use usage_viewer.App.Wiring.Promises.{new_services-Contract, new_server-Presented}
use usage_viewer.Tests.Form.{plain_platform}

abbrev logged_run : RunResult
logged_run = record { actions = logged_ready ∷ logged_stopping ∷ []; failure = none }

run_with_lines-Allowed_example :
    All Allowed (run_with_lines (time_value (pos 5) (pos 3600)) false (ok logged_run))
run_with_lines-Allowed_example = run_with_lines-Allowed (pos 5) (pos 3600) false (ok logged_run)

abbrev cfg : Config
cfg = record {
  database_url = [];
  expected_database_role = [];
  data_dir = bytes "data";
  listen_address = bytes "127.0.0.1:8081";
  acknowledge_non_loopback = false;
  database_connect_timeout = pos 1000000000;
  database_acquire_timeout = pos 1000000000;
  database_query_timeout = pos 1000000000;
  database_pool_max_conns = pos 4;
  database_pool_min_conns = pos 0;
  database_max_conn_lifetime = pos 1000000000;
  database_max_conn_idle_time = pos 1000000000;
  database_health_check_period = pos 1000000000;
  maximum_query_range = pos 1000000000;
  http_read_header_timeout = pos 1000000000;
  http_read_timeout = pos 1000000000;
  http_write_timeout = pos 1000000000;
  http_idle_timeout = pos 1000000000;
  shutdown_timeout = pos 1000000000;
  redis_host = bytes "redis";
  redis_port = pos 6379;
  redis_password = [];
  redis_db = pos 0;
  auth_username = [];
  auth_password = [];
}

abbrev connect_redis : ClientOptions → Client
connect_redis options = redis

new_services-Contract_example : Contract (new_services cfg (some store) connect_redis midday)
new_services-Contract_example = new_services-Contract cfg (some store) connect_redis midday

abbrev lookup_request : HttpRequest
lookup_request = record {
  method = post;
  path = bytes "/api/self-lookup";
  host = bytes "viewer";
  origin = [];
  tls = false;
  forwarded_proto = [];
  content_type = bytes "application/json";
  cookie = none;
  body = bytes "build";
}

abbrev at_five : Moment
at_five = record { now = 5; random = none }

new_server-Presented_example :
    Presented
      (serve
        (new_server plain_platform cfg (some store) connect_redis midday)
        at_five
        lookup_request
        new_store).response.content
new_server-Presented_example =
    new_server-Presented plain_platform cfg (some store) connect_redis midday at_five lookup_request
      new_store
