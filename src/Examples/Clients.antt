-- ===== src/Examples/Clients.antt =====
-- The clients of other systems, the middleware, and the figures, on concrete inputs.
use ra_backend.Base.{ℕ, ◌*◌, ◌+◌, ◌≤◌, true, none, some, List, [], ◌∷◌, ◌≡◌, ◌⊎◌, refl, arith}
use ra_backend.Core.Config.{default_settings}
use ra_backend.Core.Errors.{PyError, python}
use ra_backend.Core.World.{returned, raised}
use ra_backend.Core.Exec.{err}
use ra_backend.Core.Logging.{Vars}
use ra_backend.Core.Middleware.Dispatch.{Request, End, responded, Site, Timing, entered, dispatch}
use ra_backend.Core.Middleware.Laws.{
  IsAccounted, IsLogged, inner, dispatch-IsAccounted, dispatch-IsLogged,
}
use ra_backend.Core.Redis as Redis
use ra_backend.Integrations.Airflow as Airflow
use ra_backend.Integrations.Airflow.{Http}
use ra_backend.Integrations.Held.{Slot, IsBalanced}
use ra_backend.Integrations.Clickhouse as Spec
use ra_backend.Integrations.Clickhouse.Client as Clickhouse
use ra_backend.Integrations.Clickhouse.Client.{connect_args, get_client, close_clickhouse, query}
use ra_backend.Integrations.Clickhouse.Pool.{
  Call, queries, pings, closes, run, attempt, IsLeft, run-IsBalanced, query_refines,
}
use ra_backend.Integrations.RaPostgres as RaPostgres
use ra_backend.Integrations.Shutdown.{Process, Drivers, close_all_integrations, lifespan_end}
use ra_backend.Integrations.Shutdown.Laws.{IsReleased, shutdown_releases, failed_close_keeps_all}
use ra_backend.Assurance.Summary.{match_rate}
use ra_backend.Assurance.Summary.Rates.{match_rate_is_near}
use ra_backend.Meta.{Clients, Probes, readiness}
use ra_backend.Meta.Laws.{failed_close_hides_readiness}

-- A client is its number. It answers one row, or fails to answer.
abbrev a_driver : Clickhouse.Driver ℕ ℕ
a_driver = record {
  connect = λ args. returned 7;
  run = λ c sql params.
      returned
        (record { column_names = "total" ∷ "matched" ∷ []; result_rows = (10 ∷ 9 ∷ []) ∷ [] });
  command = λ c sql. returned tt;
  close = λ c. returned tt;
  exc_text = λ e. "gone";
}

abbrev broken_driver : Clickhouse.Driver ℕ ℕ
broken_driver = record a_driver { run = λ c sql params. raised PyError.other_error }

abbrev no_client : Slot ℕ
no_client = record { held = none; made = 0; closed = 0 }

abbrev some_calls : List (Call ℕ ℕ)
some_calls =
    queries a_driver "SELECT 1" none
    ∷ queries broken_driver "SELECT 2" none
    ∷ pings a_driver
    ∷ closes broken_driver
    ∷ []

run-IsBalanced_example : IsBalanced (run default_settings no_client some_calls)
run-IsBalanced_example = run-IsBalanced default_settings no_client some_calls refl

query_refines_example :
    ((query default_settings broken_driver "SELECT 1" none no_client).0
      ≡ Spec.query true
          (λ e. "gone")
          (attempt broken_driver (connect_args default_settings) none "SELECT 1" none))
    × IsLeft true
        (query default_settings broken_driver "SELECT 1" none no_client).0
        no_client
        (query default_settings broken_driver "SELECT 1" none no_client).1
query_refines_example =
    query_refines default_settings broken_driver "SELECT 1" none no_client (λ c. refl)

abbrev a_cache : Redis.Driver ℕ ℕ
a_cache = record {
  from_url = λ args. returned 1;
  get = λ c key. returned none;
  set = λ c key value ttl. returned tt;
  aclose = λ c. returned tt;
  loads = λ raw. returned 0;
  dumps = λ value. returned "0";
}

abbrev an_engine : RaPostgres.Driver ℕ ℕ
an_engine = record {
  create = λ args. returned 2;
  run = λ c sql params. returned [];
  dispose = λ c. returned tt;
  exc_text = λ e. "gone";
}

abbrev holding : ℕ → Slot ℕ
holding c = record { held = some c; made = 1; closed = 0 }

abbrev a_process : Process ℕ ℕ ℕ
a_process = record {
  redis = holding 1;
  ra_postgres = holding 2;
  clickhouse = holding 7;
  engine_in_use = true;
  log = "startup" ∷ [];
}

abbrev some_drivers : Drivers ℕ ℕ ℕ ℕ ℕ
some_drivers = record {
  redis = a_cache;
  ra_postgres = an_engine;
  clickhouse = record a_driver { close = λ c. raised PyError.other_error };
  dispose = returned tt;
}

shutdown_releases_example :
    IsReleased (close_all_integrations default_settings some_drivers a_process).1
shutdown_releases_example =
    shutdown_releases default_settings some_drivers a_process
      (record { redis = λ r. refl; ra_postgres = λ p. refl })

abbrev stuck_drivers : Drivers ℕ ℕ ℕ ℕ ℕ
stuck_drivers = record some_drivers {
  redis = record a_cache { aclose = λ c. raised PyError.other_error };
}

failed_close_keeps_all_example :
    lifespan_end default_settings stuck_drivers a_process
    ≡ (err (python PyError.other_error), a_process)
failed_close_keeps_all_example =
    failed_close_keeps_all default_settings stuck_drivers a_process 1 PyError.other_error refl refl

abbrev no_vars : Vars
no_vars = record { request_id = none; client_ip = none; user_agent = none }

abbrev a_site : Site
a_site = record { vars = no_vars; counted = []; observed = []; level = 20; log = [] }

abbrev a_get : Request
a_get = record {
  method = "GET";
  url_path = "/api/users/1";
  route_path = none;
  x_request_id = none;
  x_forwarded_for = some "10.0.0.7, 172.16.0.1";
  user_agent = some "curl";
  client_host = some "172.16.0.1";
}

abbrev an_app : Site → End × Site
an_app s = (responded (record { status_code = 200; headers = [] }), s)

abbrev a_timing : Timing
a_timing = record { elapsed = 1; duration_ms = 2 }

dispatch-IsAccounted_example :
    ((dispatch an_app a_timing "hex-1" a_get a_site).1.vars ≡ no_vars)
    × IsAccounted a_timing "hex-1" a_get
        (inner an_app a_timing "hex-1" a_get a_site)
        (dispatch an_app a_timing "hex-1" a_get a_site)
dispatch-IsAccounted_example = dispatch-IsAccounted an_app a_timing "hex-1" a_get a_site

dispatch-IsLogged_example :
    IsLogged "hex-1"
      (inner an_app a_timing "hex-1" a_get a_site)
      (dispatch an_app a_timing "hex-1" a_get a_site).1
unfolding inner entered
dispatch-IsLogged_example =
    dispatch-IsLogged an_app a_timing "hex-1" a_get a_site refl refl refl (omega arith)

match_rate_is_near_example :
    (match_rate 9994 10000 ≤ 10000)
    × ((◌≡◌ {A = ℕ} 10000 0) ⊎ (◌≡◌ {A = ℕ} 9994 10000) → match_rate 9994 10000 ≡ 10000)
    × (match_rate 9994 10000 * 10000 ≤ 10000 * 9994 + 10000)
    × (10000 * 9994 ≤ match_rate 9994 10000 * 10000 + 10000)
match_rate_is_near_example = match_rate_is_near 9994 10000 (omega arith)

abbrev an_http : Http
an_http = record {
  post = λ args path conf. Airflow.http_error "timeout";
  get = λ args path. Airflow.http_error "timeout";
}

abbrev some_probes : Probes ℕ ℕ ℕ
some_probes = record {
  app_db = returned tt;
  clickhouse = record a_driver { command = λ c sql. raised PyError.other_error };
  ra_postgres = an_engine;
  http = an_http;
}

abbrev some_clients : Clients ℕ ℕ
some_clients = record { clickhouse = holding 7; ra_postgres = no_client }

abbrev stuck_probes : Probes ℕ ℕ ℕ
stuck_probes = record some_probes {
  clickhouse = record some_probes.clickhouse { close = λ c. raised PyError.value_error };
}

failed_close_hides_readiness_example :
    (readiness default_settings stuck_probes some_clients).0 ≡ err (python PyError.value_error)
failed_close_hides_readiness_example =
    failed_close_hides_readiness default_settings stuck_probes some_clients 7 PyError.other_error
      PyError.value_error refl refl refl refl
