-- ===== src/Integrations/Airflow.antt =====
-- app/integrations/airflow.py. What httpx does is a parameter.
use ra_backend.Base.{ℕ, String, Bool, true, false, Option, [], ◌∷◌, beq, join}
use ra_backend.Base.Dict.{Dict}
use ra_backend.Core.Config.{Settings}
use ra_backend.Core.Errors.{PyError, app, upstream_unavailable, python}
use ra_backend.Core.World.{Outcome, returned, raised}
use ra_backend.Core.Exec.{Result, ok, err}
use ra_backend.Integrations.Clickhouse.Client.{params_or_empty}
use ra_backend.Models.Common.{Json}

-- Logical pipeline keys to Airflow DAG ids
abbrev pub dag_map : Dict String
dag_map =
    ("collection", "air_pipeline_dag")
    ∷ ("decoding", "air_pipeline_dag")
    ∷ ("validation", "air_processed_pipeline_dag")
    ∷ ("reconciliation", "air_recon_dag")
    ∷ ("reporting", "air_recon_dag")
    ∷ []

-- The arguments of `httpx.AsyncClient`; the timeout in seconds
pub record ClientArgs : Type 0 where
  pub base_url : String
  pub auth : String × String
  pub timeout : ℕ

unfoldable pub client_args : Settings → ClientArgs
client_args s = record {
  base_url = s.airflow_base_url;
  auth = (s.airflow_username, s.airflow_password);
  timeout = 10;
}

-- What a call of httpx does: it returns, or it raises an `httpx.HTTPError` with its text, or
-- another exception.
pub data Sent (A : Type 0) : Type 0 where
  done : A → Sent A
  http_error : String → Sent A
  failed : PyError → Sent A

-- A response: its status, `raise_for_status()`, and `json()`
pub record Reply : Type 0 where
  pub status_code : ℕ
  pub raise_for_status : Sent (Unit {0})
  pub json : Outcome Json

-- `client.post(path, json={"conf": conf})` and `client.get(path)`, with a client of the arguments
pub record Http : Type 0 where
  pub post : ClientArgs → String → Dict String → Sent Reply
  pub get : ClientArgs → String → Sent Reply

-- `resp.json()`, which raises no `httpx.HTTPError`
abbrev decoded : Outcome Json → Sent Json
decoded (returned j) = done j
decoded (raised e) = failed e

abbrev checked : Reply → Sent (Unit {0}) → Sent Json
checked r (done u) = decoded r.json
checked r (http_error text) = http_error text
checked r (failed e) = failed e

abbrev received : Sent Reply → Sent Json
received (done r) = checked r r.raise_for_status
received (http_error text) = http_error text
received (failed e) = failed e

-- The body of the `try` of `trigger_dag`
unfoldable pub exchange : Settings → Http → String → Option (Dict String) → Sent Json
unfolding client_args
exchange st http dag_id conf =
    received (
      http.post (client_args st) (join ("/dags/" ∷ dag_id ∷ "/dagRuns" ∷ []))
        (params_or_empty conf))

-- The `except httpx.HTTPError`; other exceptions go on.
abbrev answered : Sent Json → Result Json
answered (done j) = ok j
answered (http_error text) =
    err (app upstream_unavailable "Airflow trigger failed." (("reason", text) ∷ []))
answered (failed e) = err (python e)

abbrev pub trigger_if : Bool → Sent Json → Result Json
trigger_if false sent = err (app upstream_unavailable "Airflow integration is disabled." [])
trigger_if true sent = answered sent

unfoldable pub trigger_dag : Settings → Http → String → Option (Dict String) → Result Json
unfolding exchange
trigger_dag st http dag_id conf = trigger_if st.airflow_enabled (exchange st http dag_id conf)

abbrev healthy : Sent Reply → Result Bool
healthy (done r) = ok (beq r.status_code 200)
healthy (http_error text) = ok false
healthy (failed e) = err (python e)

abbrev ping_if : Bool → Sent Reply → Result Bool
ping_if false sent = ok false
ping_if true sent = healthy sent

unfoldable pub ping : Settings → Http → Result Bool
unfolding client_args
ping st http = ping_if st.airflow_enabled (http.get (client_args st) "/health")
