-- ===== src/Operations/Laws.antt =====
-- What holds of the stored settings and of the triggers.
use ra_backend.Base.{
  ◌≢◌, some, Option, String, Bool, true, false, List, [], ◌∷◌, ◌++◌, ◌≡◌, refl, inl, inr, ◌⊎◌, ◌∙◌,
  select, modify, select-append, select-modify_found, eq_refl,
}
use ra_backend.Models.{SystemConfig}
use ra_backend.Base.Dict.{Dict}
use ra_backend.Models.Common.{Json}
use ra_backend.Core.Config.{Settings}
use ra_backend.Core.Errors.{PyError}
use ra_backend.Integrations.Airflow.{
  Http, Sent, done, http_error, failed, exchange, trigger_if, trigger_dag,
}
use ra_backend.Core.Exec.{Tx, Result, ok}
use ra_backend.Operations.Service.{
  ActionResult, answered, trigger, retry_job, replay_job, config_is, default_config,
  get_or_create_config, to_config_out, SystemConfigUpdate, configure, update_system_config,
  get_system_config,
}

-- The rows of the configuration table, of which there is one at most.
abbrev pub config_rows : Tx → List SystemConfig
config_rows s = select (config_is "system") s.current.configs

-- How a trigger is answered.
abbrev pub IsSuccess : Result ActionResult → Type 0
IsSuccess r = (a : ActionResult) × (r ≡ ok a) × (a.success ≡ true)

-- The calls of httpx for a DAG raise nothing but an `httpx.HTTPError`, and what is answered is JSON.
abbrev pub IsForeseen : Settings → Http → String → Type 0
IsForeseen st http dag_id =
    (conf : Option (Dict String)) (e : PyError) → exchange st http dag_id conf ≢ failed e

answered_succeeds :
    (enabled : Bool) (sent : Sent Json) (dag_id job_id action : String)
    → ((e : PyError) → sent ≢ failed e)
    → IsSuccess (answered dag_id job_id action (trigger_if enabled sent))
answered_succeeds false sent dag_id job_id action fine = (_, refl, refl)
answered_succeeds true (done j) dag_id job_id action fine = (_, refl, refl)
answered_succeeds true (http_error text) dag_id job_id action fine = (_, refl, refl)
answered_succeeds true (failed e) dag_id job_id action fine = absurd (fine e refl)

trigger_succeeds :
    (st : Settings) (http : Http) (dag_id job_id action : String)
    → IsForeseen st http dag_id
    → IsSuccess (trigger st http dag_id job_id action)
unfolding trigger trigger_dag
trigger_succeeds st http dag_id job_id action fine =
    answered_succeeds st.airflow_enabled (exchange st http dag_id conf) dag_id job_id action
      (fine conf)
  where
    conf : Option (Dict String)
    conf = some (("job_id", job_id) ∷ ("action", action) ∷ [])

-- Where the calls of httpx raise nothing but an httpx.HTTPError and what Airflow answers is JSON, a
-- retry and a replay of a job are answered with success whether Airflow is disabled, accepts the
-- trigger, or fails.
pub trigger_always_succeeds :
    (st : Settings) (http : Http) (job_id : String)
    → IsForeseen st http "air_recon_dag"
    → IsForeseen st http "air_pipeline_dag"
    → IsSuccess (retry_job st http job_id) × IsSuccess (replay_job st http job_id)
unfolding retry_job replay_job
trigger_always_succeeds st http job_id recon pipeline = (
  trigger_succeeds st http "air_recon_dag" job_id "retry" recon,
  trigger_succeeds st http "air_pipeline_dag" job_id "replay" pipeline,
)

config_found :
    (s : Tx) (c : SystemConfig) → config_rows s ≡ c ∷ [] → get_or_create_config s ≡ (ok c, s)
unfolding get_or_create_config
config_found s c found = rw found refl

abbrev created : Tx → Tx
created s = record s {
  current = record s.current { configs = s.current.configs ++ default_config ∷ [] };
}

created_row : (s : Tx) → config_rows s ≡ [] → config_rows (created s) ≡ default_config ∷ []
created_row s absent =
    select-append (config_is "system") s.current.configs (default_config ∷ []) ∙ rw absent refl

module _ (p : SystemConfigUpdate) where
  -- The state after an update of the configuration `c`.
  configured : Tx → SystemConfig → Tx
  configured s c = record s {
    current = record s.current {
      configs = modify (config_is c.id) (configure p) s.current.configs;
    };
  }

  configured_row :
      (s : Tx) (c : SystemConfig)
      → config_rows s ≡ c ∷ []
      → config_rows (configured s c) ≡ configure p c ∷ []
  unfolding configured
  configured_row s c found =
      select-modify_found (config_is "system") (config_is c.id) (configure p) c s.current.configs
        (λ d. refl) (eq_refl c.id) found

  read_configured :
      (s : Tx) (c : SystemConfig)
      → config_rows s ≡ c ∷ []
      → get_system_config (configured s c) ≡ (ok (to_config_out (configure p c)), configured s c)
  unfolding get_system_config
  read_configured s c found =
      rw (config_found (configured s c) (configure p c) (configured_row s c found)) refl

  update_found :
      (s : Tx) (c : SystemConfig)
      → config_rows s ≡ c ∷ []
      → update_system_config p s ≡ (ok (to_config_out (configure p c)), configured s c)
  unfolding update_system_config configured
  update_found s c found = rw (config_found s c found, read_configured s c found) refl

  update_created :
      (s : Tx)
      → config_rows s ≡ []
      → update_system_config p s
        ≡ (ok (to_config_out (configure p default_config)), configured (created s) default_config)
  unfolding update_system_config get_or_create_config configured
  update_created s absent =
      rw (absent, read_configured (created s) default_config (created_row s absent)) refl

  -- An update of the system configuration that is in force, the one stored row or the defaults
  -- where there is none, answers with it under the given values, stores it as the one row, and a
  -- further read answers the same and changes nothing.
  update_config_is_read :
      (s : Tx) (c : SystemConfig)
      → config_rows s ≡ c ∷ [] ⊎ (config_rows s ≡ []) × (c ≡ default_config)
      → let (r, s') = update_system_config p s in
        (r ≡ ok (to_config_out (configure p c)))
        × (config_rows s' ≡ configure p c ∷ [])
        × (get_system_config s' ≡ (ok (to_config_out (configure p c)), s'))
  update_config_is_read s c (inl found) =
      rw (update_found s c found) (refl, configured_row s c found, read_configured s c found)
  update_config_is_read s c (inr (absent, same)) =
      rw (same, update_created s absent)
        (
          refl,
          configured_row (created s) default_config (created_row s absent),
          read_configured (created s) default_config (created_row s absent),
        )
