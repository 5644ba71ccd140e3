-- ===== src/Operations/Service.antt =====
-- app/modules/operations/service.py and schemas.py: what is stored by this service, and the triggers
-- of Airflow.
use ra_backend.Base.{
  String, ℕ, Bool, true, false, Option, none, some, List, [], ◌∷◌, ◌++◌, ◌==◌, select, modify, map,
  join,
}
use ra_backend.Models.{Decoder, SystemConfig, PipelineAlert}
use ra_backend.Models.Common.{Json}
use ra_backend.Core.Errors.{app, not_found, upstream_unavailable}
use ra_backend.Core.Config.{Settings}
use ra_backend.Integrations.Airflow.{Http, trigger_dag}
use ra_backend.Core.Exec.{
  Exec, Result, ok, err, pure, or_raise, query, write, scalar_one_or_none, ◌>>=◌, ◌>>◌,
}

pub record ActionResult : Type 0 where
  pub success : Bool
  pub detail : Option String

abbrev pub alert_is : String → PipelineAlert → Bool
alert_is id a = a.id == id

abbrev pub acknowledge : String → PipelineAlert → PipelineAlert
acknowledge actor a = record a { status = "Acknowledged"; acknowledged_by = some actor }

unfoldable pub acknowledge_alert : String → String → Exec ActionResult
acknowledge_alert alert_id actor = do
  rows ← query (λ db. select (alert_is alert_id) db.alerts)
  found ← scalar_one_or_none rows
  alert ← or_raise found (app not_found "Alert not found." [])
  write (λ db. record db { alerts = modify (alert_is alert.id) (acknowledge actor) db.alerts })
  pure (record {
    success = true;
    detail = some (join ("Alert " ∷ alert_id ∷ " acknowledged." ∷ []));
  })

pub record RetryJob : Type 0 where
  pub id : String
  pub batch : String
  pub stage : String
  pub error : String
  pub retry_count : ℕ

abbrev pub is_open : PipelineAlert → Bool
is_open a = a.status == "Open"

abbrev pub candidate : PipelineAlert → RetryJob
candidate a = record { id = a.id; batch = "—"; stage = a.stage; error = a.message; retry_count = 0 }

abbrev pub sample_job : RetryJob
sample_job = record {
  id = "JOB-7781";
  batch = "BATCH-441C";
  stage = "Reconciliation";
  error = "Mismatch threshold exceeded (3.4%)";
  retry_count = 1;
}

-- `if alerts: … ; return [...]`
abbrev pub or_sample : List PipelineAlert → List RetryJob
or_sample [] = sample_job ∷ []
or_sample (a ∷ r) = map candidate (a ∷ r)

unfoldable pub get_retries : Exec (List RetryJob)
get_retries = do alerts ← query (λ db. select is_open db.alerts); pure (or_sample alerts)

-- The `except UpstreamUnavailableError` of `_trigger`
abbrev pub answered : String → String → String → Result Json → Result ActionResult
answered dag_id job_id action (ok reply) = ok (record {
  success = true;
  detail = some (join ("Triggered " ∷ dag_id ∷ " for " ∷ job_id ∷ "." ∷ []));
})
answered dag_id job_id action (err (app upstream_unavailable message d)) = ok (record {
  success = true;
  detail =
      some (join ("Queued " ∷ action ∷ " for " ∷ job_id ∷ " (Airflow integration disabled)." ∷ []));
})
answered dag_id job_id action (err e) = err e

-- `_trigger`
unfoldable pub trigger : Settings → Http → String → String → String → Result ActionResult
unfolding trigger_dag
trigger st http dag_id job_id action =
    answered dag_id job_id action
      (trigger_dag st http dag_id (some (("job_id", job_id) ∷ ("action", action) ∷ [])))

module _ (st : Settings) (http : Http) (job_id : String) where
  unfoldable pub retry_job : Result ActionResult
  unfolding trigger
  retry_job = trigger st http "air_recon_dag" job_id "retry"

  unfoldable pub replay_job : Result ActionResult
  unfolding trigger
  replay_job = trigger st http "air_pipeline_dag" job_id "replay"

pub record DecoderUpsert : Type 0 where
  pub id : String
  pub name : String
  pub version : String
  pub status : String
  pub throughput : Option String
  pub config : Option Json

abbrev pub decoder_is : String → Decoder → Bool
decoder_is id d = d.id == id

-- `if payload.config is not None`
abbrev pub or_config : Option Json → Json → Json
or_config none old = old
or_config (some new) old = new

abbrev pub rewrite_decoder : DecoderUpsert → Decoder → Decoder
rewrite_decoder p d = record d {
  name = p.name;
  version = p.version;
  status = p.status;
  throughput = p.throughput;
  config = or_config p.config d.config;
}

-- `Decoder(id=payload.id)` with its attributes set, and the default of `config`
abbrev pub new_decoder : DecoderUpsert → Decoder
new_decoder p = record {
  id = p.id;
  name = p.name;
  version = p.version;
  status = p.status;
  throughput = p.throughput;
  config = or_config p.config "{}";
}

unfoldable pub save_decoder : DecoderUpsert → Option Decoder → Exec Decoder
save_decoder p none = do
  write (λ db. record db { decoders = db.decoders ++ new_decoder p ∷ [] })
  pure (new_decoder p)
save_decoder p (some d) = do
  write (λ db. record db { decoders = modify (decoder_is d.id) (rewrite_decoder p) db.decoders })
  pure (rewrite_decoder p d)

-- The row is inserted only when the query found none, so its key is free.
unfoldable pub upsert_decoder : DecoderUpsert → Exec Decoder
unfolding save_decoder
upsert_decoder p = do
  rows ← query (λ db. select (decoder_is p.id) db.decoders)
  found ← scalar_one_or_none rows
  save_decoder p found

abbrev pub config_is : String → SystemConfig → Bool
config_is id c = c.id == id

-- `SystemConfig(id="system")` with the columns' defaults
abbrev pub default_config : SystemConfig
default_config = record {
  id = "system";
  environment = "production";
  retention_days = 365;
  sla_minutes = 15;
  alert_email = none;
  maintenance_mode = false;
  extra = "{}";
}

unfoldable pub found_or_create : Option SystemConfig → Exec SystemConfig
found_or_create (some c) = pure c
found_or_create none = do
  write (λ db. record db { configs = db.configs ++ default_config ∷ [] })
  pure default_config

unfoldable pub get_or_create_config : Exec SystemConfig
unfolding found_or_create
get_or_create_config = do
  rows ← query (λ db. select (config_is "system") db.configs)
  found ← scalar_one_or_none rows
  found_or_create found

pub record SystemConfigOut : Type 0 where
  pub environment : String
  pub retention_days : ℕ
  pub sla_minutes : ℕ
  pub alert_email : Option String
  pub maintenance_mode : Bool

abbrev pub to_config_out : SystemConfig → SystemConfigOut
to_config_out c = record {
  environment = c.environment;
  retention_days = c.retention_days;
  sla_minutes = c.sla_minutes;
  alert_email = c.alert_email;
  maintenance_mode = c.maintenance_mode;
}

unfoldable pub get_system_config : Exec SystemConfigOut
unfolding get_or_create_config
get_system_config = do cfg ← get_or_create_config; pure (to_config_out cfg)

pub record SystemConfigUpdate : Type 0 where
  pub environment : Option String
  pub retention_days : Option ℕ
  pub sla_minutes : Option ℕ
  pub alert_email : Option String
  pub maintenance_mode : Option Bool

-- `if value is not None: attribute = value`
abbrev pub or_current : {A : Type 0} → Option A → A → A
or_current none old = old
or_current (some new) old = new

abbrev pub set_email : Option String → Option String → Option String
set_email none old = old
set_email (some new) old = some new

abbrev pub configure : SystemConfigUpdate → SystemConfig → SystemConfig
configure p c = record c {
  environment = or_current p.environment c.environment;
  retention_days = or_current p.retention_days c.retention_days;
  sla_minutes = or_current p.sla_minutes c.sla_minutes;
  alert_email = set_email p.alert_email c.alert_email;
  maintenance_mode = or_current p.maintenance_mode c.maintenance_mode;
}

unfoldable pub update_system_config : SystemConfigUpdate → Exec SystemConfigOut
unfolding get_or_create_config get_system_config
update_system_config p = do
  cfg ← get_or_create_config
  write (λ db. record db { configs = modify (config_is cfg.id) (configure p) db.configs })
  get_system_config
