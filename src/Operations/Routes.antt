-- ===== src/Operations/Routes.antt =====
-- app/modules/operations/router.py: the handlers of what this service stores, behind their guards.
use ra_backend.Base.{String, Option, List, map}
use ra_backend.Base.Order.{order_by}
use ra_backend.Models.{Decoder}
use ra_backend.Core.World.{World}
use ra_backend.Core.Exec.{Exec, query, lift, pure, ◌>>=◌, ◌>>◌}
use ra_backend.Core.Rbac.{pipelines, settings, view, edit}
use ra_backend.Core.Deps.{guarded}
use ra_backend.Integrations.Airflow.{Http}
use ra_backend.Operations.Service
use ra_backend.Operations.Service.{
  ActionResult, RetryJob, DecoderUpsert, SystemConfigOut, SystemConfigUpdate,
}

pub record DecoderRow : Type 0 where
  pub id : String
  pub name : String
  pub version : String
  pub status : String
  pub throughput : Option String

unfoldable pub to_decoder_row : Decoder → DecoderRow
to_decoder_row d = record {
  id = d.id;
  name = d.name;
  version = d.version;
  status = d.status;
  throughput = d.throughput;
}

module _ {T : Type 0} (w : World T) (creds : Option T) where
  unfoldable pub retries : Exec (List RetryJob)
  retries = do guarded w pipelines view creds; Service.get_retries

  unfoldable pub ack_alert : String → Exec ActionResult
  ack_alert alert_id = do
    principal ← guarded w pipelines edit creds
    Service.acknowledge_alert alert_id principal.email

  unfoldable pub upsert_decoder : DecoderUpsert → Exec DecoderRow
  upsert_decoder payload = do
    guarded w settings edit creds
    dec ← Service.upsert_decoder payload
    pure (to_decoder_row dec)

  -- `list_decoders`, in the order of their names
  unfoldable pub list_decoders : Exec (List DecoderRow)
  unfolding to_decoder_row
  list_decoders = do
    guarded w settings view creds
    query (λ db.
        map to_decoder_row (order_by (λ (c d : Decoder). w.sql_before c.name d.name) db.decoders))

  unfoldable pub get_config : Exec SystemConfigOut
  get_config = do guarded w settings view creds; Service.get_system_config

  unfoldable pub update_config : SystemConfigUpdate → Exec SystemConfigOut
  update_config payload = do guarded w settings edit creds; Service.update_system_config payload

  -- The two triggers, where `http` is what httpx does.
  module _ (http : Http) (job_id : String) where
    unfoldable pub retry_route : Exec ActionResult
    retry_route = do guarded w pipelines edit creds; lift (Service.retry_job w.settings http job_id)

    unfoldable pub replay_route : Exec ActionResult
    replay_route = do
      guarded w pipelines edit creds
      lift (Service.replay_job w.settings http job_id)
