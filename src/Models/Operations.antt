-- ===== src/Models/Operations.antt =====
-- app/modules/operations/models.py
use ra_backend.Base.{String, ℕ, Bool, Option}
use ra_backend.Models.Common.{Timestamp, Json}

pub record Decoder : Type 0 where
  pub id : String
  pub name : String
  pub version : String
  pub status : String
  pub throughput : Option String
  pub config : Json

pub record SystemConfig : Type 0 where
  pub id : String
  pub environment : String
  pub retention_days : ℕ
  pub sla_minutes : ℕ
  pub alert_email : Option String
  pub maintenance_mode : Bool
  pub extra : Json

pub record PipelineAlert : Type 0 where
  pub id : String
  pub severity : String
  pub stage : String
  pub message : String
  pub status : String
  pub acknowledged_by : Option String
  pub created_at : Timestamp
