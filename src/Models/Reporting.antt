-- ===== src/Models/Reporting.antt =====
-- app/modules/reporting/models.py
use ra_backend.Base.{String, ℕ, Option}
use ra_backend.Models.Common.{Timestamp, Json}

pub record Report : Type 0 where
  pub id : String
  pub reference : String
  pub name : String
  pub report_type : String
  pub period : Option String
  pub status : String
  pub size_bytes : Option ℕ
  pub file_path : Option String
  pub checksum_sha256 : Option String
  pub requested_by : Option String
  pub params : Json
  pub error : Option String
  pub completed_at : Option Timestamp
  pub created_at : Timestamp
