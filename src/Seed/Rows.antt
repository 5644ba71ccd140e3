-- ===== src/Seed/Rows.antt =====
-- app/seed.py: the rows that a first run stores.
use ra_backend.Base.{String, false, none, some, List, [], ◌∷◌}
use ra_backend.Models.{Decoder, SystemConfig, PipelineAlert}
use ra_backend.Core.Rbac.{RoleSlug, admin, ra_lead, analyst, viewer}

pub record SeedUser : Type 0 where
  pub full_name : String
  pub email : String
  pub phone : String
  pub department : String
  pub role : RoleSlug
  pub status : String

-- `_ROLES`: slug, description, status
abbrev pub seed_roles : List (RoleSlug × String × String)
seed_roles =
    (admin, "Full platform access including user and role management.", "Active")
    ∷ (ra_lead, "Oversees assurance operations, pipelines, reports and cases.", "Active")
    ∷ (analyst, "Investigates leakage cases and works the assurance workbench.", "Active")
    ∷ (viewer, "Read-only access to dashboards, reports and pipelines.", "Active")
    ∷ []

-- `_USERS`
abbrev pub seed_users : List SeedUser
seed_users =
    record {
      full_name = "Daniel Okafor";
      email = "admin@radonaix.io";
      phone = "+1 415 555 0100";
      department = "Platform Ops";
      role = admin;
      status = "Active";
    }
    ∷ record {
      full_name = "Aarav Mehta";
      email = "aarav.mehta@radonaix.io";
      phone = "+91 98765 43210";
      department = "Finance Operations";
      role = ra_lead;
      status = "Active";
    }
    ∷ record {
      full_name = "Priya Shah";
      email = "priya.shah@radonaix.io";
      phone = "+91 99887 12345";
      department = "Assurance";
      role = analyst;
      status = "Active";
    }
    ∷ record {
      full_name = "Mei Tanaka";
      email = "viewer@radonaix.io";
      phone = "+81 90 1234 5678";
      department = "Compliance";
      role = viewer;
      status = "Active";
    }
    ∷ record {
      full_name = "Liam O'Connor";
      email = "liam.o@radonaix.io";
      phone = "+353 87 555 1212";
      department = "Engineering";
      role = analyst;
      status = "Disabled";
    }
    ∷ []

-- `_DECODERS`
abbrev decoder_of : String → String → String → String → String → Decoder
decoder_of id name version status throughput = record {
  id = id;
  name = name;
  version = version;
  status = status;
  throughput = some throughput;
  config = "{}";
}

abbrev pub seed_decoders : List Decoder
seed_decoders =
    decoder_of "DEC-ASN1-v3" "ASN.1 CDR Decoder" "3.2.1" "Enabled" "12k/s"
    ∷ decoder_of "DEC-JSON-v2" "JSON Event Decoder" "2.5.0" "Enabled" "28k/s"
    ∷ decoder_of "DEC-CSV-v1" "Legacy CSV Decoder" "1.8.4" "Disabled" "—"
    ∷ []

-- `_ALERTS`; the time is set when the row is added.
abbrev alert_of : String → String → String → String → String → PipelineAlert
alert_of id severity stage message status = record {
  id = id;
  severity = severity;
  stage = stage;
  message = message;
  status = status;
  acknowledged_by = none;
  created_at = 0;
}

abbrev pub seed_alerts : List PipelineAlert
seed_alerts =
    alert_of "ALT-2231" "high" "Validation" "Schema drift on field call_duration" "Open"
    ∷ alert_of "ALT-2230" "medium" "Reconciliation" "Latency above SLA (18m vs 15m)" "Acknowledged"
    ∷ alert_of "ALT-2229" "low" "Decoding" "Throughput degraded 4% on DEC-ASN1-v3" "Open"
    ∷ alert_of "ALT-2228" "critical" "File Collection" "Source MSC-EU-3 unreachable" "Open"
    ∷ []

abbrev pub seed_config : SystemConfig
seed_config = record {
  id = "system";
  environment = "production";
  retention_days = 365;
  sla_minutes = 15;
  alert_email = some "ops-alerts@radonaix.io";
  maintenance_mode = false;
  extra = "{}";
}
