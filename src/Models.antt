-- ===== src/Models.antt =====
-- The ORM models, one record for each table (app/modules/*/models.py), and the database as the
-- tables that the services own. Columns that the program never reads or writes in code that is
-- modelled here, such as `updated_at`, which the ORM maintains, are left out.
pub mod Common
mod Identity
mod Assurance
mod Operations
mod Reporting
pub use Identity.*
unfoldable pub use Identity.{is_active}
pub use Assurance.*
pub use Operations.*
pub use Reporting.*
use ra_backend.Base.{List}

pub record Db : Type 0 where
  pub roles : List Role
  pub users : List User
  pub sessions : List UserSession
  pub audit_logs : List AuditLog
  pub cases : List Case
  pub comments : List CaseComment
  pub saved_queries : List SavedQuery
  pub decoders : List Decoder
  pub configs : List SystemConfig
  pub alerts : List PipelineAlert
  pub reports : List Report
