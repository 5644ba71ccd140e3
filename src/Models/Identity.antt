-- ===== src/Models/Identity.antt =====
-- app/modules/identity/models.py
use ra_backend.Base.{String, ℕ, Bool, Option, ◌==◌}
use ra_backend.Base.Dict.{Dict}
use ra_backend.Base.Text.{lower}
use ra_backend.Models.Common.{Timestamp, Json}

-- {permission key: {action: allowed}}
abbrev pub PermissionMap : Type 0
PermissionMap = Dict (Dict Bool)

pub record Role : Type 0 where
  pub id : String
  pub name : String
  pub description : String
  pub status : String
  pub permissions : PermissionMap
  pub is_system : Bool
  pub created_at : Timestamp

pub record User : Type 0 where
  pub id : String
  pub full_name : String
  pub email : String
  pub phone : Option String
  pub department : Option String
  pub hashed_password : String
  pub role_id : String
  pub status : String
  pub avatar : Option String
  pub last_login : Option Timestamp
  pub failed_login_count : ℕ
  pub locked_until : Option Timestamp
  pub must_reset_password : Bool
  pub password_changed_at : Option Timestamp
  pub created_at : Timestamp

-- `User.is_active`
unfoldable pub is_active : User → Bool
is_active user = lower user.status == "active"

pub record UserSession : Type 0 where
  pub id : String
  pub user_id : String
  pub refresh_jti : String
  pub user_agent : Option String
  pub ip_address : Option String
  pub issued_at : Timestamp
  pub expires_at : Timestamp
  pub revoked_at : Option Timestamp
  pub last_seen_at : Option Timestamp

pub record AuditLog : Type 0 where
  pub id : String
  pub actor : String
  pub actor_id : Option String
  pub action : String
  pub target : Option String
  pub ip_address : Option String
  pub user_agent : Option String
  pub request_id : Option String
  pub meta : Json
  pub at : Timestamp
