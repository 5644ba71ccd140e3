-- ===== src/System/Stable.antt =====
-- What an invariant of the identity tables has to withstand: one law for each kind of write that
-- the services make, with what the service has checked before it.
use ra_backend.Base.{
  ◌≡◌, ◌⊎◌, String, false, not, ◌&&◌, ◌||◌, [], ◌∷◌, ◌++◌, ◌==◌, some, modify, exists,
}
use ra_backend.Models.{Db, Role, User, UserSession, AuditLog}
use ra_backend.Models.Common.{Timestamp}
use ra_backend.Identity.Rows.{user_is, role_is, session_is}

-- A session keeps its key, and its revocation is as before or is set.
abbrev pub Outlives : UserSession → UserSession → Type 0
Outlives x y =
    (y.id ≡ x.id) × ((y.revoked_at ≡ x.revoked_at) ⊎ ((t : Timestamp) × (y.revoked_at ≡ some t)))

pub record IsStable (P : Db → Type 0) : Type 0 where
  pub users_added :
      (db : Db) (u : User)
      → exists (λ (v : User). v.id == u.id || v.email == u.email) db.users ≡ false
      → P db
      → P (record db { users = db.users ++ u ∷ [] })
  pub users_changed :
      (db : Db) (id : String) (f : User → User)
      → ((u : User) → ((f u).id ≡ u.id) × ((f u).email ≡ u.email))
      → P db
      → P (record db { users = modify (user_is id) f db.users })
  pub users_renamed :
      (db : Db) (id email : String) (f : User → User)
      → ((u : User) → ((f u).id ≡ u.id) × ((f u).email ≡ email))
      → exists (λ (u : User). not (u.id == id) && u.email == email) db.users ≡ false
      → P db
      → P (record db { users = modify (user_is id) f db.users })
  pub sessions_added :
      (db : Db) (x : UserSession)
      → exists (λ (t : UserSession). t.id == x.id || t.refresh_jti == x.refresh_jti) db.sessions
        ≡ false
      → P db
      → P (record db { sessions = db.sessions ++ x ∷ [] })
  pub sessions_changed :
      (db : Db) (id : String) (f : UserSession → UserSession)
      → ((x : UserSession) → Outlives x (f x))
      → P db
      → P (record db { sessions = modify (session_is id) f db.sessions })
  pub roles_added :
      (db : Db) (r : Role)
      → exists (role_is r.id) db.roles ≡ false
      → P db
      → P (record db { roles = db.roles ++ r ∷ [] })
  pub roles_changed :
      (db : Db) (id : String) (f : Role → Role)
      → ((r : Role) → (f r).id ≡ r.id)
      → P db
      → P (record db { roles = modify (role_is id) f db.roles })
  pub audit_added :
      (db : Db) (a : AuditLog) → P db → P (record db { audit_logs = db.audit_logs ++ a ∷ [] })
  pub others_changed :
      (db db' : Db)
      → db'.roles ≡ db.roles
      → db'.users ≡ db.users
      → db'.sessions ≡ db.sessions
      → db'.audit_logs ≡ db.audit_logs
      → P db
      → P db'
