-- ===== src/Identity/Rows.antt =====
-- Writes to the rows of the identity tables, with the constraints of the models.
use ra_backend.Base.{
  none, some, String, Bool, false, not, ◌||◌, [], ◌∷◌, ◌++◌, ◌==◌, modify, exists,
}
use ra_backend.Models.{Role, User, UserSession, AuditLog}
use ra_backend.Core.World.{World, unique_violation, foreign_key_violation}
use ra_backend.Core.Exec.{Exec, write, query, violation, ◌>>=◌, ◌>>◌}

abbrev pub user_is : String → User → Bool
user_is id u = u.id == id

abbrev pub role_is : String → Role → Bool
role_is id r = r.id == id

abbrev pub session_is : String → UserSession → Bool
session_is id s = s.id == id

-- Attributes of one object are set and flushed.
abbrev pub set_user : String → (User → User) → Exec (Unit {0})
set_user id f = write (λ db. record db { users = modify (user_is id) f db.users })

abbrev pub set_session : String → (UserSession → UserSession) → Exec (Unit {0})
set_session id f = write (λ db. record db { sessions = modify (session_is id) f db.sessions })

abbrev pub set_role : String → (Role → Role) → Exec (Unit {0})
set_role id f = write (λ db. record db { roles = modify (role_is id) f db.roles })

module _ {T : Type 0} (w : World T) where
  -- `db.add(user)` and its flush: unique id and email, and the role must exist.
  unfoldable pub add_user : User → Exec (Unit {0})
  add_user u = do
    taken ← query (λ db. exists (λ (v : User). v.id == u.id || v.email == u.email) db.users)
    violation w taken unique_violation
    has_role ← query (λ db. exists (role_is u.role_id) db.roles)
    violation w (not has_role) foreign_key_violation
    write (λ db. record db { users = db.users ++ u ∷ [] })

  -- `db.add(session)`: unique id and refresh_jti, and the user must exist.
  unfoldable pub add_session : UserSession → Exec (Unit {0})
  add_session s = do
    taken ← query (λ db.
        exists (λ (t : UserSession). t.id == s.id || t.refresh_jti == s.refresh_jti) db.sessions)
    violation w taken unique_violation
    has_user ← query (λ db. exists (user_is s.user_id) db.users)
    violation w (not has_user) foreign_key_violation
    write (λ db. record db { sessions = db.sessions ++ s ∷ [] })

  -- `db.add(role)`: unique id.
  unfoldable pub add_role : Role → Exec (Unit {0})
  add_role r = do
    taken ← query (λ db. exists (role_is r.id) db.roles)
    violation w taken unique_violation
    write (λ db. record db { roles = db.roles ++ r ∷ [] })

  -- `db.add(entry)`: unique id, and the actor must exist where it is given.
  unfoldable pub add_audit : AuditLog → Exec (Unit {0})
  add_audit a = do
    taken ← query (λ db. exists (λ (b : AuditLog). b.id == a.id) db.audit_logs)
    violation w taken unique_violation
    missing ←
        query (λ db. elim a.actor_id [ none ↦ false | some i ↦ not (exists (user_is i) db.users) ])
    violation w missing foreign_key_violation
    write (λ db. record db { audit_logs = db.audit_logs ++ a ∷ [] })
