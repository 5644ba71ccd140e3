-- ===== src/System/Sessions.antt =====
-- Tokens, sessions and the audit log under an invariant of the identity tables.
use ra_backend.Base.{arith, refl, inl, inr, String, Option}
use ra_backend.Models.{Db, User, UserSession}
use ra_backend.Models.Common.{Timestamp}
use ra_backend.Core.World.{World}
use ra_backend.Core.Holds.{Holds, Keeps, keeps_rules}
use ra_backend.Core.Deps.{get_current_principal, guarded, require}
use ra_backend.Core.Rbac.{PermKey, PermAction}
use ra_backend.Identity.Rows.{add_session}
use ra_backend.Identity.Audit.{Context, Entry, record_audit}
use ra_backend.Identity.Sessions.{rotate, revoke, issue_session, revoke_session, refresh_session}
use ra_backend.System.Stable.{IsStable, Outlives}

Outlives-revoke : (now : Timestamp) (x : UserSession) → Outlives x (revoke now x)
Outlives-revoke now x = (refl, inr (now, refl))

module _ {T : Type 0} (w : World T) where
  Outlives-rotate :
      (jti : String) (now : Timestamp) (ua ip : Option String) (x : UserSession)
      → Outlives x (rotate w jti now ua ip x)
  Outlives-rotate jti now ua ip x = (refl, inl refl)

module _ {T : Type 0} (w : World T) (P : Db → Type 0) where
  pub get_current_principal-Keeps : (creds : Option T) → Keeps P (get_current_principal w creds)
  unfolding get_current_principal
  get_current_principal-Keeps creds = record { at = λ s h. ground arith }

  pub guarded-Keeps :
      (key : PermKey) (action : PermAction) (creds : Option T)
      → Keeps P (guarded w key action creds)
  unfolding guarded require
  guarded-Keeps key action creds =
      search (keeps_rules, get_current_principal-Keeps) depth 20 fits 2000

module _ {T : Type 0} (w : World T) (P : Db → Type 0) (stable : IsStable P) where
  pub add_session-Keeps : (x : UserSession) → Keeps P (add_session w x)
  unfolding add_session
  add_session-Keeps x = record { at = λ s h. ground (arith, stable.sessions_added s.current x) }

  pub record_audit-Keeps : (ctx : Context) (e : Entry) → Keeps P (record_audit w ctx e)
  unfolding record_audit
  record_audit-Keeps ctx e = record { at = λ s h. grind (arith, stable.audit_added) }

  pub issue_session-Keeps :
      (user : User) (ua ip : Option String) → Keeps P (issue_session w user ua ip)
  unfolding issue_session
  issue_session-Keeps user ua ip = record { at = λ s h. grind (arith, stable.sessions_added) }

  pub revoke_session-Keeps : (sid : Option String) → Keeps P (revoke_session w sid)
  unfolding revoke_session
  revoke_session-Keeps sid = record {
    at = λ s h. grind (arith, stable.sessions_changed, Outlives-revoke);
  }

  pub refresh_session-Keeps :
      (token : T) (ua ip : Option String) → Keeps P (refresh_session w token ua ip)
  unfolding refresh_session
  refresh_session-Keeps token ua ip = record {
    at = λ s h. grind (arith, stable.sessions_changed, Outlives-revoke, Outlives-rotate w);
  }

  pub ruleset session_rules = (
    keeps_rules, record_audit-Keeps, issue_session-Keeps, revoke_session-Keeps,
    refresh_session-Keeps, get_current_principal-Keeps, guarded-Keeps,
  )
