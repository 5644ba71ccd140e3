-- ===== src/System/Ledger.antt =====
-- The audit log over the runs of the service.
use ra_backend.Base.{◌≡◌, sym, ap, ◌∙◌, List, [], ◌∷◌, ◌++◌}
use mathlib.Core.List.{append-nil, append_assoc}
use ra_backend.Models.{Db, AuditLog}
use ra_backend.Core.World.{World}
use ra_backend.Core.Exec.{Tx}
use ra_backend.System.Stable.{IsStable}
use ra_backend.System.Runs.{Reach}
use ra_backend.System.Runs.Kept.{reach-keeps}

module _ (old : List AuditLog) where
  Extends : Db → Type 0
  Extends db = (more : List AuditLog) × (db.audit_logs ≡ old ++ more)

  Extends-IsStable : IsStable Extends
  unfolding Extends
  Extends-IsStable = record {
    users_added = λ db u fresh p. p;
    users_changed = λ db i f keeps p. p;
    users_renamed = λ db i email f keeps fresh p. p;
    sessions_added = λ db x fresh p. p;
    sessions_changed = λ db i f outlives p. p;
    roles_added = λ db r fresh p. p;
    roles_changed = λ db i f keeps p. p;
    audit_added =
        λ db a p. (p.0 ++ a ∷ [], ap (λ logs. logs ++ a ∷ []) p.1 ∙ append_assoc old p.0 (a ∷ []));
    others_changed = λ db db' roles users sessions logs p. (p.0, logs ∙ p.1);
  }

module _ {T : Type 0} (w : World T) where
  -- Over any run of requests and jobs the committed audit log only grows at its end: no handler
  -- changes, removes or reorders an entry.
  pub audit_log_is_append_only :
      (s t : Tx)
      → Reach w s t
      → (more : List AuditLog) × (t.committed.audit_logs ≡ s.committed.audit_logs ++ more)
  unfolding Extends
  audit_log_is_append_only s t reach =
      reach-keeps w (Extends s.committed.audit_logs) (Extends-IsStable s.committed.audit_logs) s t
        reach ([], sym (append-nil s.committed.audit_logs))
