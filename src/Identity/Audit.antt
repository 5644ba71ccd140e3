-- ===== src/Identity/Audit.antt =====
-- app/modules/identity/service.py, the audit log; the context is what the middleware captured
-- (app/core/logging.py).
use ra_backend.Base.{String, Option}
use ra_backend.Core.World.{World}
use ra_backend.Core.Exec.{Exec, draw, ◌>>=◌}
use ra_backend.Identity.Rows.{add_audit}

-- The context variables of a request.
pub record Context : Type 0 where
  pub client_ip : Option String
  pub user_agent : Option String
  pub request_id : Option String

-- The keyword arguments of `record_audit`; `meta` is given by no caller.
pub record Entry : Type 0 where
  pub actor : String
  pub action : String
  pub target : Option String
  pub actor_id : Option String

unfoldable pub record_audit : {T : Type 0} → World T → Context → Entry → Exec (Unit {0})
unfolding add_audit
record_audit w ctx e = do
  at ← draw w.clock
  id ← draw w.uuid_str
  add_audit w (record {
    id = id;
    actor = e.actor;
    actor_id = e.actor_id;
    action = e.action;
    target = e.target;
    ip_address = ctx.client_ip;
    user_agent = ctx.user_agent;
    request_id = ctx.request_id;
    meta = "{}";
    at = at;
  })
