-- ===== src/Assurance/Routes.antt =====
-- app/modules/assurance/router.py: the handlers that write, behind their guards.
use ra_backend.Base.{String, ℕ, Option}
use ra_backend.Models.{Case, CaseComment}
use ra_backend.Models.Common.{Timestamp, Float}
use ra_backend.Core.World.{World}
use ra_backend.Core.Exec.{Exec, pure, ◌>>=◌, ◌>>◌}
use ra_backend.Core.Rbac.{case_management, workbench, edit}
use ra_backend.Core.Deps.{guarded}
use ra_backend.Assurance.Service
use ra_backend.Assurance.Payloads.{CaseCreate, CaseUpdate}
use ra_backend.Assurance.Service.{SavedQueryCreate, create_saved_query}

pub record SavedQueryRow : Type 0 where
  pub id : String
  pub reference : String
  pub name : String
  pub owner : Option String
  pub count : ℕ

pub record CaseRow : Type 0 where
  pub id : String
  pub reference : String
  pub title : String
  pub severity : String
  pub status : String
  pub owner : Option String
  pub updated : Timestamp
  pub estimated_impact : Option Float

abbrev pub to_case_row : Case → CaseRow
to_case_row c = record {
  id = c.id;
  reference = c.reference;
  title = c.title;
  severity = c.severity;
  status = c.status;
  owner = c.owner;
  updated = c.updated_at;
  estimated_impact = c.estimated_impact;
}

module _ {T : Type 0} (w : World T) (creds : Option T) where
  unfoldable pub create_case : CaseCreate → Exec CaseRow
  create_case payload = do
    principal ← guarded w case_management edit creds
    case ← Service.create_case w payload principal.id
    pure (to_case_row case)

  unfoldable pub update_case : String → CaseUpdate → Exec CaseRow
  update_case case_id payload = do
    guarded w case_management edit creds
    case ← Service.update_case w case_id payload
    pure (to_case_row case)

  unfoldable pub add_comment : String → String → Exec CaseComment
  add_comment case_id body = do
    principal ← guarded w case_management edit creds
    Service.add_comment w case_id body principal.email

  unfoldable pub create_query : SavedQueryCreate → Exec SavedQueryRow
  create_query payload = do
    principal ← guarded w workbench edit creds
    q ← create_saved_query w payload principal.full_name
    pure (record {
      id = q.id;
      reference = q.reference;
      name = q.name;
      owner = q.owner;
      count = q.last_count;
    })
