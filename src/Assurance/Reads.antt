-- ===== src/Assurance/Reads.antt =====
-- app/modules/assurance/service.py and router.py: the handlers that read cases, saved queries and
-- the counts of the workbench.
use ra_backend.Base.{
  ℕ, ◌*◌, ◌-◌, String, Bool, true, ◌&&◌, ◌||◌, Option, none, some, List, ◌==◌, map, leb, non_empty,
  length, select, if◌then◌else◌,
}
use ra_backend.Base.Order.{order_by, page, newest_first, oldest_first}
use ra_backend.Models.{Case, CaseComment, SavedQuery}
use ra_backend.Models.Common.{Timestamp}
use ra_backend.Core.World.{World, minutes}
use ra_backend.Core.Exec.{Exec, pure, query, draw, ◌>>=◌, ◌>>◌}
use ra_backend.Core.Rbac.{case_management, workbench, view}
use ra_backend.Core.Deps.{Pagination, guarded}
use ra_backend.Assurance.Service.{find_case}
use ra_backend.Assurance.Routes.{CaseRow, to_case_row, SavedQueryRow}

-- `if status: stmt = stmt.where(Case.status == status)`
abbrev pub has_status : Option String → Case → Bool
has_status none c = true
has_status (some t) c = if non_empty t then c.status == t else true

abbrev pub newest_case : Case → Case → Bool
newest_case = newest_first (λ (c : Case). c.updated_at)

-- `ties` is how the database delivers the rows of this query before it orders them: it settles the
-- order of cases with the same `updated_at`, which PostgreSQL may answer otherwise for every page.
unfoldable pub list_cases :
    (List Case → List Case) → Option String → Pagination → Exec (List CaseRow)
unfolding page
list_cases ties status p = query (λ db.
    map to_case_row
      (page p.limit p.offset (order_by newest_case (ties (select (has_status status) db.cases)))))

pub record CommentOut : Type 0 where
  pub id : String
  pub author : String
  pub body : String
  pub created_at : Timestamp

pub record CaseDetail : Type 0 where
  pub row : CaseRow
  pub description : String
  pub linked_txn_id : Option String
  pub comments : List CommentOut

abbrev pub to_comment_out : CaseComment → CommentOut
to_comment_out c = record { id = c.id; author = c.author; body = c.body; created_at = c.created_at }

abbrev pub comments_of : String → List CaseComment → List CaseComment
comments_of case_id = select (λ (c : CaseComment). c.case_id == case_id)

abbrev pub oldest_comment : CaseComment → CaseComment → Bool
oldest_comment = oldest_first (λ (c : CaseComment). c.created_at)

unfoldable pub get_case : String → Exec CaseDetail
get_case case_id = do
  case ← find_case case_id
  comments ← query (λ db. comments_of case.id db.comments)
  pure (record {
    row = to_case_row case;
    description = case.description;
    linked_txn_id = case.linked_txn_id;
    comments = map to_comment_out (order_by oldest_comment comments);
  })

abbrev pub to_query_row : SavedQuery → SavedQueryRow
to_query_row q = record {
  id = q.id;
  reference = q.reference;
  name = q.name;
  owner = q.owner;
  count = q.last_count;
}

unfoldable pub list_saved_queries : Exec (List SavedQueryRow)
list_saved_queries = query (λ db.
    map to_query_row (order_by (newest_first (λ (q : SavedQuery). q.created_at)) db.saved_queries))

pub record WorkbenchStats : Type 0 where
  pub open_investigations : ℕ
  pub closed_this_week : ℕ
  pub avg_resolution_days : String

abbrev pub is_open_case : Case → Bool
is_open_case c = c.status == "Open"

-- `Case.status.in_(["Closed", "Resolved"]), Case.updated_at >= week_ago`
abbrev pub closed_since : Timestamp → Case → Bool
closed_since t c = (c.status == "Closed" || c.status == "Resolved") && leb t c.updated_at

-- `timedelta(days=7)`
abbrev pub week : ℕ
week = minutes (7 * 24 * 60)

module _ {T : Type 0} (w : World T) where
  unfoldable pub workbench_stats : Exec WorkbenchStats
  workbench_stats = do
    open_count ← query (λ db. length (select is_open_case db.cases))
    now ← draw w.clock
    closed ← query (λ db. length (select (closed_since (now - week)) db.cases))
    pure (record {
      open_investigations = open_count;
      closed_this_week = closed;
      avg_resolution_days = "2.4";
    })

  module _ (creds : Option T) where
    unfoldable pub cases_route :
        (List Case → List Case) → Option String → Pagination → Exec (List CaseRow)
    unfolding list_cases
    cases_route ties status p = do guarded w case_management view creds; list_cases ties status p

    unfoldable pub case_route : String → Exec CaseDetail
    unfolding get_case
    case_route case_id = do guarded w case_management view creds; get_case case_id

    unfoldable pub queries_route : Exec (List SavedQueryRow)
    unfolding list_saved_queries
    queries_route = do guarded w workbench view creds; list_saved_queries

    unfoldable pub stats : Exec WorkbenchStats
    unfolding workbench_stats
    stats = do guarded w workbench view creds; workbench_stats
