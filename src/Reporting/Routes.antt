-- ===== src/Reporting/Routes.antt =====
-- app/modules/reporting/router.py: the handlers behind their guards.
use ra_backend.Base.{String, Bool, Option, List, map}
use ra_backend.Base.Order.{order_by, page, newest_first}
use ra_backend.Models.{Report}
use ra_backend.Core.World.{World, Outcome}
use ra_backend.Core.Exec.{Exec, pure, query, ◌>>=◌, ◌>>◌}
use ra_backend.Core.Rbac.{reports, view, edit}
use ra_backend.Core.Deps.{Pagination, guarded}
use ra_backend.Reporting.Service
use ra_backend.Reporting.Service.{ReportCreate, FileResponse}
use ra_backend.Reporting.Sizes.{ReportRow, to_row}

module _ {T : Type 0} (w : World T) (creds : Option T) where
  unfoldable pub create_report : ReportCreate → (String → Outcome (Unit {0})) → Exec ReportRow
  create_report payload delay = do
    principal ← guarded w reports edit creds
    (report, was_sent) ← Service.create_report w payload principal.email delay
    pure (to_row report)

  unfoldable pub list_reports : Pagination → Exec (List ReportRow)
  unfolding page
  list_reports p = do
    guarded w reports view creds
    query (λ db.
        map to_row (
          page p.limit p.offset
            (order_by (newest_first (λ (r : Report). r.created_at)) db.reports)))

  unfoldable pub download_report : (String → Bool) → String → Exec FileResponse
  download_report file_exists reference = do
    guarded w reports view creds
    Service.download_report file_exists reference
