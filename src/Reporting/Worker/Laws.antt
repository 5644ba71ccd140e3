-- ===== src/Reporting/Worker/Laws.antt =====
-- How a run of the report job ends.
use ra_backend.Base.{
  ℕ, String, Bool, some, List, [], ◌∷◌, ◌≡◌, refl, eq_refl, select, modify, select-modify_found,
}
use ra_backend.Models.{Db, Report}
use ra_backend.Core.Errors.{PyError, python}
use ra_backend.Core.World.{World, returned, raised}
use ra_backend.Core.Exec.{Tx, ok, err}
use ra_backend.Reporting.Worker.{
  Site, report_not_found, done, recon_columns, report_is, start, complete, rows_or_none, out_path,
  generate_report,
}

abbrev pub report_row : String → Db → List Report
report_row id db = select (report_is id) db.reports

module _ {T : Type 0} (w : World T) (site : Site) (s : Tx) where
  -- A report that is not committed when the worker looks is skipped, and nothing changes.
  pub generate_skips :
      (id : String)
      → report_row id s.current ≡ []
      → generate_report w site id s ≡ (ok report_not_found, s)
  unfolding generate_report
  generate_skips id absent = rw absent

  module _ (report : Report) (found : report_row report.id s.current ≡ report ∷ []) where
    running :
        select (report_is report.id) (modify (report_is report.id) start s.current.reports)
        ≡ start report ∷ []
    running =
        select-modify_found (report_is report.id) (report_is report.id) start report
          s.current.reports (λ r. refl) (eq_refl report.id) found

    -- What another query sees of the report after such a job.
    pub completed_query :
        (q : Report → Bool) (size : ℕ) (checksum : String)
        → ((f : Report → Report)
            → ((r : Report) → (f r).reference ≡ r.reference)
            → (r : Report) → q (f r) ≡ q r)
        → select q s.current.reports ≡ report ∷ []
        → let rows = rows_or_none site.client_query in
          let path = out_path w site report in
          site.write_csv path rows recon_columns ≡ returned tt
          → site.getsize path rows ≡ returned size
          → site.sha256 path rows ≡ returned checksum
          → select q (generate_report w site report.id s).1.committed.reports
            ≡ complete path size checksum (w.clock s.draws) (start report) ∷ []
    unfolding generate_report
    completed_query q size checksum keeps one written measured summed =
        rw (found, written, measured, summed)
          (select-modify_found q (report_is report.id) _ (start report)
            (modify (report_is report.id) start s.current.reports) (keeps _ (λ r. refl))
            (eq_refl report.id)
            (select-modify_found q (report_is report.id) start report s.current.reports
              (keeps start (λ r. refl)) (eq_refl report.id) one))

    -- A job for a report that is there, whose file is written, measured and summed: it answers with
    -- size and checksum, and commits the report as completed with path, size and checksum, also
    -- where ClickHouse is down and the file has no rows.
    pub generate_completes :
        (size : ℕ) (checksum : String)
        → let rows = rows_or_none site.client_query in
          let path = out_path w site report in
          site.write_csv path rows recon_columns ≡ returned tt
          → site.getsize path rows ≡ returned size
          → site.sha256 path rows ≡ returned checksum
          → let (r, s') = generate_report w site report.id s in
            (r ≡ ok (done (some size) (some checksum)))
            × (report_row report.id s'.committed
                ≡ complete path size checksum (w.clock s.draws) (start report) ∷ [])
    unfolding generate_report
    generate_completes size checksum written measured summed =
        rw (found, written, measured, summed)
          (
            refl,
            select-modify_found (report_is report.id) (report_is report.id) _ (start report)
                (modify (report_is report.id) start s.current.reports) (λ r. refl)
                (eq_refl report.id) running,
          )

    -- A job for a report that is there, whose file cannot be written: the exception goes on, and
    -- the report is committed with the status "Failed" and the exception's text as its error, all
    -- its other columns as before the job.
    pub generate_fails :
        (e : PyError)
        → let rows = rows_or_none site.client_query in
          site.write_csv (out_path w site report) rows recon_columns ≡ raised e
          → let (r, s') = generate_report w site report.id s in
            (r ≡ err (python e))
            × (report_row report.id s'.committed
                ≡ record report { status = "Failed"; error = some (site.exc_text (python e)) } ∷ [])
    unfolding generate_report
    generate_fails e broken =
        rw (found, broken, running)
          (
            refl,
            select-modify_found (report_is report.id) (report_is report.id) _ (start report)
                (modify (report_is report.id) start s.current.reports) (λ r. refl)
                (eq_refl report.id) running,
          )
