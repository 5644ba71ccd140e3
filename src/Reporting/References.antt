-- ===== src/Reporting/References.antt =====
-- The references of reports, through requests and runs of the worker.
use ra_backend.Base.{
  ap, ◌+◌, String, none, some, false, [], ◌∷◌, ◌++◌, ◌≡◌, refl, subst, arith, length, select,
  exists, select-eq-nil, select-append_new, eq_refl,
}
use ra_backend.Base.Numbered.{reference_at, IsNumbered, IsNumbered-append, reference_is_free}
use ra_backend.Models.{Db, Report}
use ra_backend.Core.World.{World, Outcome}
use ra_backend.Core.Exec.{Tx, ok, finish}
use ra_backend.Reporting.Service.{ReportCreate, new_report, sent, add_report, create_report}
use ra_backend.Reporting.Worker.{Site, report_not_found, report_is, generate_report}
use ra_backend.Reporting.Worker.Laws.{generate_skips}

-- The n-th report, from 0, has the reference "RPT-<9901 + n>".
abbrev pub AreNumbered : Db → Type 0
AreNumbered db = IsNumbered (λ (r : Report). r.reference) "RPT-" 9900 0 db.reports

-- What the session of a worker sees when its job starts: the committed rows.
abbrev pub worker_view : Tx → Tx
worker_view s = record s { current = s.committed }

module _ {T : Type 0} (w : World T) (payload : ReportCreate) (by : String) where
  -- The report of a request.
  abbrev pub requested : Tx → Report
  requested s =
      new_report (w.uuid_str s.draws) (reference_at "RPT-" 9900 (length s.current.reports)) payload
        by s.started

  -- The rows after it.
  abbrev pub requested_rows : Tx → Db
  requested_rows s = record s.current { reports = s.current.reports ++ requested s ∷ [] }

  module _ (delay : String → Outcome (Unit {0})) (s : Tx) (numbered : AreNumbered s.current)
      (fresh : exists (report_is (w.uuid_str s.draws)) s.current.reports ≡ false) where
    pub create_steps : create_report w payload by delay s ≡ (
      ok (requested s, sent (delay (w.uuid_str s.draws))),
      record s { current = requested_rows s; draws = s.draws + 1 },
    )
    unfolding create_report add_report
    create_steps =
        rw
          (
            fresh,
            reference_is_free (λ (r : Report). r.reference) "RPT-" 9900 0 (length s.current.reports)
                s.current.reports numbered (omega arith),
          )
          refl

    -- Where reports are numbered and the drawn id is new, a request for a report succeeds whatever
    -- the broker does, its report is "Queued" with the next reference, and reports stay numbered.
    create_report_succeeds :
        let (r, s') = create_report w payload by delay s in
        (r ≡ ok (requested s, sent (delay (w.uuid_str s.draws)))) × AreNumbered s'.current
    create_report_succeeds = rw create_steps (
      refl,
      IsNumbered-append (λ (r : Report). r.reference) "RPT-" 9900 0 s.current.reports (requested s)
          numbered (ap (reference_at "RPT-" 9900) (omega arith)),
    )

    -- Where reports are numbered, the drawn id is new and the request has written nothing before: a
    -- job that starts before the request's commit finds no report and changes nothing, and the
    -- request then answers and commits one report with the drawn id: it has the next reference, the
    -- status "Queued", no file, the name and type of the payload, and the caller as the one who
    -- asked.
    pub early_job_leaves_queued :
        (site : Site)
        → s.current ≡ s.committed
        → let (r, s') = create_report w payload by delay s in
          let (job, v) = generate_report w site (w.uuid_str s.draws) (worker_view s') in
          let (answer, after) = finish (r, s') in
          (job ≡ ok report_not_found)
          × (v.committed ≡ s.committed)
          × (answer ≡ r)
          × ((report : Report) × (r ≡ ok (report, sent (delay (w.uuid_str s.draws))))
              × (select (report_is (w.uuid_str s.draws)) after.committed.reports ≡ report ∷ [])
              × (report.id ≡ w.uuid_str s.draws)
              × (report.reference ≡ reference_at "RPT-" 9900 (length s.current.reports))
              × (report.status ≡ "Queued")
              × (report.file_path ≡ none)
              × (report.name ≡ payload.name)
              × (report.report_type ≡ payload.report_type)
              × (report.requested_by ≡ some by))
    early_job_leaves_queued site same =
        rw
          (
            create_steps,
            generate_skips w site
                (worker_view (record s { current = requested_rows s; draws = s.draws + 1 }))
                (w.uuid_str s.draws)
                (select-eq-nil (report_is (w.uuid_str s.draws)) s.committed.reports (
                  subst (λ (db : Db). exists (report_is (w.uuid_str s.draws)) db.reports ≡ false)
                    same fresh)),
          )
          (
            refl,
            refl,
            refl,
            (
              requested s,
              refl,
              select-append_new (report_is (w.uuid_str s.draws)) (requested s) s.current.reports
                  fresh (eq_refl (w.uuid_str s.draws)),
              refl,
              refl,
              refl,
              refl,
              refl,
              refl,
              refl,
            ),
          )
