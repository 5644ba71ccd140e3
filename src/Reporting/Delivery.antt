-- ===== src/Reporting/Delivery.antt =====
-- A report from its request to its download: POST /reports, the commit of the request, the job, and
-- GET /reports/{reference}/download.
use ra_backend.Base.{
  ◌≡◌, ◌≢◌, ◌+◌, refl, ◌∙◌, arith, ℕ, String, Bool, true, false, Option, none, some, List, [], ◌∷◌,
  ◌++◌, ◌==◌, ◌||◌, inl, inr, Bool-cases, ne→not_eq, non_empty, join, length, select, modify,
  exists, select-append_new, select-modify_found, eq_refl,
}
use text.Mathlib.TextLemmas.{append-eq-nil_iff}
use ra_backend.Base.Numbered.{reference_is_free}
use ra_backend.Models.{Report}
use ra_backend.Core.World.{World, Outcome, returned}
use ra_backend.Core.Exec.{Tx, ok, finish, begin}
use ra_backend.Reporting.Service.{
  ReportCreate, get_report, create_report, download_report, file_name, header_of,
}
use ra_backend.Reporting.Worker.{
  Site, recon_columns, report_is, start, complete, rows_or_none, ends_with_slash, path_join,
  out_path, generate_report,
}
use ra_backend.Reporting.Worker.Laws.{report_row, generate_completes, completed_query}
use ra_backend.Reporting.References.{
  AreNumbered, worker_view, requested, requested_rows, create_steps,
}

append_filled : (s t : String) → t ≢ "" → join (s ∷ t ∷ []) ≢ ""
append_filled s t filled e = filled ((append-eq-nil_iff {p = s} {q = t}).0 e).1

path_filled : (dir name : String) → name ≢ "" → path_join dir name ≢ ""
unfolding path_join
path_filled dir name filled = elim (Bool-cases (dir == "" || ends_with_slash dir)) [
  | inl h ↦ rw h (append_filled dir name filled)
  | inr h ↦ rw h (append_filled dir (join ("/" ∷ name ∷ [])) (append_filled "/" name filled))
]

module _ {T : Type 0} (w : World T) (site : Site) (r : Report) where
  out_path_filled : non_empty (out_path w site r) ≡ true
  out_path_filled =
      let filled =
        path_filled w.settings.reports_dir _ (append_filled r.reference ".csv" (λ e. cc)) in
      rw (ne→not_eq _ _ filled) refl

module _ {T : Type 0} (w : World T) (payload : ReportCreate) (by : String)
    (delay : String → Outcome (Unit {0})) (s : Tx) where
  -- The state after the request, and after the job that then runs.
  abbrev pub after_request : Tx
  after_request = (finish (create_report w payload by delay s)).1

  abbrev pub after_job : Site → Tx
  after_job site = (generate_report w site (w.uuid_str s.draws) (worker_view after_request)).1

  -- Where reports are numbered and the drawn id is new: when a request for a report has been
  -- committed and its job then runs, with a file that is written, measured and summed, the report
  -- is committed as completed, and a download by its reference answers with that file, whatever the
  -- broker did at the request.
  pub report_is_delivered :
      (site : Site) (size : ℕ) (checksum : String) (file_exists : String → Bool)
      → AreNumbered s.current
      → exists (report_is (w.uuid_str s.draws)) s.current.reports ≡ false
      → let report = requested w payload by s in
        let rows = rows_or_none site.client_query in
        let path = out_path w site report in
        site.write_csv path rows recon_columns ≡ returned tt
        → site.getsize path rows ≡ returned size
        → site.sha256 path rows ≡ returned checksum
        → file_exists path ≡ true
        → (report_row report.id (after_job site).committed
            ≡ complete path size checksum (w.clock (s.draws + 1)) (start report) ∷ [])
          × ((download_report file_exists report.reference (begin w (after_job site))).0
              ≡ ok (record {
                path = path;
                filename = file_name report;
                checksum = header_of (some checksum);
              }))
  unfolding download_report get_report generate_report ra_backend.Base.Decimal.str path_join
      create_report
  report_is_delivered site size checksum file_exists numbered fresh written measured summed there =
      let report = requested w payload by s in
      let free =
        reference_is_free (λ (r : Report). r.reference) "RPT-" 9900 0 (length s.current.reports)
          s.current.reports numbered (omega arith) in
      let found =
        select-append_new (report_is report.id) report s.current.reports fresh
          (eq_refl report.id) in
      let named =
        select-append_new (λ (r : Report). r.reference == report.reference) report s.current.reports
          free (eq_refl report.reference) in
      let view = worker_view (record s {
        committed = requested_rows w payload by s;
        current = requested_rows w payload by s;
        draws = s.draws + 1;
      }) in
      let job = generate_completes w site view report found size checksum written measured summed in
      let seen =
        completed_query w site view report found (λ r. r.reference == report.reference) size
          checksum (λ f keeps r. rw (keeps r) refl) named written measured summed in
      rw (create_steps w payload by delay s numbered fresh)
        (job.1, rw (seen, out_path_filled w site report, there) refl)
