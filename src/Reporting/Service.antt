-- ===== src/Reporting/Service.antt =====
-- app/modules/reporting/service.py and router.py: request, look up, download.
use Prim.Native.Char.{Char}
use ra_backend.Base.{
  String, Bool, true, false, not, ◌||◌, Option, none, some, [], ◌∷◌, ◌++◌, ◌==◌, length, select,
  exists, non_empty, truthy, join,
}
use ra_backend.Base.Numbered.{reference_at}
use ra_backend.Base.Text.{replace_char}
use ra_backend.Models.{Report}
use ra_backend.Models.Common.{Json, Timestamp}
use ra_backend.Core.Errors.{app, not_found}
use ra_backend.Core.World.{World, Outcome, returned, raised, unique_violation}
use ra_backend.Core.Exec.{
  Exec, pure, raise_if, or_raise, query, draw, write, violation, scalar_one_or_none, started_at,
  ◌>>=◌, ◌>>◌,
}

pub record ReportCreate : Type 0 where
  pub name : String
  pub report_type : String
  pub period : Option String
  pub params : Json

-- `_next_reference`
unfoldable pub next_reference : Exec String
next_reference = query (λ db. reference_at "RPT-" 9900 (length db.reports))

-- The `Report(...)` of `create_report`, with the columns' defaults.
abbrev pub new_report : String → String → ReportCreate → String → Timestamp → Report
new_report id reference payload requested_by created = record {
  id = id;
  reference = reference;
  name = payload.name;
  report_type = payload.report_type;
  period = payload.period;
  status = "Queued";
  size_bytes = none;
  file_path = none;
  checksum_sha256 = none;
  requested_by = some requested_by;
  params = payload.params;
  error = none;
  completed_at = none;
  created_at = created;
}

-- `generate_report.delay(report.id)` under `except Exception`: whether the message was sent.
abbrev pub sent : Outcome (Unit {0}) → Bool
sent (returned u) = true
sent (raised e) = false

module _ {T : Type 0} (w : World T) where
  -- `db.add(report)` and its flush: unique id and reference.
  unfoldable pub add_report : Report → Exec (Unit {0})
  add_report r = do
    same_id ← query (λ db. exists (λ (q : Report). q.id == r.id) db.reports)
    violation w same_id unique_violation
    same_reference ← query (λ db. exists (λ (q : Report). q.reference == r.reference) db.reports)
    violation w same_reference unique_violation
    write (λ db. record db { reports = db.reports ++ r ∷ [] })

  -- The report, and whether its job was handed to the broker; a broker that is down is no error.
  unfoldable pub create_report :
      ReportCreate → String → (String → Outcome (Unit {0})) → Exec (Report × Bool)
  unfolding next_reference add_report
  create_report payload requested_by delay = do
    reference ← next_reference
    id ← draw w.uuid_str
    created ← started_at
    let report = new_report id reference payload requested_by created
    add_report report
    pure (report, sent (delay report.id))

unfoldable pub get_report : String → Exec Report
get_report reference = do
  rows ← query (λ db. select (λ (r : Report). r.reference == reference) db.reports)
  found ← scalar_one_or_none rows
  or_raise found (app not_found "Report not found." [])

pub record FileResponse : Type 0 where
  pub path : String
  pub filename : String
  pub checksum : Option String

abbrev space : Char
space = " "

abbrev underscore : Char
underscore = "_"

abbrev pub path_of : Option String → String
path_of none = ""
path_of (some p) = p

-- `if report.checksum_sha256`
abbrev pub header_of : Option String → Option String
header_of none = none
header_of (some c) = elim (non_empty c) [ true ↦ some c | false ↦ none ]

-- The name under which the file is sent
unfoldable pub file_name : Report → String
unfolding replace_char
file_name report =
    join (report.reference ∷ "_" ∷ replace_char space underscore report.name ∷ ".csv" ∷ [])

-- `download_report`; `file_exists` is `os.path.exists`.
unfoldable pub download_report : (String → Bool) → String → Exec FileResponse
unfolding get_report file_name
download_report file_exists reference = do
  report ← get_report reference
  raise_if
      (not (report.status == "Completed")
        || not (truthy report.file_path)
        || not (file_exists (path_of report.file_path)))
      (app not_found "Report file is not available yet." [])
  pure (record {
    path = path_of report.file_path;
    filename = file_name report;
    checksum = header_of report.checksum_sha256;
  })
