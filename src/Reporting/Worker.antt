-- ===== src/Reporting/Worker.antt =====
-- app/workers/tasks.py: the job that writes the file of a report. The worker has a session of its
-- own, and sees only what others have committed.
pub mod Laws
use Prim.Native.Char.{code}
use ra_backend.Base.{
  ℕ, String, Bool, true, false, ◌||◌, Option, none, some, List, [], ◌∷◌, ◌==◌, beq, select, modify,
  join, if◌then◌else◌,
}
use ra_backend.Models.{Report}
use ra_backend.Models.Common.{Timestamp}
use ra_backend.Core.Errors.{Exc, PyError}
use ra_backend.Core.World.{World, Outcome, returned, raised}
use ra_backend.Core.Exec.{
  Exec, Result, ok, err, pure, raise, branch, query, write, draw, call, commit, rollback, rescue,
  scalar_one_or_none, ◌>>=◌, ◌>>◌,
}

-- A result row of ClickHouse, as its values.
abbrev pub Row : Type 0
Row = List String

abbrev pub recon_columns : List String
recon_columns =
    "record_type" ∷ "raw_txn_id" ∷ "proc_txn_id" ∷ "raw_node_id" ∷ "raw_subscriber_num"
    ∷ "raw_tran_amt" ∷ "proc_tran_amt" ∷ "raw_acc_balance" ∷ "proc_acc_balance"
    ∷ "reconciliation_status" ∷ "created_time" ∷ []

-- What a run of the job meets: ClickHouse, the file system and the texts of exceptions.
pub record Site : Type 0 where
  pub client_query : Outcome (List Row)
  pub write_csv : String → List Row → List String → Outcome (Unit {0})
  pub getsize : String → List Row → Outcome ℕ
  pub sha256 : String → List Row → Outcome String
  pub exc_text : Exc → String

pub data JobResult : Type 0 where
  report_not_found : JobResult
  done : Option ℕ → Option String → JobResult

unfoldable pub ends_with_slash : String → Bool
ends_with_slash String.[] = false
ends_with_slash (String.◌∷◌ c String.[]) = beq (code c) b'/'
ends_with_slash (String.◌∷◌ c (String.◌∷◌ d s)) = ends_with_slash (String.◌∷◌ d s)

-- `os.path.join(dir, name)` for a name that is no absolute path
unfoldable pub path_join : String → String → String
unfolding ends_with_slash
path_join dir name =
    if dir == "" || ends_with_slash dir
    then join (dir ∷ name ∷ [])
    else join (dir ∷ "/" ∷ name ∷ [])

abbrev pub report_is : String → Report → Bool
report_is id r = r.id == id

-- `session.get(Report, report_id)`
abbrev pub find_report : String → Exec (Option Report)
find_report id = do rows ← query (λ db. select (report_is id) db.reports); scalar_one_or_none rows

abbrev pub set_report : String → (Report → Report) → Exec (Unit {0})
set_report id f = write (λ db. record db { reports = modify (report_is id) f db.reports })

abbrev pub start : Report → Report
start r = record r { status = "Running" }

abbrev pub complete : String → ℕ → String → Timestamp → Report → Report
complete path size checksum now r = record r {
  file_path = some path;
  size_bytes = some size;
  checksum_sha256 = some checksum;
  status = "Completed";
  completed_at = some now;
  error = none;
}

abbrev pub fail : String → Report → Report
fail text r = record r { status = "Failed"; error = some text }

-- The `except` around the query: a ClickHouse that is down gives a file with no rows.
abbrev pub rows_or_none : Outcome (List Row) → List Row
rows_or_none (returned rows) = rows
rows_or_none (raised e) = []

module _ {T : Type 0} (w : World T) (site : Site) where
  abbrev pub out_path : Report → String
  out_path r = path_join w.settings.reports_dir (join (r.reference ∷ ".csv" ∷ []))

  unfoldable pub generate_found : Report → Exec JobResult
  unfolding path_join
  generate_found report = do
    set_report report.id start
    commit
    let rows = rows_or_none site.client_query
    let path = out_path report
    call (site.write_csv path rows recon_columns)
    size ← call (site.getsize path rows)
    checksum ← call (site.sha256 path rows)
    now ← draw w.clock
    set_report report.id (complete path size checksum now)
    commit
    pure (done (some size) (some checksum))

  unfoldable pub attempt_report : String → Exec JobResult
  unfolding generate_found
  attempt_report report_id = do
    found ← find_report report_id
    elim found [ none ↦ pure report_not_found | some report ↦ generate_found report ]

  -- The outer `except`: what is not committed is undone, and the failure is committed.
  unfoldable pub mark_failed : String → Exc → Exec JobResult
  mark_failed report_id e = do
    rollback
    found ← find_report report_id
    elim found [
      | none ↦ raise e
      | some report ↦ do set_report report.id (fail (site.exc_text e)); commit; raise e
    ]

  unfoldable pub generate_report : String → Exec JobResult
  unfolding attempt_report mark_failed
  generate_report report_id = rescue (attempt_report report_id) (mark_failed report_id)
