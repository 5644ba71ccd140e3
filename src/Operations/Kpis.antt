-- ===== src/Operations/Kpis.antt =====
-- app/modules/operations/service.py and schemas.py: the figures and the runs of the pipelines, from
-- ClickHouse or from the fallbacks.
pub mod Laws
use Prim.Native.String.{◌++◌}
use ra_backend.Base.{
  ℕ, zero, suc, ◌/◌, ◌%◌, String, Bool, Option, none, some, List, [], ◌∷◌, ◌==◌, ltb, map, join,
  if◌then◌else◌,
}
use ra_backend.Base.Decimal.{str}
use ra_backend.Base.Order.{order_by, newest_first}
use ra_backend.Models.{PipelineAlert}
use ra_backend.Models.Common.{Timestamp}
use ra_backend.Core.Errors.{PyError, python}
use ra_backend.Core.World.{World, Outcome}
use ra_backend.Core.Exec as E
use ra_backend.Core.Exec.{Exec, Result, ok, err, lift, pure, rescue, ◌>>=◌, ◌>>◌}
use ra_backend.Core.Rbac.{pipelines, view}
use ra_backend.Core.Deps.{guarded}
use ra_backend.Integrations.Clickhouse
use ra_backend.Integrations.Clickhouse.{on_upstream}
use ra_backend.Operations.Service.{get_or_create_config}

-- The columns of the first query of `get_kpis`
pub record Totals : Type 0 where
  pub total : ℕ
  pub matched : ℕ
  pub mismatched : ℕ

-- A mean of whole numbers that are not negative, by its whole part. Where nothing is averaged it is
-- no number, or NULL where the averaged columns take NULL.
pub data Mean : Type 0 where
  null nan : Mean
  whole : ℕ → Mean

-- A row of `reconciliation_run_log`
pub record RunRow : Type 0 where
  pub recon_run_id : Option String
  pub recon_start_time : Option Timestamp
  pub recon_end_time : Option Timestamp
  pub status : Option String

-- What ClickHouse answers to the queries, and the text of an exception.
pub record Source : Type 0 where
  pub totals : Outcome (List Totals)
  pub breaches : ℕ → Outcome (List ℕ)
  pub latency : Outcome (List Mean)
  pub runs : ℕ → Outcome (List RunRow)
  pub exc_text : PyError → String

pub record PipelineKpis : Type 0 where
  pub throughput : String
  pub avg_latency : String
  pub failed24h : ℕ
  pub sla_breaches : ℕ

-- Three digits
abbrev padded : ℕ → String
padded n = if ltb n 10 then "00" ++ str n else if ltb n 100 then "0" ++ str n else str n

-- `f"{n:,}"`, in groups of three digits; the fuel is the number itself.
grouped_by : ℕ → ℕ → String
grouped_by zero n = str n
grouped_by (suc fuel) n =
    let more = grouped_by fuel (n / 1000) in
    if ltb n 1000 then str n else join (more ∷ "," ∷ padded (n % 1000) ∷ [])

unfoldable pub grouped : ℕ → String
unfolding grouped_by
grouped n = grouped_by n n

-- `rows[0] if rows else {"total": 0, …}`
abbrev pub first_totals : List Totals → Totals
first_totals [] = record { total = 0; matched = 0; mismatched = 0 }
first_totals (t ∷ r) = t

abbrev pub first_count : List ℕ → ℕ
first_count [] = 0
first_count (n ∷ r) = n

-- `int((rows[0].get("secs") if rows else 0) or 0)`
abbrev pub seconds_of : List Mean → Result ℕ
seconds_of [] = ok 0
seconds_of (null ∷ r) = ok 0
seconds_of (whole n ∷ r) = ok n
seconds_of (nan ∷ r) = err (python PyError.value_error)

abbrev pub fallback_kpis : PipelineKpis
fallback_kpis = record {
  throughput = "8.4M / hr";
  avg_latency = "12m 21s";
  failed24h = 14;
  sla_breaches = 2;
}

pub record PipelineRun : Type 0 where
  pub id : String
  pub source : String
  pub batch : String
  pub start : Option Timestamp
  pub end : Option Timestamp
  pub status : String
  pub records : ℕ
  pub failed : ℕ

-- `str` of a value that may be missing
abbrev pub str_of : Option String → String
str_of none = "None"
str_of (some t) = t

-- `"Completed" if r.get("status") == "COMPLETED" else str(r.get("status"))`
abbrev pub run_status : Option String → String
run_status none = "None"
run_status (some t) = if t == "COMPLETED" then "Completed" else t

abbrev pub to_run : RunRow → PipelineRun
to_run r = record {
  id = str_of r.recon_run_id;
  source = "Reconciliation";
  batch = str_of r.recon_run_id;
  start = r.recon_start_time;
  end = r.recon_end_time;
  status = run_status r.status;
  records = 0;
  failed = 0;
}

-- 2 June 2026, 9:02 to 9:18 and 8:30 to 8:51 (UTC)
abbrev pub fallback_runs : List PipelineRun
fallback_runs =
    record {
      id = "RUN-90112";
      source = "MSC-EU-1";
      batch = "BATCH-441A";
      start = some 1_780_390_920_000_000;
      end = some 1_780_391_880_000_000;
      status = "Completed";
      records = 1284322;
      failed = 12;
    }
    ∷ record {
      id = "RUN-90110";
      source = "BSS-CRM";
      batch = "BATCH-441C";
      start = some 1_780_389_000_000_000;
      end = some 1_780_390_260_000_000;
      status = "Failed";
      records = 312044;
      failed = 4012;
    }
    ∷ []

pub record PipelineAlertRow : Type 0 where
  pub id : String
  pub severity : String
  pub stage : String
  pub message : String
  pub created_at : Timestamp
  pub status : String

abbrev pub to_alert_row : PipelineAlert → PipelineAlertRow
to_alert_row a = record {
  id = a.id;
  severity = a.severity;
  stage = a.stage;
  message = a.message;
  created_at = a.created_at;
  status = a.status;
}

unfoldable pub list_alerts : Exec (List PipelineAlertRow)
list_alerts = E.query (λ db.
    map to_alert_row (order_by (newest_first (λ (a : PipelineAlert). a.created_at)) db.alerts))

module _ {T : Type 0} (w : World T) (source : Source) where
  abbrev ask : {A : Type 0} → Outcome A → Exec A
  ask o = lift (Clickhouse.query w.settings.clickhouse_enabled source.exc_text o)

  unfoldable pub avg_latency : Exec String
  unfolding Clickhouse.query
  avg_latency = do
    rows ← ask source.latency
    secs ← lift (seconds_of rows)
    pure (join (str (secs / 60) ∷ "m " ∷ str (secs % 60) ∷ "s" ∷ []))

  unfoldable pub sla_breaches : ℕ → Exec ℕ
  unfolding Clickhouse.query
  sla_breaches sla_minutes = do rows ← ask (source.breaches sla_minutes); pure (first_count rows)

  -- The body of the `try` of `get_kpis`
  unfoldable pub live_kpis : ℕ → Exec PipelineKpis
  unfolding Clickhouse.query avg_latency sla_breaches grouped
  live_kpis sla_minutes = do
    rows ← ask source.totals
    let stats = first_totals rows
    breaches ← sla_breaches sla_minutes
    latency ← avg_latency
    pure (record {
      throughput = join (grouped stats.total ∷ " / 24h" ∷ []);
      avg_latency = latency;
      failed24h = stats.mismatched;
      sla_breaches = breaches;
    })

  unfoldable pub get_kpis : Exec PipelineKpis
  unfolding get_or_create_config live_kpis
  get_kpis = do
    cfg ← get_or_create_config
    rescue (live_kpis cfg.sla_minutes) (on_upstream (pure fallback_kpis))

  unfoldable pub get_runs : ℕ → Exec (List PipelineRun)
  unfolding Clickhouse.query
  get_runs limit =
      rescue (do rows ← ask (source.runs limit); pure (map to_run rows))
        (on_upstream (pure fallback_runs))

  module _ (creds : Option T) where
    unfoldable pub kpis : Exec PipelineKpis
    unfolding get_kpis
    kpis = do guarded w pipelines view creds; get_kpis

    unfoldable pub runs : ℕ → Exec (List PipelineRun)
    unfolding get_runs
    runs limit = do guarded w pipelines view creds; get_runs limit

module _ {T : Type 0} (w : World T) (creds : Option T) where
  unfoldable pub alerts : Exec (List PipelineAlertRow)
  unfolding list_alerts
  alerts = do guarded w pipelines view creds; list_alerts
