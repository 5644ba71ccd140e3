-- ===== src/Meta.antt =====
-- app/modules/meta/router.py: health, readiness and the headline figures.
pub mod Laws
use ra_backend.Base.{ℕ, ◌+◌, ◌-◌, String, Bool, true, false, Option, List, [], ◌∷◌}
use ra_backend.Base.Dict.{Dict}
use ra_backend.Base.Doubles.{to_double, hundredths}
use ra_backend.Core.Config.{Settings, environment_name}
use ra_backend.Core.World.{World, Outcome, returned, raised}
use ra_backend.Core.Exec.{Exec, Result, ok, err, pure, ◌>>=◌, ◌>>◌}
use ra_backend.Core.Rbac.{dashboard, view}
use ra_backend.Core.Deps.{guarded}
use ra_backend.Integrations.Airflow as Airflow
use ra_backend.Integrations.Airflow.{Http}
use ra_backend.Integrations.Clickhouse.Client as Clickhouse
use ra_backend.Integrations.RaPostgres as RaPostgres
use ra_backend.Integrations.Held.{Slot}
use ra_backend.Assurance.Summary.{Totals, ReconSummary, Cents, recon_summary}

pub record Health : Type 0 where
  pub status : String
  pub version : String
  pub environment : String

-- `__version__` of app/__init__.py
abbrev pub version : String
version = "0.1.0"

unfoldable pub health : Settings → Health
unfolding environment_name
health st = record {
  status = "ok";
  version = version;
  environment = environment_name st.environment;
}

pub record Readiness : Type 0 where
  pub ready : Bool
  pub checks : Dict Bool

-- The clients that the pings hold.
pub record Clients (P C : Type 0) : Type 0 where
  pub clickhouse : Slot C
  pub ra_postgres : Slot P

-- What the libraries do while the endpoint runs; `app_db` is `SELECT 1` on the application's
-- database.
pub record Probes (P C V : Type 0) : Type 0 where
  pub app_db : Outcome (Unit {0})
  pub clickhouse : Clickhouse.Driver C V
  pub ra_postgres : RaPostgres.Driver P V
  pub http : Http

-- `except Exception: checks["app_db"] = False`
abbrev pub is_up : Outcome (Unit {0}) → Bool
is_up (returned u) = true
is_up (raised e) = false

abbrev pub readiness_of : Bool → Bool → Bool → Bool → Readiness
readiness_of db ch pg af = record {
  ready = db;
  checks = ("app_db", db) ∷ ("clickhouse", ch) ∷ ("ra_postgres", pg) ∷ ("airflow", af) ∷ [];
}

module _ {P C V : Type 0} (st : Settings) (p : Probes P C V) where
  abbrev pub with_airflow : Bool → Bool → Clients P C → Result Bool → Result Readiness × Clients P C
  with_airflow ch pg s (ok af) = (ok (readiness_of (is_up p.app_db) ch pg af), s)
  with_airflow ch pg s (err e) = (err e, s)

  abbrev pub with_postgres :
      Bool → Clients P C → Result Bool × Slot P → Result Readiness × Clients P C
  with_postgres ch s (ok pg, slot) =
      with_airflow ch pg (record s { ra_postgres = slot }) (Airflow.ping st p.http)
  with_postgres ch s (err e, slot) = (err e, record s { ra_postgres = slot })

  abbrev pub with_clickhouse : Clients P C → Result Bool × Slot C → Result Readiness × Clients P C
  with_clickhouse s (ok ch, slot) =
      with_postgres ch (record s { clickhouse = slot })
        (RaPostgres.ping st p.ra_postgres s.ra_postgres)
  with_clickhouse s (err e, slot) = (err e, record s { clickhouse = slot })

  unfoldable pub readiness : Clients P C → Result Readiness × Clients P C
  unfolding Airflow.ping Clickhouse.ping RaPostgres.ping
  readiness s = with_clickhouse s (Clickhouse.ping st p.clickhouse s.clickhouse)

pub record DashboardKpis : Type 0 where
  -- in hundredths, as they are rounded
  pub assured_revenue : ℕ
  pub match_rate : ℕ
  pub open_leakage_risk : Cents
  pub critical_alerts : ℕ

-- `max(total - amountMismatch - rawOnly - procOnly, 0)`
abbrev pub matched_amount : ReconSummary → ℕ
matched_amount s = s.total - s.amount_mismatch - s.raw_only - s.proc_only

-- `round(max(matched_amount, 0) * 1.0, 2)`
unfoldable pub assured_revenue : ReconSummary → ℕ
unfolding to_double hundredths
assured_revenue s = hundredths (to_double (matched_amount s) 1)

unfoldable pub kpis_of : ReconSummary → DashboardKpis
unfolding assured_revenue
kpis_of s = record {
  assured_revenue = assured_revenue s;
  match_rate = s.match_rate;
  open_leakage_risk = s.estimated_leakage;
  critical_alerts = s.amount_mismatch + s.raw_only;
}

unfoldable pub dashboard_kpis : {T : Type 0} → World T → Totals → Option T → Exec DashboardKpis
unfolding recon_summary kpis_of
dashboard_kpis w source creds = do
  guarded w dashboard view creds
  summary ← recon_summary w source 24
  pure (kpis_of summary)
