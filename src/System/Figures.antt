-- ===== src/System/Figures.antt =====
-- The handlers that show figures from ClickHouse, under an invariant of the identity tables.
use ra_backend.Base.{ℕ, Option}
use ra_backend.Models.{Db}
use ra_backend.Core.World.{World}
use ra_backend.Core.Holds.{Keeps, Keeps-rescue, keeps_rules}
use ra_backend.Assurance.Summary.{Totals, live_summary, recon_summary, summary_route}
use ra_backend.Operations.Stages.{StageSource, live_stages, get_stages, stages}
use ra_backend.Meta.{dashboard_kpis}
use ra_backend.System.Stable.{IsStable}
use ra_backend.System.Sessions.{session_rules}
use ra_backend.System.Reads.{on_upstream-Keeps}

module _ {T : Type 0} (w : World T) (P : Db → Type 0) (stable : IsStable P) (creds : Option T) where
  get_stages-Keeps : (source : StageSource) → Keeps P (get_stages w source)
  unfolding get_stages live_stages
  get_stages-Keeps source = search (keeps_rules, Keeps-rescue, on_upstream-Keeps) depth 20 fits 2000

  recon_summary-Keeps : (source : Totals) (hours : ℕ) → Keeps P (recon_summary w source hours)
  unfolding recon_summary live_summary
  recon_summary-Keeps source hours =
      search (keeps_rules, Keeps-rescue, on_upstream-Keeps) depth 20 fits 2000

  pub stages-Keeps : (source : StageSource) → Keeps P (stages w source creds)
  unfolding stages
  stages-Keeps source = search (session_rules, get_stages-Keeps) depth 20 fits 2000

  pub summary-Keeps : (source : Totals) (hours : ℕ) → Keeps P (summary_route w source creds hours)
  unfolding summary_route
  summary-Keeps source hours = search (session_rules, recon_summary-Keeps) depth 20 fits 2000

  pub dashboard-Keeps : (source : Totals) → Keeps P (dashboard_kpis w source creds)
  unfolding dashboard_kpis
  dashboard-Keeps source = search (session_rules, recon_summary-Keeps) depth 20 fits 2000
