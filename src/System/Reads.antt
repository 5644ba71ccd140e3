-- ===== src/System/Reads.antt =====
-- The handlers that list and count, under an invariant of the identity tables. The figures of the
-- pipelines may store the default configuration.
use ra_backend.Base.{List, none, some, arith, String, ℕ, Option}
use ra_backend.Models.{Db, Case}
use ra_backend.Core.Errors.{Exc}
use ra_backend.Core.World.{World}
use ra_backend.Core.Exec.{Exec, pure}
use ra_backend.Core.Holds.{Keeps, Keeps-bind, Keeps-pure, Keeps-rescue, keeps_rules}
use ra_backend.Core.Deps.{Pagination}
use ra_backend.Identity.Lists.{audit_route, users_route, roles_route}
use ra_backend.Assurance.Reads.{cases_route, case_route, queries_route, stats}
use ra_backend.Assurance.Recon.{Records, asked, recon_records, records_route}
use ra_backend.Operations.Routes.{list_decoders}
use ra_backend.Integrations.Clickhouse.{on_upstream}
use ra_backend.Operations.Kpis.{
  Source, fallback_kpis, live_kpis, get_kpis, kpis, get_runs, runs, alerts,
}
use ra_backend.Operations.Service.{get_or_create_config}
use ra_backend.Reporting.Routes.{list_reports}
use ra_backend.System.Stable.{IsStable}
use ra_backend.System.Sessions.{session_rules}
use ra_backend.System.Others.{get_or_create_config-Keeps}

module _ {P : Db → Type 0} {A : Type 0} where
  pub on_upstream-Keeps : (k : Exec A) → Keeps P k → (e : Exc) → Keeps P (on_upstream k e)
  on_upstream-Keeps k h e = record { at = λ s held. ground (arith, h.at s held) }

module _ {T : Type 0} (w : World T) (P : Db → Type 0) (stable : IsStable P) (creds : Option T) where
  pub audit-Keeps : (p : Pagination) → Keeps P (audit_route w creds p)
  unfolding audit_route
  audit-Keeps p = search session_rules depth 20 fits 2000

  pub users-Keeps : (p : Pagination) → Keeps P (users_route w creds p)
  unfolding users_route
  users-Keeps p = search session_rules depth 20 fits 2000

  pub roles-Keeps : Keeps P (roles_route w creds)
  unfolding roles_route
  roles-Keeps = search session_rules depth 20 fits 2000

  pub cases-Keeps :
      (ties : List Case → List Case) (status : Option String) (p : Pagination)
      → Keeps P (cases_route w creds ties status p)
  unfolding cases_route
  cases-Keeps ties status p = search session_rules depth 20 fits 2000

  pub case-Keeps : (id : String) → Keeps P (case_route w creds id)
  unfolding case_route
  case-Keeps id = search session_rules depth 20 fits 2000

  pub reports-Keeps : (p : Pagination) → Keeps P (list_reports w creds p)
  unfolding list_reports
  reports-Keeps p = search session_rules depth 20 fits 2000

  pub decoders_list-Keeps : Keeps P (list_decoders w creds)
  unfolding list_decoders
  decoders_list-Keeps = search session_rules depth 20 fits 2000

  recon_records-Keeps :
      (source : Records) (status : Option String) (p : Pagination)
      → Keeps P (recon_records w source status p)
  unfolding recon_records asked
  recon_records-Keeps source none p = search keeps_rules depth 20 fits 2000
  recon_records-Keeps source (some t) p = search keeps_rules depth 20 fits 2000

  pub records-Keeps :
      (source : Records) (status : Option String) (p : Pagination)
      → Keeps P (records_route w source creds status p)
  unfolding records_route
  records-Keeps source status p = search (session_rules, recon_records-Keeps) depth 20 fits 2000

  pub queries-Keeps : Keeps P (queries_route w creds)
  unfolding queries_route
  queries-Keeps = search session_rules depth 20 fits 2000

  pub stats-Keeps : Keeps P (stats w creds)
  unfolding stats
  stats-Keeps = search session_rules depth 20 fits 2000

  pub alerts-Keeps : Keeps P (alerts w creds)
  unfolding alerts
  alerts-Keeps = search session_rules depth 20 fits 2000

  module _ (source : Source) where
    live_kpis-Keeps : (sla : ℕ) → Keeps P (live_kpis w source sla)
    unfolding live_kpis
    live_kpis-Keeps sla = search keeps_rules depth 20 fits 2000

    get_kpis-Keeps : Keeps P (get_kpis w source)
    unfolding get_kpis
    get_kpis-Keeps = Keeps-bind get_or_create_config _ (get_or_create_config-Keeps P stable) (λ cfg.
        Keeps-rescue (live_kpis w source cfg.sla_minutes) (on_upstream (pure fallback_kpis))
          (live_kpis-Keeps cfg.sla_minutes)
          (on_upstream-Keeps (pure fallback_kpis) (Keeps-pure fallback_kpis)))

    get_runs-Keeps : (limit : ℕ) → Keeps P (get_runs w source limit)
    unfolding get_runs
    get_runs-Keeps limit = search (keeps_rules, Keeps-rescue, on_upstream-Keeps) depth 20 fits 2000

    pub kpis-Keeps : Keeps P (kpis w source creds)
    unfolding kpis
    kpis-Keeps = search (session_rules, get_kpis-Keeps) depth 20 fits 2000

    pub runs-Keeps : (limit : ℕ) → Keeps P (runs w source creds limit)
    unfolding runs
    runs-Keeps limit = search (session_rules, get_runs-Keeps) depth 20 fits 2000
