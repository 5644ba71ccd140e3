-- ===== src/System/Others.antt =====
-- Operations, assurance, reporting and the worker write none of the identity tables: they keep every
-- property that those tables alone decide.
use ra_backend.Base.{refl, String, Option, none, some, List}
use ra_backend.Models.{
  Db, Case, CaseComment, SavedQuery, PipelineAlert, Decoder, SystemConfig, Report,
}
use ra_backend.Core.Errors.{Exc}
use ra_backend.Core.World.{World, Outcome}
use ra_backend.Core.Holds.{Keeps, Keeps-write, Keeps-rescue, keeps_rules}
use ra_backend.Core.Exec.{write, pure, raise, commit, ◌>>◌}
use ra_backend.Assurance.Payloads.{CaseCreate, CaseUpdate}
use ra_backend.Assurance.Service.{
  SavedQueryCreate, next_case_reference, add_case, create_case, update_case, add_comment,
  create_saved_query,
}
use ra_backend.Operations.Service.{
  DecoderUpsert, SystemConfigUpdate, acknowledge_alert, save_decoder, upsert_decoder,
  found_or_create, get_or_create_config, get_system_config, update_system_config,
}
use ra_backend.Reporting.Service.{ReportCreate, next_reference, add_report, create_report}
use ra_backend.Reporting.Worker.{
  Site, JobResult, report_not_found, set_report, fail, generate_found, attempt_report, mark_failed,
  generate_report,
}
use ra_backend.System.Stable.{IsStable}

module _ (P : Db → Type 0) (stable : IsStable P) where
  cases-Keeps : (f : Db → List Case) → Keeps P (write (λ db. record db { cases = f db }))
  cases-Keeps f = Keeps-write _ (λ db. stable.others_changed db _ refl refl refl refl)

  comments-Keeps :
      (f : Db → List CaseComment) → Keeps P (write (λ db. record db { comments = f db }))
  comments-Keeps f = Keeps-write _ (λ db. stable.others_changed db _ refl refl refl refl)

  saved_queries-Keeps :
      (f : Db → List SavedQuery) → Keeps P (write (λ db. record db { saved_queries = f db }))
  saved_queries-Keeps f = Keeps-write _ (λ db. stable.others_changed db _ refl refl refl refl)

  alerts-Keeps : (f : Db → List PipelineAlert) → Keeps P (write (λ db. record db { alerts = f db }))
  alerts-Keeps f = Keeps-write _ (λ db. stable.others_changed db _ refl refl refl refl)

  decoders-Keeps : (f : Db → List Decoder) → Keeps P (write (λ db. record db { decoders = f db }))
  decoders-Keeps f = Keeps-write _ (λ db. stable.others_changed db _ refl refl refl refl)

  configs-Keeps :
      (f : Db → List SystemConfig) → Keeps P (write (λ db. record db { configs = f db }))
  configs-Keeps f = Keeps-write _ (λ db. stable.others_changed db _ refl refl refl refl)

  reports-Keeps : (f : Db → List Report) → Keeps P (write (λ db. record db { reports = f db }))
  reports-Keeps f = Keeps-write _ (λ db. stable.others_changed db _ refl refl refl refl)

  ruleset other_rules = (
    keeps_rules, cases-Keeps, comments-Keeps, saved_queries-Keeps, alerts-Keeps, decoders-Keeps,
    configs-Keeps, reports-Keeps,
  )

  pub acknowledge_alert-Keeps : (id actor : String) → Keeps P (acknowledge_alert id actor)
  unfolding acknowledge_alert
  acknowledge_alert-Keeps id actor = search other_rules depth 20 fits 2000

  save_decoder-Keeps : (p : DecoderUpsert) (o : Option Decoder) → Keeps P (save_decoder p o)
  unfolding save_decoder
  save_decoder-Keeps p none = search other_rules depth 20 fits 2000
  save_decoder-Keeps p (some d) = search other_rules depth 20 fits 2000

  pub upsert_decoder-Keeps : (p : DecoderUpsert) → Keeps P (upsert_decoder p)
  unfolding upsert_decoder
  upsert_decoder-Keeps p = search (other_rules, save_decoder-Keeps) depth 20 fits 2000

  found_or_create-Keeps : (o : Option SystemConfig) → Keeps P (found_or_create o)
  unfolding found_or_create
  found_or_create-Keeps none = search other_rules depth 20 fits 2000
  found_or_create-Keeps (some c) = search other_rules depth 20 fits 2000

  pub get_or_create_config-Keeps : Keeps P get_or_create_config
  unfolding get_or_create_config
  get_or_create_config-Keeps = search (other_rules, found_or_create-Keeps) depth 20 fits 2000

  pub get_system_config-Keeps : Keeps P get_system_config
  unfolding get_system_config
  get_system_config-Keeps = search (other_rules, get_or_create_config-Keeps) depth 20 fits 2000

  pub update_system_config-Keeps : (p : SystemConfigUpdate) → Keeps P (update_system_config p)
  unfolding update_system_config
  update_system_config-Keeps p =
      search (other_rules, get_or_create_config-Keeps, get_system_config-Keeps) depth 20 fits 2000

  module _ {T : Type 0} (w : World T) where
    pub create_case-Keeps :
        (payload : CaseCreate) (owner : String) → Keeps P (create_case w payload owner)
    unfolding create_case add_case next_case_reference
    create_case-Keeps payload owner = search other_rules depth 30 fits 3000

    pub update_case-Keeps :
        (id : String) (payload : CaseUpdate) → Keeps P (update_case w id payload)
    unfolding update_case
    update_case-Keeps id payload = search other_rules depth 30 fits 3000

    pub add_comment-Keeps : (id body author : String) → Keeps P (add_comment w id body author)
    unfolding add_comment
    add_comment-Keeps id body author = search other_rules depth 30 fits 3000

    pub create_saved_query-Keeps :
        (payload : SavedQueryCreate) (owner : String) → Keeps P (create_saved_query w payload owner)
    unfolding create_saved_query
    create_saved_query-Keeps payload owner = search other_rules depth 30 fits 3000

    pub create_report-Keeps :
        (payload : ReportCreate) (by : String) (delay : String → Outcome (Unit {0}))
        → Keeps P (create_report w payload by delay)
    unfolding create_report add_report next_reference
    create_report-Keeps payload by delay = search other_rules depth 30 fits 3000

    module _ (site : Site) where
      generate_found-Keeps : (r : Report) → Keeps P (generate_found w site r)
      unfolding generate_found
      generate_found-Keeps r = search other_rules depth 30 fits 3000

      found-Keeps :
          (o : Option Report)
          → Keeps P
              (elim o [ none ↦ pure report_not_found | some report ↦ generate_found w site report ])
      found-Keeps none = search other_rules depth 5 fits 300
      found-Keeps (some r) = generate_found-Keeps r

      attempt_report-Keeps : (id : String) → Keeps P (attempt_report w site id)
      unfolding attempt_report
      attempt_report-Keeps id = search (other_rules, found-Keeps) depth 20 fits 2000

      failed-Keeps :
          (e : Exc) (o : Option Report)
          → Keeps {A = JobResult} P (elim o [
            | none ↦ raise e
            | some report ↦ do set_report report.id (fail (site.exc_text e)); commit; raise e
          ])
      failed-Keeps e none = search other_rules depth 5 fits 300
      failed-Keeps e (some r) = search other_rules depth 20 fits 2000

      mark_failed-Keeps : (id : String) (e : Exc) → Keeps P (mark_failed w site id e)
      unfolding mark_failed
      mark_failed-Keeps id e = search (other_rules, failed-Keeps) depth 20 fits 2000

      pub generate_report-Keeps : (id : String) → Keeps P (generate_report w site id)
      unfolding generate_report
      generate_report-Keeps id =
          Keeps-rescue (attempt_report w site id) (mark_failed w site id) (attempt_report-Keeps id)
            (mark_failed-Keeps id)
