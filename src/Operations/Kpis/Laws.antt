-- ===== src/Operations/Kpis/Laws.antt =====
-- When the figures of the pipelines fall back, and when they fail.
use ra_backend.Base.{◌≡◌, ◌/◌, ◌%◌, join, ℕ, Bool, true, List, [], ◌∷◌}
use ra_backend.Core.World.{World, returned}
use ra_backend.Operations.Kpis.{
  Totals, nan, Mean, Source, PipelineKpis, grouped, first_totals, first_count,
}
use ra_backend.Base.Decimal.{str}

-- The figures of these answers
abbrev figures : List Totals → List ℕ → ℕ → PipelineKpis
figures totals breaches secs = record {
  throughput = join (grouped (first_totals totals).total ∷ " / 24h" ∷ []);
  avg_latency = join (str (secs / 60) ∷ "m " ∷ str (secs % 60) ∷ "s" ∷ []);
  failed24h = (first_totals totals).mismatched;
  sla_breaches = first_count breaches;
}

-- What ClickHouse answers where the request for the figures fails: it is enabled, it answers the
-- three queries, and the mean that it answers is no number.
pub record AnswersNan (enabled : Bool) (source : Source) (sla_minutes : ℕ) : Type 0 where
  pub is_enabled : enabled ≡ true
  pub totals : List Totals
  pub totals_answered : source.totals ≡ returned totals
  pub breaches : List ℕ
  pub breaches_answered : source.breaches sla_minutes ≡ returned breaches
  pub others : List Mean
  pub latency_answered : source.latency ≡ returned (nan ∷ others)
