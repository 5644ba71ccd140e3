-- ===== src/Operations/Stages.antt =====
-- app/modules/operations/service.py and router.py: the stages of the pipeline, from ClickHouse or
-- from the fallback, and their handler.
use ra_backend.Base.{
  ℕ, ◌≡◌, refl, zero, suc, ◌/◌, ◌%◌, String, true, false, Option, List, [], ◌∷◌, ltb, join,
}
use ra_backend.Base.Decimal.{str}
use ra_backend.Base.Doubles.{Double, hundredths, at_least}
use ra_backend.Base.Doubles.Percent.{percent}
use ra_backend.Core.Errors.{PyError}
use ra_backend.Core.World.{World, Outcome}
use ra_backend.Core.Exec.{Exec, pure, lift, rescue, ◌>>=◌, ◌>>◌}
use ra_backend.Core.Rbac.{pipelines, view}
use ra_backend.Core.Deps.{guarded}
use ra_backend.Integrations.Clickhouse
use ra_backend.Integrations.Clickhouse.{on_upstream, int_or_zero}
use ra_backend.Operations.Kpis.{grouped}

pub record PipelineStage : Type 0 where
  pub key : String
  pub name : String
  pub status : String
  pub duration : String
  pub metric : String

-- The row of the query; a column may be null.
pub record StageRow : Type 0 where
  pub total : Option ℕ
  pub matched : Option ℕ

-- What ClickHouse answers
pub record StageSource : Type 0 where
  pub rows : Outcome (List StageRow)
  pub exc_text : PyError → String

abbrev stage_of : String → String → String → PipelineStage
stage_of key name duration = record {
  key = key;
  name = name;
  status = "ok";
  duration = duration;
  metric = "—";
}

abbrev pub collection : PipelineStage
collection = stage_of "collection" "File Collection" "1m 12s"

abbrev pub decoding : PipelineStage
decoding = stage_of "decoding" "Decoding" "3m 47s"

abbrev pub validation : PipelineStage
validation = stage_of "validation" "Validation" "2m 03s"

abbrev pub reconciliation : PipelineStage
reconciliation = stage_of "reconciliation" "Reconciliation" "4m 21s"

abbrev pub reporting : PipelineStage
reporting = stage_of "reporting" "Report Generation" "0m 58s"

-- `_FALLBACK_STAGES`
abbrev pub fallback_stages : List PipelineStage
fallback_stages = collection ∷ decoding ∷ validation ∷ reconciliation ∷ reporting ∷ []

-- `int((rows[0].get("total") if rows else 0) or 0)`
abbrev pub total_of : List StageRow → ℕ
total_of [] = 0
total_of (r ∷ rest) = int_or_zero r.total

abbrev pub matched_of : List StageRow → ℕ
matched_of [] = 0
matched_of (r ∷ rest) = int_or_zero r.matched

-- `(matched / total * 100) if total else 100.0`
unfoldable pub match_pct : ℕ → ℕ → Double
unfolding percent
match_pct matched zero = record { num = 100; den = 1 }
match_pct matched (suc t) = percent matched (suc t)

abbrev two_digits : ℕ → String
two_digits n = elim (ltb n 10) [ true ↦ join ("0" ∷ str n ∷ []) | false ↦ str n ]

-- `f"{x:.2f}"`, from the hundredths
unfoldable pub fixed_2 : ℕ → String
fixed_2 h = join (str (h / 100) ∷ "." ∷ two_digits (h % 100) ∷ [])

-- The copies of the stages, with the metrics of the reconciliation and of the decoding
unfoldable pub stages_with : ℕ → ℕ → List PipelineStage
unfolding match_pct hundredths at_least fixed_2 grouped
stages_with matched total =
    let pct = match_pct matched total in
    collection
    ∷ record decoding { metric = join (grouped total ∷ " records" ∷ []) }
    ∷ validation
    ∷ record reconciliation {
      metric = join (fixed_2 (hundredths pct) ∷ "% match" ∷ []);
      status = elim (at_least 99 pct) [ true ↦ "ok" | false ↦ "warning" ];
    }
    ∷ reporting
    ∷ []

module _ {T : Type 0} (w : World T) (source : StageSource) where
  unfoldable pub live_stages : Exec (List PipelineStage)
  unfolding Clickhouse.query stages_with
  live_stages = do
    rows ← lift (Clickhouse.query w.settings.clickhouse_enabled source.exc_text source.rows)
    pure (stages_with (matched_of rows) (total_of rows))

  unfoldable pub get_stages : Exec (List PipelineStage)
  unfolding live_stages
  get_stages = rescue live_stages (on_upstream (pure fallback_stages))

  unfoldable pub stages : Option T → Exec (List PipelineStage)
  unfolding get_stages
  stages creds = do guarded w pipelines view creds; get_stages

test_pct : fixed_2 (hundredths (match_pct 9994 10000)) ≡ "99.94"
unfolding fixed_2 hundredths match_pct str
test_pct = refl
