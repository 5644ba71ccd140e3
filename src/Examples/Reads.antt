-- ===== src/Examples/Reads.antt =====
-- The comments of a case, and the figures of the pipelines.
use ra_backend.Base.{List, [], ◌∷◌}
use ra_backend.Core.World.{returned}
use ra_backend.Core.Exec.{Tx}
use ra_backend.Operations.Service.{default_config}
use ra_backend.Operations.Kpis.{nan, Source}
use ra_backend.Examples.{db_with, state_of}

-- No reconciliation has completed.
abbrev quiet : Source
quiet = record {
  totals = returned (record { total = 1234567; matched = 1234560; mismatched = 7 } ∷ []);
  breaches = λ n. returned (0 ∷ []);
  latency = returned (nan ∷ []);
  runs = λ n. returned [];
  exc_text = λ e. "";
}

abbrev no_config : Tx
no_config = state_of (db_with [])

abbrev with_config : Tx
with_config = record no_config {
  current = record no_config.current { configs = default_config ∷ [] };
}
