-- ===== src/Assurance/Summary.antt =====
-- app/modules/assurance/service.py, `recon_summary`: the totals of the reconciliation, with the
-- match rate and the leakage in hundredths, as they are rounded.
pub mod Rates
use ra_backend.Base.{ℕ, zero, suc, String, Bool, false, Option, none, some, List, [], ◌∷◌}
use ra_backend.Base.Doubles.{Double, hundredths}
use ra_backend.Base.Doubles.Percent.{percent}
use ra_backend.Core.Errors.{PyError}
use ra_backend.Core.World.{World, Outcome}
use ra_backend.Core.Exec.{Exec, pure, lift, rescue, ◌>>=◌, ◌>>◌}
use ra_backend.Core.Rbac.{dashboard, view}
use ra_backend.Core.Deps.{guarded}
use ra_backend.Integrations.Clickhouse
use ra_backend.Integrations.Clickhouse.{on_upstream, int_or_zero}

-- A float: a sign and a magnitude, or an infinity or no number.
pub data Amount : Type 0 where
  amount : Bool → Double → Amount
  not_finite : Amount

-- What `round(x, 2)` leaves of it: a sign and hundredths.
pub data Cents : Type 0 where
  cents : Bool → ℕ → Cents
  not_finite_cents : Cents

-- `round(x, 2)`
unfoldable pub round_amount : Amount → Cents
unfolding hundredths
round_amount (amount negative x) = cents negative (hundredths x)
round_amount not_finite = not_finite_cents

-- The row of the query; a column may be null.
pub record SummaryRow : Type 0 where
  pub total : Option ℕ
  pub matched : Option ℕ
  pub amount_mismatch : Option ℕ
  pub raw_only : Option ℕ
  pub proc_only : Option ℕ
  pub leakage : Option Amount

pub record ReconSummary : Type 0 where
  pub total : ℕ
  pub matched : ℕ
  pub amount_mismatch : ℕ
  pub raw_only : ℕ
  pub proc_only : ℕ
  -- in hundredths
  pub match_rate : ℕ
  pub estimated_leakage : Cents

-- `float(r.get("leakage") or 0)`
abbrev pub float_or_zero : Option Amount → Amount
float_or_zero none = amount false (record { num = 0; den = 1 })
float_or_zero (some a) = a

-- `round(matched / total * 100, 2) if total else 100.0`
unfoldable pub match_rate : ℕ → ℕ → ℕ
unfolding percent hundredths
match_rate matched zero = 10000
match_rate matched (suc t) = hundredths (percent matched (suc t))

unfoldable pub summary_of : SummaryRow → ReconSummary
unfolding match_rate round_amount
summary_of r = record {
  total = int_or_zero r.total;
  matched = int_or_zero r.matched;
  amount_mismatch = int_or_zero r.amount_mismatch;
  raw_only = int_or_zero r.raw_only;
  proc_only = int_or_zero r.proc_only;
  match_rate = match_rate (int_or_zero r.matched) (int_or_zero r.total);
  estimated_leakage = round_amount (float_or_zero r.leakage);
}

-- `rows[0] if rows else {}`
abbrev pub first_summary : List SummaryRow → SummaryRow
first_summary [] = record {
  total = none;
  matched = none;
  amount_mismatch = none;
  raw_only = none;
  proc_only = none;
  leakage = none;
}
first_summary (r ∷ rest) = r

abbrev pub fallback_summary : ReconSummary
fallback_summary = record {
  total = 0;
  matched = 0;
  amount_mismatch = 0;
  raw_only = 0;
  proc_only = 0;
  match_rate = 10000;
  estimated_leakage = cents false 0;
}

-- What ClickHouse answers to the query of the last hours
pub record Totals : Type 0 where
  pub rows : ℕ → Outcome (List SummaryRow)
  pub exc_text : PyError → String

module _ {T : Type 0} (w : World T) (source : Totals) where
  unfoldable pub live_summary : ℕ → Exec ReconSummary
  unfolding Clickhouse.query summary_of
  live_summary hours = do
    rows ← lift (Clickhouse.query w.settings.clickhouse_enabled source.exc_text (source.rows hours))
    pure (summary_of (first_summary rows))

  unfoldable pub recon_summary : ℕ → Exec ReconSummary
  unfolding live_summary
  recon_summary hours = rescue (live_summary hours) (on_upstream (pure fallback_summary))

  -- The handler
  unfoldable pub summary_route : Option T → ℕ → Exec ReconSummary
  unfolding recon_summary
  summary_route creds hours = do guarded w dashboard view creds; recon_summary hours
