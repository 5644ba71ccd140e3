-- ===== src/Meta/Laws.antt =====
-- What the readiness rests on, and what the headline figures show.
use ra_backend.Base.{ℕ, ◌*◌, ◌<◌, true, some, ◌≡◌, ◌≢◌, refl, ap, ◌∙◌, arith, Bool}
use ra_backend.Base.Dict.{get}
use ra_backend.Base.Doubles.{to_double, hundredths, half_even, finer}
use ra_backend.Base.Doubles.Laws.{to_double-fine, half_even-whole, finer_pos}
use ra_backend.Core.Config.{Settings}
use ra_backend.Core.Errors.{Exc, PyError, python}
use ra_backend.Core.World.{raised}
use ra_backend.Core.Exec.{Result, ok, err}
use ra_backend.Integrations.Airflow as Airflow
use ra_backend.Integrations.Held.{get_or_make}
use ra_backend.Integrations.Clickhouse.Client.{get_client, close_clickhouse, ping_if}
use ra_backend.Integrations.Clickhouse.Client as Clickhouse
use ra_backend.Integrations.RaPostgres as RaPostgres
use ra_backend.Assurance.Summary.{ReconSummary}
use ra_backend.Meta.{Clients, Probes, Readiness, is_up, readiness, matched_amount, assured_revenue}

module _ {P C V : Type 0} (st : Settings) (p : Probes P C V) (s : Clients P C) where
  -- The readiness is answered, and is that of the application's database.
  abbrev pub IsAnswered : Result Readiness → Type 0
  IsAnswered x =
      (r : Readiness) × (x ≡ ok r)
      × (r.ready ≡ is_up p.app_db)
      × (get r.checks "app_db" ≡ some (is_up p.app_db))

  abbrev Returns : Result Bool → Type 0
  Returns x = (e : Exc) → x ≢ err e

  -- Where ClickHouse is enabled, the held client fails to answer the ping and then fails to close,
  -- the readiness is the exception of the close, also where the application's database is up.
  pub failed_close_hides_readiness :
      (c : C) (e x : PyError)
      → st.clickhouse_enabled ≡ true
      → s.clickhouse.held ≡ some c
      → p.clickhouse.command c "SELECT 1" ≡ raised e
      → p.clickhouse.close c ≡ raised x
      → (readiness st p s).0 ≡ err (python x)
  unfolding readiness Clickhouse.ping Clickhouse.ping_if get_client get_or_make close_clickhouse
  failed_close_hides_readiness c e x on held broken stuck = rw (on, held, broken, stuck) refl

regroup : (n p : ℕ) → 100 * (n * p) ≡ 100 * n * p
regroup n p = omega arith

padded : (x : ℕ) → x ≡ x * 1
padded x = omega arith

whole_num : (n p : ℕ) → half_even (n * p) 1 ≡ n * p
whole_num n p = ap (λ x. half_even x 1) (padded (n * p)) ∙ half_even-whole 1 (n * p) (omega arith)

-- A whole number below 2^53 is exact as a double.
exact_hundredths : (n : ℕ) → n < 9007199254740992 → hundredths (to_double n 1) ≡ 100 * n
unfolding hundredths
exact_hundredths n small =
    ap hundredths (to_double-fine n 1 (omega arith))
    ∙ ap (λ x. half_even (100 * x) (finer 1074 n 1)) (whole_num n (finer 1074 n 1))
    ∙ ap (λ x. half_even x (finer 1074 n 1)) (regroup n (finer 1074 n 1))
    ∙ half_even-whole (finer 1074 n 1) (100 * n) (finer_pos 1074 n 1)

-- doc
pub assured_revenue_is_exact :
    (s : ReconSummary)
    → matched_amount s < 9007199254740992
    → assured_revenue s ≡ 100 * matched_amount s
unfolding assured_revenue hundredths
assured_revenue_is_exact s small = exact_hundredths (matched_amount s) small
