-- ===== src/Integrations/Shutdown.antt =====
-- app/core/integrations_shutdown.py, and the `lifespan` of app/main.py, which ends with it.
pub mod Laws
use ra_backend.Base.{Bool, false, String, List, [], ◌∷◌, ◌++◌}
use ra_backend.Core.Config.{Settings}
use ra_backend.Core.World.{Outcome}
use ra_backend.Core.Exec.{Result, ok, err, result}
use ra_backend.Core.Redis as Redis
use ra_backend.Core.Redis.{close_redis}
use ra_backend.Integrations.Held.{Slot}
use ra_backend.Integrations.Clickhouse.Client as Clickhouse
use ra_backend.Integrations.Clickhouse.Client.{close_clickhouse}
use ra_backend.Integrations.RaPostgres as RaPostgres
use ra_backend.Integrations.RaPostgres.{close_ra_postgres}

-- The clients that the process holds; whether the engine of the application's database is in use,
-- and the log of the application.
pub record Process (R P C : Type 0) : Type 0 where
  pub redis : Slot R
  pub ra_postgres : Slot P
  pub clickhouse : Slot C
  pub engine_in_use : Bool
  pub log : List String

pub record Drivers (R P C V J : Type 0) : Type 0 where
  pub redis : Redis.Driver R J
  pub ra_postgres : RaPostgres.Driver P V
  pub clickhouse : Clickhouse.Driver C V
  -- `engine.dispose()`
  pub dispose : Outcome (Unit {0})

module _ {R P C V J : Type 0} (st : Settings) (d : Drivers R P C V J) where
  abbrev Step : Type 0
  Step = Process R P C → Result (Unit {0}) × Process R P C

  abbrev then_do : Step → Result (Unit {0}) × Process R P C → Result (Unit {0}) × Process R P C
  then_do next (ok u, p) = next p
  then_do next (err e, p) = (err e, p)

  abbrev on_redis : Process R P C → Result (Unit {0}) × Slot R → Result (Unit {0}) × Process R P C
  on_redis p (r, s) = (r, record p { redis = s })

  abbrev on_postgres :
      Process R P C → Result (Unit {0}) × Slot P → Result (Unit {0}) × Process R P C
  on_postgres p (r, s) = (r, record p { ra_postgres = s })

  abbrev on_clickhouse :
      Process R P C → Result (Unit {0}) × Slot C → Result (Unit {0}) × Process R P C
  on_clickhouse p (r, s) = (r, record p { clickhouse = s })

  unfoldable pub close_all_integrations : Step
  unfolding close_redis close_ra_postgres close_clickhouse
  close_all_integrations p =
      then_do
        (λ q.
          then_do (λ r. on_clickhouse r (close_clickhouse st d.clickhouse r.clickhouse))
            (on_postgres q (close_ra_postgres st d.ra_postgres q.ra_postgres)))
        (on_redis p (close_redis st d.redis p.redis))

  abbrev disposed : Result (Unit {0}) → Step
  disposed (ok u) p = (ok tt, record p { engine_in_use = false; log = p.log ++ "shutdown" ∷ [] })
  disposed (err e) p = (err e, p)

  -- What `lifespan` does after its `yield`
  unfoldable pub lifespan_end : Step
  unfolding close_all_integrations
  lifespan_end p = then_do (disposed (result d.dispose)) (close_all_integrations p)
