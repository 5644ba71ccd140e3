-- ===== src/Integrations/Shutdown/Laws.antt =====
-- What the end of the process leaves open, where a client fails to close and where none does.
use ra_backend.Base.{some, none, ◌≡◌, refl, arith}
use ra_backend.Core.Config.{Settings}
use ra_backend.Core.Errors.{PyError, python}
use ra_backend.Core.World.{returned, raised}
use ra_backend.Core.Exec.{err}
use ra_backend.Core.Redis.{close_redis}
use ra_backend.Integrations.Clickhouse.Client.{close_clickhouse}
use ra_backend.Integrations.RaPostgres.{close_ra_postgres}
use ra_backend.Integrations.Shutdown.{Process, Drivers, close_all_integrations, lifespan_end}

-- No client is held any more.
pub record IsReleased {R P C : Type 0} (p : Process R P C) : Type 0 where
  pub redis : p.redis.held ≡ none
  pub ra_postgres : p.ra_postgres.held ≡ none
  pub clickhouse : p.clickhouse.held ≡ none

-- The clients of the cache and of ra-platform's PostgreSQL close without an exception.
pub record Closes {R P C V J : Type 0} (d : Drivers R P C V J) : Type 0 where
  pub redis : (r : R) → d.redis.aclose r ≡ returned tt
  pub ra_postgres : (p : P) → d.ra_postgres.dispose p ≡ returned tt

module _ {R P C V J : Type 0} (st : Settings) (d : Drivers R P C V J) (p : Process R P C) where
  -- Where the clients of the cache and of ra-platform's PostgreSQL close without an exception, no
  -- client is held after the shutdown of the integrations, also where the one of ClickHouse fails
  -- to close.
  pub shutdown_releases : Closes d → IsReleased (close_all_integrations st d p).1
  unfolding close_all_integrations close_redis close_ra_postgres close_clickhouse
  shutdown_releases c = record {
    redis = grind (arith, c.redis, c.ra_postgres);
    ra_postgres = grind (arith, c.redis, c.ra_postgres);
    clickhouse = grind (arith, c.redis, c.ra_postgres);
  }

  -- Where the held client of the cache fails to close, the end of the process is its exception and
  -- closes nothing: every other client and the engine of the application's database stay in use.
  pub failed_close_keeps_all :
      (r : R) (e : PyError)
      → p.redis.held ≡ some r
      → d.redis.aclose r ≡ raised e
      → lifespan_end st d p ≡ (err (python e), p)
  unfolding close_all_integrations lifespan_end close_redis
  failed_close_keeps_all r e held broken = rw (held, broken) refl
