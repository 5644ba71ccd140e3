-- ===== src/Integrations/RaPostgres.antt =====
-- app/integrations/ra_postgres.py: the engine that the module holds, and the queries through it.
-- What SQLAlchemy and asyncpg do is a parameter.
use ra_backend.Base.{ℕ, ◌+◌, String, Bool, true, false, Option, none, some, List, [], ◌∷◌, join}
use ra_backend.Base.Decimal.{str}
use ra_backend.Base.Dict.{Dict}
use ra_backend.Core.Config.{Settings}
use ra_backend.Core.Errors.{Exc, app, upstream_unavailable}
use ra_backend.Core.World.{Outcome, returned, raised}
use ra_backend.Core.Exec.{ok, result}
use ra_backend.Integrations.Clickhouse.Client.{params_or_empty}
use ra_backend.Integrations.Held.{Uses, give, fail, call, rescue, ◌>>=◌, ◌>>◌, get_or_make}

-- The arguments of `create_async_engine`
pub record EngineArgs : Type 0 where
  pub url : String
  pub pool_pre_ping : Bool
  pub pool_size : ℕ
  pub max_overflow : ℕ

-- `run`: a connection is opened, the statement executed, its rows read, and the connection given
-- back.
pub record Driver (C V : Type 0) : Type 0 where
  pub create : EngineArgs → Outcome C
  pub run : C → String → Dict String → Outcome (List (Dict V))
  pub dispose : C → Outcome (Unit {0})
  pub exc_text : Exc → String

unfoldable pub engine_args : Settings → EngineArgs
engine_args s = record {
  url = join (
      "postgresql+asyncpg://"
      ∷ s.ra_pg_user
      ∷ ":"
      ∷ s.ra_pg_password
      ∷ "@"
      ∷ s.ra_pg_host
      ∷ ":"
      ∷ str s.ra_pg_port
      ∷ "/"
      ∷ s.ra_pg_name
      ∷ []);
  pool_pre_ping = true;
  pool_size = 5;
  max_overflow = 5;
}

module _ {C V : Type 0} (st : Settings) (d : Driver C V) where
  -- `_get_engine`
  unfoldable pub get_engine : Uses C C
  unfolding get_or_make engine_args
  get_engine = get_or_make (d.create (engine_args st))

  -- `await _engine.dispose(); _engine = None`: an engine that fails to be disposed of is kept.
  abbrev disposed : Outcome (Unit {0}) → Uses C (Unit {0})
  disposed (returned u) s = (ok tt, record s { held = none; closed = s.closed + 1 })
  disposed (raised e) s = (result (raised e), s)

  abbrev disposing : Option C → Uses C (Unit {0})
  disposing none s = (ok tt, s)
  disposing (some c) s = disposed (d.dispose c) s

  unfoldable pub close_ra_postgres : Uses C (Unit {0})
  close_ra_postgres s = disposing s.held s

  unfoldable pub query_if : Bool → String → Option (Dict String) → Uses C (List (Dict V))
  unfolding get_engine
  query_if false sql params =
      fail (app upstream_unavailable "ra-platform Postgres integration is disabled." [])
  query_if true sql params =
      rescue (do engine ← get_engine; call (d.run engine sql (params_or_empty params)))
        (λ e. fail (
          app upstream_unavailable "ra-platform Postgres query failed."
            (("reason", d.exc_text e) ∷ [])))

  unfoldable pub query : String → Option (Dict String) → Uses C (List (Dict V))
  unfolding query_if
  query sql params = query_if st.ra_pg_enabled sql params

  unfoldable pub ping_if : Bool → Uses C Bool
  unfolding get_engine
  ping_if false = give false
  ping_if true =
      rescue (do engine ← get_engine; call (d.run engine "SELECT 1" []); give true)
        (λ e. give false)

  unfoldable pub ping : Uses C Bool
  unfolding ping_if
  ping = ping_if st.ra_pg_enabled
