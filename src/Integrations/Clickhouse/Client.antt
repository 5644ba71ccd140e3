-- ===== src/Integrations/Clickhouse/Client.antt =====
-- app/integrations/clickhouse.py: the client that the module holds, and the queries through it.
-- What clickhouse-connect does is a parameter, which may differ from call to call.
use ra_backend.Base.{ℕ, ◌+◌, String, Bool, true, false, Option, none, some, List, [], ◌∷◌, map}
use ra_backend.Base.Dict.{Dict, put}
use ra_backend.Core.Config.{Settings}
use ra_backend.Core.Errors.{Exc, app, upstream_unavailable}
use ra_backend.Core.World.{Outcome}
use ra_backend.Core.Exec.{ok, result}
use ra_backend.Integrations.Held.{Uses, give, fail, call, rescue, ◌>>=◌, ◌>>◌, get_or_make}

-- The arguments of `clickhouse_connect.get_client`
pub record ConnectArgs : Type 0 where
  pub host : String
  pub port : ℕ
  pub username : String
  pub password : String
  pub database : String
  pub connect_timeout : ℕ
  pub send_receive_timeout : ℕ

pub record QueryResult (V : Type 0) : Type 0 where
  pub column_names : List String
  pub result_rows : List (List V)

pub record Driver (C V : Type 0) : Type 0 where
  pub connect : ConnectArgs → Outcome C
  pub run : C → String → Dict String → Outcome (QueryResult V)
  pub command : C → String → Outcome (Unit {0})
  pub close : C → Outcome (Unit {0})
  -- `str(exc)`
  pub exc_text : Exc → String

abbrev pub connect_args : Settings → ConnectArgs
connect_args s = record {
  host = s.clickhouse_host;
  port = s.clickhouse_port;
  username = s.clickhouse_user;
  password = s.clickhouse_password;
  database = s.clickhouse_database;
  connect_timeout = 5;
  send_receive_timeout = 30;
}

-- `dict(zip(cols, row, strict=False))`, into `d`
unfoldable pub dict_of : {V : Type 0} → Dict V → List String → List V → Dict V
unfolding put
dict_of d [] row = d
dict_of d (c ∷ cols) [] = d
dict_of d (c ∷ cols) (v ∷ row) = dict_of (put d c v) cols row

-- `params or {}`
abbrev pub params_or_empty : Option (Dict String) → Dict String
params_or_empty none = []
params_or_empty (some p) = p

abbrev pub row_dicts : {V : Type 0} → QueryResult V → List (Dict V)
row_dicts r = map (dict_of [] r.column_names) r.result_rows

module _ {C V : Type 0} (st : Settings) (d : Driver C V) where
  -- `_get_client`
  unfoldable pub get_client : Uses C C
  unfolding get_or_make
  get_client = get_or_make (d.connect (connect_args st))

  abbrev pub closing : Option C → Uses C (Unit {0})
  closing none s = (ok tt, s)
  closing (some c) s = (result (d.close c), record s { held = none; closed = s.closed + 1 })

  -- The client is let go also where closing it raises.
  unfoldable pub close_clickhouse : Uses C (Unit {0})
  close_clickhouse s = closing s.held s

  -- `_query_sync`
  unfoldable pub query_sync : String → Option (Dict String) → Uses C (List (Dict V))
  unfolding get_client dict_of
  query_sync sql params = do
    client ← get_client
    reply ← call (d.run client sql (params_or_empty params))
    give (row_dicts reply)

  unfoldable pub failed_query : Exc → Uses C (List (Dict V))
  unfolding close_clickhouse
  failed_query (app upstream_unavailable message details) =
      fail (app upstream_unavailable message details)
  failed_query e = do
    close_clickhouse
    fail (app upstream_unavailable "ClickHouse query failed." (("reason", d.exc_text e) ∷ []))

  unfoldable pub query_if : Bool → String → Option (Dict String) → Uses C (List (Dict V))
  unfolding query_sync failed_query
  query_if false sql params =
      fail (app upstream_unavailable "ClickHouse integration is disabled." [])
  query_if true sql params = rescue (query_sync sql params) failed_query

  unfoldable pub query : String → Option (Dict String) → Uses C (List (Dict V))
  unfolding query_if
  query sql params = query_if st.clickhouse_enabled sql params

  unfoldable pub ping_if : Bool → Uses C Bool
  unfolding get_client close_clickhouse
  ping_if false = give false
  ping_if true =
      rescue (do client ← get_client; call (d.command client "SELECT 1"); give true)
        (λ e. do close_clickhouse; give false)

  unfoldable pub ping : Uses C Bool
  unfolding ping_if
  ping = ping_if st.clickhouse_enabled
