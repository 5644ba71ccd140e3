-- ===== src/Integrations/Clickhouse/Pool.antt =====
-- What holds of the client of app/integrations/clickhouse.py over any sequence of calls.
use ra_backend.Base.{
  ℕ, String, Bool, true, false, Option, none, some, List, [], ◌∷◌, ◌≡◌, ◌≢◌, refl, arith,
}
use ra_backend.Base.Dict.{Dict}
use ra_backend.Core.Config.{Settings}
use ra_backend.Core.Errors.{Exc, python}
use ra_backend.Core.World.{Outcome, returned, raised}
use ra_backend.Core.Exec.{Result, ok, err}
use ra_backend.Integrations.Clickhouse as Spec
use ra_backend.Integrations.Held.{Slot, get_or_make, IsBalanced}
use ra_backend.Integrations.Clickhouse.Client.{
  QueryResult, Driver, ConnectArgs, connect_args, row_dicts, params_or_empty, get_client,
  close_clickhouse, query_sync, failed_query, query_if, query, ping_if, ping,
}

-- The functions that the module offers, with what the libraries do while they run.
pub data Call (C V : Type 0) : Type 0 where
  queries : Driver C V → String → Option (Dict String) → Call C V
  pings closes : Driver C V → Call C V

module _ {C V : Type 0} (st : Settings) where
  pub step : Slot C → Call C V → Slot C
  unfolding query ping close_clickhouse
  step s (queries d sql params) = (query st d sql params s).1
  step s (pings d) = (ping st d s).1
  step s (closes d) = (close_clickhouse st d s).1

  pub run : Slot C → List (Call C V) → Slot C
  unfolding step
  run s [] = s
  run s (c ∷ cs) = run (step s c) cs

module _ {C V : Type 0} (st : Settings) (d : Driver C V) where
  close-IsBalanced : (s : Slot C) → IsBalanced s → IsBalanced (close_clickhouse st d s).1
  unfolding close_clickhouse
  close-IsBalanced s b = ground arith

  query-IsBalanced :
      (sql : String) (params : Option (Dict String)) (s : Slot C)
      → IsBalanced s
      → IsBalanced (query st d sql params s).1
  unfolding query query_if query_sync failed_query get_client get_or_make close_clickhouse
  query-IsBalanced sql params s b = ground arith

  ping-IsBalanced : (s : Slot C) → IsBalanced s → IsBalanced (ping st d s).1
  unfolding ping ping_if get_client get_or_make close_clickhouse
  ping-IsBalanced s b = ground arith

module _ {C V : Type 0} (st : Settings) where
  step-IsBalanced : (s : Slot C) (c : Call C V) → IsBalanced s → IsBalanced (step st s c)
  unfolding step
  step-IsBalanced s (queries d sql params) b = query-IsBalanced st d sql params s b
  step-IsBalanced s (pings d) b = ping-IsBalanced st d s b
  step-IsBalanced s (closes d) b = close-IsBalanced st d s b

  -- Over any sequence of queries, pings and closes of ClickHouse, whatever the libraries do, from a
  -- state in which every client that was made is held or was closed, this stays so: no client is
  -- lost without a call that closes it.
  pub run-IsBalanced : (s : Slot C) (cs : List (Call C V)) → IsBalanced s → IsBalanced (run st s cs)
  unfolding run
  run-IsBalanced s [] b = b
  run-IsBalanced s (c ∷ cs) b = run-IsBalanced (step st s c) cs (step-IsBalanced s c b)

  step_disabled :
      (s : Slot C) (c : Call C V) → st.clickhouse_enabled ≡ false → (step st s c).made ≡ s.made
  unfolding step query query_if ping ping_if close_clickhouse
  step_disabled s c off = ground arith

module _ {C V : Type 0} (d : Driver C V) where
  rows_of : Outcome (QueryResult V) → Outcome (List (Dict V))
  rows_of (returned r) = returned (row_dicts r)
  rows_of (raised e) = raised e

  connected : String → Option (Dict String) → Outcome C → Outcome (List (Dict V))
  unfolding rows_of
  connected sql params (returned c) = rows_of (d.run c sql (params_or_empty params))
  connected sql params (raised e) = raised e

  -- What the libraries make of the query: the rows, or what they raise.
  pub attempt : ConnectArgs → Option C → String → Option (Dict String) → Outcome (List (Dict V))
  unfolding connected rows_of
  attempt args none sql params = connected sql params (d.connect args)
  attempt args (some c) sql params = connected sql params (returned c)

-- What a query leaves of the client: a disabled integration leaves it alone, an answer keeps it,
-- and a failure drops it.
pub IsLeft : {C A : Type 0} → Bool → Result A → Slot C → Slot C → Type 0
IsLeft false r s t = t ≡ s
IsLeft true (ok a) s t = t.held ≢ none
IsLeft true (err e) s t = t.held ≡ none

module _ {C V : Type 0} (st : Settings) (d : Driver C V) where
  result_same :
      ((c : C) → d.close c ≡ returned tt)
      → (sql : String) (params : Option (Dict String)) (h : Option C) (m n : ℕ) (b : Bool)
      → (query_if st d b sql params (record { held = h; made = m; closed = n })).0
        ≡ Spec.query b (λ e. d.exc_text (python e)) (attempt d (connect_args st) h sql params)
  unfolding Spec.query query_if query_sync failed_query get_client get_or_make close_clickhouse
      attempt connected rows_of
  result_same clean sql params h m n false = refl
  result_same clean sql params h m n true = grind (arith, clean)

  module _ (sql : String) (params : Option (Dict String)) (s : Slot C) where
    failed-drops :
        (e : Exc)
        → (query_if st d true sql params s).0 ≡ err e
        → (query_if st d true sql params s).1.held ≡ none
    unfolding query_if query_sync failed_query get_client get_or_make close_clickhouse
    failed-drops e h = ground arith

    answered-keeps :
        (rows : List (Dict V))
        → (query_if st d true sql params s).0 ≡ ok rows
        → (query_if st d true sql params s).1.held ≢ none
    unfolding query_if query_sync failed_query get_client get_or_make close_clickhouse
    answered-keeps rows h gone = ground arith

    case-IsLeft :
        (x : Result (List (Dict V)) × Slot C)
        → ((e : Exc) → x.0 ≡ err e → x.1.held ≡ none)
        → ((rows : List (Dict V)) → x.0 ≡ ok rows → x.1.held ≢ none)
        → IsLeft true x.0 s x.1
    unfolding IsLeft
    case-IsLeft (ok rows, t) drops keeps = keeps rows refl
    case-IsLeft (err e, t) drops keeps = drops e refl

    if-IsLeft :
        (b : Bool) → IsLeft b (query_if st d b sql params s).0 s (query_if st d b sql params s).1
    unfolding IsLeft query_if
    if-IsLeft false = refl
    if-IsLeft true = case-IsLeft (query_if st d true sql params s) failed-drops answered-keeps

  -- Where closing a client raises nothing, a query through the held client answers as the errors of
  -- `query` say of what the libraries do: the rows, or UpstreamUnavailableError; where the
  -- integration is disabled the client is left alone, after an answer one is held, and after a
  -- failure none.
  pub query_refines :
      (sql : String) (params : Option (Dict String)) (s : Slot C)
      → ((c : C) → d.close c ≡ returned tt)
      → ((query st d sql params s).0
          ≡ Spec.query st.clickhouse_enabled
              (λ e. d.exc_text (python e))
              (attempt d (connect_args st) s.held sql params))
        × IsLeft st.clickhouse_enabled (query st d sql params s).0 s (query st d sql params s).1
  unfolding query
  query_refines sql params s clean = (
    result_same clean sql params s.held s.made s.closed st.clickhouse_enabled,
    if-IsLeft sql params s st.clickhouse_enabled,
  )
