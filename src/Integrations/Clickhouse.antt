-- ===== src/Integrations/Clickhouse.antt =====
-- app/integrations/clickhouse.py: `query`, where what the client does is given, and what callers make
-- of a ClickHouse that is not there. Client: the client itself; Pool: what holds of it.
pub mod Client
pub mod Ident
pub mod Pool
use ra_backend.Base.{ℕ, Option, none, some, String, Bool, true, false, [], ◌∷◌}
use ra_backend.Core.Errors.{Exc, PyError, app, upstream_unavailable}
use ra_backend.Core.World.{Outcome, returned, raised}
use ra_backend.Core.Exec.{Exec, Result, ok, err, raise}

-- The rows, or UpstreamUnavailableError whatever went wrong; `text` is `str` of the exception.
unfoldable pub query : {A : Type 0} → Bool → (PyError → String) → Outcome A → Result A
query false text o = err (app upstream_unavailable "ClickHouse integration is disabled." [])
query true text (returned rows) = ok rows
query true text (raised e) =
    err (app upstream_unavailable "ClickHouse query failed." (("reason", text e) ∷ []))

-- `int(value or 0)` of a column
abbrev pub int_or_zero : Option ℕ → ℕ
int_or_zero none = 0
int_or_zero (some n) = n

-- `except UpstreamUnavailableError`
abbrev pub on_upstream : {A : Type 0} → Exec A → Exc → Exec A
on_upstream k (app upstream_unavailable message d) = k
on_upstream k e = raise e
