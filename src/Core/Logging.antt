-- ===== src/Core/Logging.antt =====
-- app/core/logging.py: the context variables of a request, the level of the log, and what is added
-- to an entry. The rendering of entries is structlog's.
use ra_backend.Base.{
  ℕ, String, Bool, true, false, Option, none, some, List, [], ◌∷◌, ◌++◌, leb, truthy,
}
use ra_backend.Base.Dict.{Dict, get, put}
use ra_backend.Base.Text.{upper}
use ra_backend.Models.Common.{Float}

-- `request_id_ctx`, `client_ip_ctx` and `user_agent_ctx`
pub record Vars : Type 0 where
  pub request_id : Option String
  pub client_ip : Option String
  pub user_agent : Option String

-- The value of a field of an entry
pub data Field : Type 0 where
  text : String → Field
  number : ℕ → Field
  double : Float → Field

abbrev pub Entry : Type 0
Entry = Dict Field

-- The levels of the standard library's `logging`, by their names
abbrev levels : Dict ℕ
levels =
    ("CRITICAL", 50)
    ∷ ("FATAL", 50)
    ∷ ("ERROR", 40)
    ∷ ("WARNING", 30)
    ∷ ("WARN", 30)
    ∷ ("INFO", 20)
    ∷ ("DEBUG", 10)
    ∷ ("NOTSET", 0)
    ∷ []

abbrev or_info : Option ℕ → ℕ
or_info none = 20
or_info (some n) = n

-- `getattr(logging, level.upper(), logging.INFO)`, for the names that are levels
unfoldable pub log_level : String → ℕ
unfolding get upper
log_level level = or_info (get levels (upper level))

unfoldable pub put_if : Bool → Option String → Entry → Entry
unfolding put
put_if false rid e = e
put_if true none e = e
put_if true (some rid) e = put e "request_id" (text rid)

-- `_add_request_id`
unfoldable pub add_request_id : Vars → Entry → Entry
unfolding put_if put
add_request_id vars event_dict = put_if (truthy vars.request_id) vars.request_id event_dict

-- A line of the log, where its level is not below the level that was configured.
unfoldable pub logged : ℕ → Vars → ℕ → String → Entry → List Entry → List Entry
unfolding add_request_id
logged threshold vars level event fields log = elim (leb threshold level) [
  | true ↦ log ++ add_request_id vars (("event", text event) ∷ fields) ∷ []
  | false ↦ log
]
