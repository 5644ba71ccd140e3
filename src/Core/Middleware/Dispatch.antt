-- ===== src/Core/Middleware/Dispatch.antt =====
-- app/core/middleware.py: `RequestContextMiddleware.dispatch`. The rest of the application, which
-- answers the request, is a parameter, and so is the reading of the timer.
use ra_backend.Base.{ℕ, String, true, false, Option, none, some, List, [], ◌∷◌, ◌++◌, truthy}
use ra_backend.Base.Decimal.{str}
use ra_backend.Base.Dict.{Dict, put}
use ra_backend.Models.Common.{Float}
use ra_backend.Core.Errors.{Exc}
use ra_backend.Core.Logging.{Vars, Entry, text, number, double, logged}
use ra_backend.Core.Middleware.{client_ip}

pub record Request : Type 0 where
  pub method : String
  pub url_path : String
  -- the path of `scope["route"]`, where the scope has a route when the middleware reads it
  pub route_path : Option String
  pub x_request_id : Option String
  pub x_forwarded_for : Option String
  pub user_agent : Option String
  pub client_host : Option String

-- The names of the headers are kept in one spelling.
pub record Response : Type 0 where
  pub status_code : ℕ
  pub headers : Dict String

-- How the rest of the application ends: with a response, with an `Exception`, or cancelled by an
-- exception that is none.
pub data End : Type 0 where
  responded : Response → End
  failed : Exc → End
  cancelled : End

-- The process: the context variables, `REQUEST_COUNT` as the labels that were counted,
-- `REQUEST_LATENCY` as what was observed, and the log with its level.
pub record Site : Type 0 where
  pub vars : Vars
  pub counted : List (String × String × String)
  pub observed : List (String × String × Float)
  pub level : ℕ
  pub log : List Entry

-- `request.headers.get("X-Request-ID") or uuid.uuid4().hex`
abbrev pub rid_of : Option String → String → String
rid_of none fresh = fresh
rid_of (some given) fresh = elim (truthy (some given)) [ true ↦ given | false ↦ fresh ]

-- `getattr(route, "path", request.url.path)`
abbrev pub path_label : Request → String
path_label q = elim q.route_path [ none ↦ q.url_path | some path ↦ path ]

-- The context variables are set.
unfoldable pub entered : String → Request → Site → Site
unfolding client_ip
entered rid q s = record s {
  vars = record {
    request_id = some rid;
    client_ip = client_ip q.x_forwarded_for q.client_host;
    user_agent = q.user_agent;
  };
}

-- `finally`: the variables are reset to what they were.
abbrev reset : Vars → Site → Site
reset old s = record s { vars = old }

-- `elapsed` and `round(elapsed * 1000, 2)`
pub record Timing : Type 0 where
  pub elapsed : Float
  pub duration_ms : Float

unfoldable pub on_exception : Timing → Request → Site → Site
unfolding logged
on_exception t q s = record s {
  counted = s.counted ++ (q.method, path_label q, "500") ∷ [];
  log =
      logged s.level s.vars 40 "request_failed"
        (("method", text q.method)
          ∷ ("path", text q.url_path)
          ∷ ("duration_ms", double t.duration_ms)
          ∷ [])
        s.log;
}

unfoldable pub on_response : Timing → Request → Response → Site → Site
unfolding logged
on_response t q r s = record s {
  observed = s.observed ++ (q.method, path_label q, t.elapsed) ∷ [];
  counted = s.counted ++ (q.method, path_label q, str r.status_code) ∷ [];
  log =
      logged s.level s.vars 20 "request"
        (("method", text q.method)
          ∷ ("path", text q.url_path)
          ∷ ("status", number r.status_code)
          ∷ ("duration_ms", double t.duration_ms)
          ∷ [])
        s.log;
}

abbrev with_request_id : String → Response → Response
with_request_id rid r = record r { headers = put r.headers "X-Request-ID" rid }

-- What follows the rest of the application, where `old` are the variables before it.
unfoldable pub concluded : Timing → Request → String → Vars → End × Site → End × Site
unfolding on_exception on_response put
concluded t q rid old (failed e, s) = (failed e, reset old (on_exception t q s))
concluded t q rid old (cancelled, s) = (cancelled, reset old s)
concluded t q rid old (responded r, s) =
    (responded (with_request_id rid r), on_response t q r (reset old s))

-- `fresh` is `uuid.uuid4().hex`.
unfoldable pub dispatch : (Site → End × Site) → Timing → String → Request → Site → End × Site
unfolding entered concluded
dispatch call_next t fresh q s =
    let rid = rid_of q.x_request_id fresh in concluded t q rid s.vars (call_next (entered rid q s))
