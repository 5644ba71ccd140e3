-- ===== src/Core/Middleware/Laws.antt =====
-- What a request leaves behind in the process: the context variables, the metrics and the log.
use ra_backend.Base.{
  ℕ, ◌≤◌, String, true, none, some, List, [], ◌∷◌, ◌++◌, ◌≡◌, refl, ap, arith, le→leb, truthy,
}
use ra_backend.Base.Decimal.{str}
use ra_backend.Base.Dict.{get, get-put}
use ra_backend.Core.Logging.{Vars, Entry, text, logged, add_request_id, put_if}
use ra_backend.Core.Middleware.Dispatch.{
  Request, Response, End, responded, failed, cancelled, Site, Timing, rid_of, path_label, entered,
  on_exception, on_response, concluded, dispatch,
}

logged_when :
    (threshold level : ℕ) (vars : Vars) (event : String) (fields : Entry) (log : List Entry)
    → threshold ≤ level
    → logged threshold vars level event fields log
      ≡ log ++ add_request_id vars (("event", text event) ∷ fields) ∷ []
unfolding logged
logged_when threshold level vars event fields log h = rw (logged, le→leb threshold level h) refl

untraced : (vars : Vars) (e : Entry) → vars.request_id ≡ none → add_request_id vars e ≡ e
unfolding add_request_id put_if
untraced vars e h = rw h refl

traced :
    (vars : Vars) (e : Entry) (rid : String)
    → vars.request_id ≡ some rid
    → truthy (some rid) ≡ true
    → get (add_request_id vars e) "request_id" ≡ some (text rid)
unfolding add_request_id put_if
traced vars e rid h filled = rw (h, filled) (get-put e "request_id" "request_id" (text rid))

-- What a request leaves in the metrics, from how the rest of the application ended to how the
-- request ended: a response is counted with its status, timed, and given the request's id; an
-- exception is counted as a 500; a request that is cancelled is not counted.
pub IsAccounted : Timing → String → Request → End × Site → End × Site → Type 0
IsAccounted t rid q (responded r, i) (e, f) =
    (b : Response) × (e ≡ responded b)
    × (b.status_code ≡ r.status_code)
    × (get b.headers "X-Request-ID" ≡ some rid)
    × (f.counted ≡ i.counted ++ (q.method, path_label q, str r.status_code) ∷ [])
    × (f.observed ≡ i.observed ++ (q.method, path_label q, t.elapsed) ∷ [])
IsAccounted t rid q (failed x, i) (e, f) =
    (e ≡ failed x)
    × (f.counted ≡ i.counted ++ (q.method, path_label q, "500") ∷ [])
    × (f.observed ≡ i.observed)
IsAccounted t rid q (cancelled, i) (e, f) =
    (e ≡ cancelled) × (f.counted ≡ i.counted) × (f.observed ≡ i.observed)

-- What it leaves in the log: one entry, which has the request's id where the request failed, and
-- has none where it was answered.
pub IsLogged : String → End × Site → Site → Type 0
IsLogged rid (responded r, i) f =
    (e : Entry) × (f.log ≡ i.log ++ e ∷ []) × (get e "request_id" ≡ none)
IsLogged rid (failed x, i) f =
    (e : Entry) × (f.log ≡ i.log ++ e ∷ []) × (get e "request_id" ≡ some (text rid))
IsLogged rid (cancelled, i) f = f.log ≡ i.log

module _ (t : Timing) (q : Request) (rid : String) (old : Vars) where
  concluded-IsAccounted : (i : End × Site) → IsAccounted t rid q i (concluded t q rid old i)
  unfolding IsAccounted concluded on_exception on_response
  concluded-IsAccounted (responded r, i) =
      (_, refl, refl, get-put r.headers "X-Request-ID" "X-Request-ID" rid, refl, refl)
  concluded-IsAccounted (failed x, i) = (refl, refl, refl)
  concluded-IsAccounted (cancelled, i) = (refl, refl, refl)

  concluded_restores : (i : End × Site) → (concluded t q rid old i).1.vars ≡ old
  unfolding concluded
  concluded_restores (responded r, i) = refl
  concluded_restores (failed x, i) = refl
  concluded_restores (cancelled, i) = refl

  concluded-IsLogged :
      truthy (some rid) ≡ true
      → old.request_id ≡ none
      → (i : End × Site) → i.1.vars.request_id ≡ some rid
      → i.1.level ≤ 20
      → IsLogged rid i (concluded t q rid old i).1
  unfolding IsLogged concluded on_exception on_response get
  concluded-IsLogged filled outside (responded r, i) inside level = (
    _,
    logged_when i.level 20 old "request" _ i.log level,
    ap (λ e. get e "request_id") (untraced old _ outside),
  )
  concluded-IsLogged filled outside (failed x, i) inside level = (
    _,
    logged_when i.level 40 i.vars "request_failed" _ i.log (omega arith),
    traced i.vars _ rid inside filled,
  )
  concluded-IsLogged filled outside (cancelled, i) inside level = refl

module _ (call_next : Site → End × Site) (t : Timing) (fresh : String) (q : Request)
    (s : Site) where
  abbrev pub rid : String
  rid = rid_of q.x_request_id fresh

  -- What the rest of the application did.
  unfoldable pub inner : End × Site
  unfolding entered
  inner = call_next (entered rid q s)

  -- The middleware leaves the context variables as they were before the request, however it ends. A
  -- response goes on with its status and the request's id, is counted with that status and timed;
  -- an exception goes on and is counted as a 500; a cancelled request is not counted.
  pub dispatch-IsAccounted :
      ((dispatch call_next t fresh q s).1.vars ≡ s.vars)
      × IsAccounted t rid q inner (dispatch call_next t fresh q s)
  unfolding dispatch inner entered
  dispatch-IsAccounted =
      (concluded_restores t q rid s.vars inner, concluded-IsAccounted t q rid s.vars inner)

  rid_filled : truthy (some fresh) ≡ true → truthy (some rid) ≡ true
  rid_filled h = ground (arith, h)

  -- Where the fresh id is not empty, no request id is set outside the request and the request's own
  -- is set when the rest of the application ends, and the level of the log lets information
  -- through: a request that fails leaves one entry, with its id, and one that is answered leaves
  -- one entry without an id.
  pub dispatch-IsLogged :
      truthy (some fresh) ≡ true
      → s.vars.request_id ≡ none
      → inner.1.vars.request_id ≡ some rid
      → inner.1.level ≤ 20
      → IsLogged rid inner (dispatch call_next t fresh q s).1
  unfolding dispatch inner entered
  dispatch-IsLogged filled outside inside level =
      concluded-IsLogged t q rid s.vars (rid_filled filled) outside inner inside level
