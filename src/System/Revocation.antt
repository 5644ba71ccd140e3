-- ===== src/System/Revocation.antt =====
-- A session that was revoked, by a logout or after a reuse of a token, over the runs of the service.
use ra_backend.Base.{
  ◌≡◌, ◌≢◌, refl, sym, subst, ◌+◌, String, true, Option, none, some, non_empty, inl, inr,
}
use ra_backend.Base.Dict
use ra_backend.Base.Keys.{select-AreUnique}
use ra_backend.Models.{UserSession}
use ra_backend.Models.Common.{Timestamp}
use ra_backend.Core.World.{World, text, Claims, returned}
use ra_backend.Core.Exec.{Tx, ok, begin}
use ra_backend.Core.Deps.{Principal, get_current_principal}
use ra_backend.Identity.Audit.{Context}
use ra_backend.Identity.Sessions.Rotation.{revoked_refuses_access}
use ra_backend.System.Lifecycle.{
  Phase, absent, live, revoked, Advances, stays, opens, ends, passes, phase, row_phase, rows_phase,
  sessions_refine_lifecycle,
}
use ra_backend.System.Keys.{HasKeys, lookups_stay_unambiguous}
use ra_backend.System.Runs.{Reach}

IsRevoked : Phase → Type 0
IsRevoked absent = ⊥
IsRevoked live = ⊥
IsRevoked revoked = Unit

IsRevoked-stays : (p q : Phase) → Advances p q → IsRevoked p → IsRevoked q
unfolding IsRevoked
IsRevoked-stays _ _ (stays p) h = h
IsRevoked-stays _ _ opens h = elim h [ ]
IsRevoked-stays _ _ ends h = tt
IsRevoked-stays _ _ passes h = tt

row_time : (o : Option Timestamp) → IsRevoked (row_phase o) → (t : Timestamp) × (o ≡ some t)
unfolding IsRevoked
row_time none h = elim h [ ]
row_time (some t) h = (t, refl)

abbrev anonymous : Context
anonymous = record { client_ip = none; user_agent = none; request_id = none }

module _ {T : Type 0} (w : World T) where
  -- Where the keys of the tables are unique and a session is revoked in what is committed: after
  -- any number of requests to any handlers and of jobs of the worker, a request with a token that
  -- decodes to claims with that session's id as `sid`, which is not empty, authenticates nobody.
  pub revocation_is_final :
      (s t : Tx) (id : String) (token : T) (claims : Claims)
      → HasKeys s.committed
      → phase id s.committed ≡ revoked
      → Reach w s t
      → w.jwt_decode (w.clock (t.draws + 1)) token w.settings.jwt_secret w.settings.jwt_algorithm
        ≡ returned claims
      → Dict.get claims "sid" ≡ some (text id)
      → non_empty id ≡ true
      → (p : Principal) → (get_current_principal w (some token) (begin w t)).0 ≢ ok p
  unfolding IsRevoked
  revocation_is_final s t id token claims keys over reach decodes bound named p =
      let after : IsRevoked (phase id t.committed) =
        IsRevoked-stays (phase id s.committed) (phase id t.committed)
          (sessions_refine_lifecycle w id s t reach) (subst IsRevoked (sym over) tt) in
      elim (select-AreUnique (λ (x : UserSession). x.id) id t.committed.sessions
        (lookups_stay_unambiguous w s t keys reach).0.session_ids) [
          | inl gone ↦ elim (subst (λ rows. IsRevoked (rows_phase rows)) gone after) [ ]
          | inr (x, found) ↦
              let (time, e) =
                row_time x.revoked_at (subst (λ rows. IsRevoked (rows_phase rows)) found after) in
              revoked_refuses_access w anonymous token (begin w t) claims id x decodes bound named
                found e p
        ]
