-- ===== src/Examples/Sessions.antt =====
-- Sessions: a refresh and the replay of the old token, and a session that was revoked.
use ra_backend.Base.{
  ℕ, ◌+◌, ◌*◌, ◌≤◌, true, false, some, [], ◌∷◌, ◌≡◌, ◌≢◌, String, refl, arith, lt→ltb,
}
use ra_backend.Base.Dict
use ra_backend.Base.Text.{lower}
use ra_backend.Base.Decimal.{str}
use ra_backend.Models.{UserSession, is_active}
use ra_backend.Core.World.{second, minutes}
use ra_backend.Core.Exec.{ok, err}
use ra_backend.Core.Tokens.{encode, refresh_claims}
use ra_backend.Core.Deps.{Principal, unauthorized, is_dead, get_current_principal}
use ra_backend.Core.Rbac.{default_permissions_for}
use ra_backend.Identity.Sessions.Refresh.{IsRefreshToken, session_row}
use ra_backend.Identity.Sessions.Access.{issued_access, issued_access_is_accepted}
use ra_backend.Identity.Sessions.Rotation.{
  refresh_request, IsRefreshable, next_refresh_token, next_access_token, refresh_request_rotates,
  refresh_request-IsRefreshToken, replay_revokes,
}
use ra_backend.Examples.{
  Signed, a_world, a_world_jwt, a_context, a_role, a_state, ann, a_session, decode_signed,
}

abbrev pub ann_principal : Principal
ann_principal = record {
  id = "ann";
  email = "ann@x.org";
  full_name = "Ann Lee";
  role = "viewer";
  permissions = default_permissions_for "viewer";
  session_id = some "s1";
  must_reset_password = true;
}

-- The refresh token of the session, from before the first request
abbrev a_token : Signed
a_token = encode a_world (refresh_claims "ann" "s1" "j1" 0 1_900_000_000_000)

a_token-IsRefreshToken : (n : ℕ) → n ≤ 20 → IsRefreshToken a_world n a_token "s1" "j1"
unfolding Dict.get decode_signed
a_token-IsRefreshToken n le = record {
  claims = refresh_claims "ann" "s1" "j1" 0 1_900_000_000_000;
  decodes = rw (lt→ltb (a_world.clock n) (1_900_000 * second) (omega arith)) refl;
  kind = refl;
  sid_claim = refl;
  jti_claim = refl;
}

-- The session after the refresh
abbrev a_rotated_session : UserSession
a_rotated_session = record a_session {
  refresh_jti = a_world.uuid_hex 3;
  last_seen_at = some (a_world.clock 2);
  expires_at = a_world.clock 2 + minutes a_world.settings.refresh_token_expire_minutes;
  ip_address = a_context.client_ip;
}

a_state-IsRefreshable : IsRefreshable a_world a_context a_state a_token a_session ann
unfolding is_active is_dead lower str
a_state-IsRefreshable = record {
  presented = a_token-IsRefreshToken 1 (omega arith);
  found = refl;
  alive = refl;
  owner = refl;
  active = refl;
  fresh = refl;
}

refresh_request_rotates_example :
    let (r, s') = refresh_request a_world a_context a_token a_state in
    (r
      ≡ ok (
        next_access_token a_world a_context a_state a_session ann,
        next_refresh_token a_world a_context a_state a_session ann,
      ))
    × (session_row "s1" s'.committed ≡ a_rotated_session ∷ [])
    × ((other : String)
        → other ≢ "s1"
        → session_row other s'.committed ≡ session_row other a_state.committed)
    × (s'.draws ≡ 6)
refresh_request_rotates_example =
    refresh_request_rotates a_world a_context a_state a_token a_session ann a_state-IsRefreshable

refreshed :
    (refresh_request a_world a_context a_token a_state).0
    ≡ ok (
      next_access_token a_world a_context a_state a_session ann,
      next_refresh_token a_world a_context a_state a_session ann,
    )
refreshed =
    (refresh_request_rotates a_world a_context a_state a_token a_session ann
      a_state-IsRefreshable).0

refreshed_row :
    session_row "s1" (refresh_request a_world a_context a_token a_state).1.committed
    ≡ a_rotated_session ∷ []
refreshed_row =
    (refresh_request_rotates a_world a_context a_state a_token a_session ann
      a_state-IsRefreshable).1

refresh_request-IsRefreshToken_example :
    IsRefreshToken a_world 9
      (next_refresh_token a_world a_context a_state a_session ann)
      "s1"
      (a_world.uuid_hex 3)
refresh_request-IsRefreshToken_example =
    refresh_request-IsRefreshToken a_world a_context a_state a_token a_session ann
      a_state-IsRefreshable a_world_jwt (next_access_token a_world a_context a_state a_session ann)
      (next_refresh_token a_world a_context a_state a_session ann) a_rotated_session refreshed
      refreshed_row 9 (omega arith) (omega arith)

refreshed_draws : (refresh_request a_world a_context a_token a_state).1.draws ≡ 6
refreshed_draws =
    (refresh_request_rotates a_world a_context a_state a_token a_session ann
      a_state-IsRefreshable).3

still_alive :
    is_dead
      (a_world.clock ((refresh_request a_world a_context a_token a_state).1.draws + 1 + 1))
      (some a_rotated_session)
    ≡ false
unfolding is_dead
still_alive = rw refreshed_draws refl

-- The old token again
replay_revokes_example :
    let s' = (refresh_request a_world a_context a_token a_state).1 in
    let (r, s'') = refresh_request a_world a_context a_token s' in
    (r ≡ err (unauthorized "Refresh token reuse detected. Session revoked."))
    × (session_row "s1" s''.committed
        ≡ record a_rotated_session { revoked_at = some (a_world.clock (s'.draws + 1 + 1)) } ∷ [])
unfolding str
replay_revokes_example =
    replay_revokes a_world a_context a_state a_token a_session ann a_state-IsRefreshable a_token
      a_rotated_session refreshed_row (a_token-IsRefreshToken _ (omega (arith, refreshed_draws)))
      (λ e. cc) still_alive

issued_access_is_accepted_example :
    (get_current_principal a_world (some (issued_access a_world ann "s1" 900_000_000)) a_state).0
    ≡ ok ann_principal
unfolding is_active is_dead lower
issued_access_is_accepted_example =
    issued_access_is_accepted a_world a_world_jwt a_state ann ann a_role a_session "s1" 900_000_000
      (omega arith) (omega arith) refl refl refl refl refl refl refl refl
