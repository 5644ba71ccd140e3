-- ===== src/Identity/Sessions/Access.antt =====
-- An access token that the service issued is accepted while its user and its session are good.
use ra_backend.Base.{◌+◌, ◌≤◌, String, true, false, some, [], ◌∷◌, ◌≡◌, refl, non_empty, select}
use ra_backend.Base.Dict
use ra_backend.Models.{Role, User, UserSession, is_active}
use ra_backend.Models.Common.{Timestamp}
use ra_backend.Core.World.{World, minutes, second}
use ra_backend.Core.Exec.{Tx, ok}
use ra_backend.Core.Tokens.{encode, access_claims}
use ra_backend.Core.Tokens.Laws.{JwtLaws, timestamp_window}
use ra_backend.Core.Deps.{is_dead, get_current_principal}
use ra_backend.Identity.Rows.{user_is, role_is}
use ra_backend.Identity.Sessions.{access_extra}
use ra_backend.Identity.Sessions.Refresh.{session_row}

module _ {T : Type 0} (w : World T) where
  abbrev pub issued_access : User → String → Timestamp → T
  issued_access user sid now = encode w (
      access_claims user.id (some (access_extra user sid)) now
        (now + minutes w.settings.access_token_expire_minutes))

  -- Where PyJWT decodes what it encoded, an access token that was issued for a session is accepted
  -- until a second before its end, while its user is active, its session is not dead and the user's
  -- role exists: the caller is that user, with the permissions that the role has now.
  pub issued_access_is_accepted :
      JwtLaws w
      → (s : Tx) (issued : User) (user : User) (role : Role) (session : UserSession) (sid : String)
        (now : Timestamp)
      → now ≤ w.clock s.draws
      → w.clock s.draws + second ≤ now + minutes w.settings.access_token_expire_minutes
      → non_empty (w.token_text (issued_access issued sid now)) ≡ true
      → non_empty issued.id ≡ true
      → non_empty sid ≡ true
      → select (user_is issued.id) s.current.users ≡ user ∷ []
      → is_active user ≡ true
      → session_row sid s.current ≡ session ∷ []
      → is_dead (w.clock (s.draws + 1)) (some session) ≡ false
      → select (role_is user.role_id) s.current.roles ≡ role ∷ []
      → (get_current_principal w (some (issued_access issued sid now)) s).0
        ≡ ok (record {
          id = user.id;
          email = user.email;
          full_name = user.full_name;
          role = user.role_id;
          permissions = role.permissions;
          session_id = some sid;
          must_reset_password = user.must_reset_password;
        })
  unfolding get_current_principal Dict.update
  issued_access_is_accepted laws s issued user role session sid now from until sent named bound
        owner active found alive joined =
      let window =
        timestamp_window now w.settings.access_token_expire_minutes (w.clock s.draws) from in
      rw (
        sent,
        laws.decode-encode
            (access_claims issued.id (some (access_extra issued sid)) now
              (now + minutes w.settings.access_token_expire_minutes))
            issued.id _ _ _
            (record { sub_claim = refl; iat_claim = refl; exp_claim = refl; jti_claim = λ k e. cc })
            window.0 (window.1 until),
        named,
        owner,
        active,
        bound,
        found,
        alive,
        joined,
      )
