-- ===== src/System/Keys.antt =====
-- The primary keys and the emails over the runs of the service, and what they give to the look-ups
-- of app/core/deps.py.
use ra_backend.Base.{
  arith, ◌≡◌, refl, sym, subst, String, Bool, false, ◌||◌, List, [], ◌∷◌, ◌==◌, select, exists, inl,
  inr, Option, some, none,
}
use ra_backend.Base.Keys.{
  AreUnique, AreUnique-append, AreUnique-modify, AreUnique-rename, select-AreUnique,
}
use ra_backend.Models.{Db, Role, User, UserSession}
use ra_backend.Core.World.{World}
use ra_backend.Core.Exec.{Tx, Result, ok, begin, at_most_one}
use ra_backend.Core.Deps.{find_user, find_role, find_session}
use ra_backend.System.Stable.{IsStable}
use ra_backend.System.Runs.{Reach}
use ra_backend.System.Runs.Kept.{reach-keeps}

pub record HasKeys (db : Db) : Type 0 where
  pub user_ids : AreUnique (λ (u : User). u.id) db.users
  pub emails : AreUnique (λ (u : User). u.email) db.users
  pub session_ids : AreUnique (λ (x : UserSession). x.id) db.sessions
  pub role_ids : AreUnique (λ (r : Role). r.id) db.roles

module _ {A : Type 0} (p q : A → Bool) where
  exists-or_left : (xs : List A) → exists (λ x. p x || q x) xs ≡ false → exists p xs ≡ false
  exists-or_left [] h = refl
  exists-or_left (x ∷ xs) h = ground (arith, exists-or_left xs)

  exists-or_right : (xs : List A) → exists (λ x. p x || q x) xs ≡ false → exists q xs ≡ false
  exists-or_right [] h = refl
  exists-or_right (x ∷ xs) h = ground (arith, exists-or_right xs)

HasKeys-IsStable : IsStable HasKeys
HasKeys-IsStable = record {
  users_added = λ db u fresh h. record {
    user_ids =
        AreUnique-append (λ (v : User). v.id) u db.users
          (exists-or_left (λ v. v.id == u.id) (λ v. v.email == u.email) db.users fresh) h.user_ids;
    emails =
        AreUnique-append (λ (v : User). v.email) u db.users
          (exists-or_right (λ v. v.id == u.id) (λ v. v.email == u.email) db.users fresh) h.emails;
    session_ids = h.session_ids;
    role_ids = h.role_ids;
  };
  users_changed = λ db i f keeps h. record {
    user_ids = AreUnique-modify (λ (v : User). v.id) _ f (λ u. (keeps u).0) db.users h.user_ids;
    emails = AreUnique-modify (λ (v : User). v.email) _ f (λ u. (keeps u).1) db.users h.emails;
    session_ids = h.session_ids;
    role_ids = h.role_ids;
  };
  users_renamed = λ db i email f keeps fresh h. record {
    user_ids = AreUnique-modify (λ (v : User). v.id) _ f (λ u. (keeps u).0) db.users h.user_ids;
    emails =
        AreUnique-rename (λ (v : User). v.id) (λ (v : User). v.email) i email f (λ u. (keeps u).0)
          (λ u. (keeps u).1) db.users h.user_ids fresh h.emails;
    session_ids = h.session_ids;
    role_ids = h.role_ids;
  };
  sessions_added = λ db x fresh h. record {
    user_ids = h.user_ids;
    emails = h.emails;
    session_ids =
        AreUnique-append (λ (y : UserSession). y.id) x db.sessions
          (exists-or_left (λ y. y.id == x.id) (λ y. y.refresh_jti == x.refresh_jti) db.sessions
            fresh)
          h.session_ids;
    role_ids = h.role_ids;
  };
  sessions_changed = λ db i f outlives h. record {
    user_ids = h.user_ids;
    emails = h.emails;
    session_ids =
        AreUnique-modify (λ (y : UserSession). y.id) _ f (λ x. (outlives x).0) db.sessions
          h.session_ids;
    role_ids = h.role_ids;
  };
  roles_added = λ db r fresh h. record {
    user_ids = h.user_ids;
    emails = h.emails;
    session_ids = h.session_ids;
    role_ids = AreUnique-append (λ (q : Role). q.id) r db.roles fresh h.role_ids;
  };
  roles_changed = λ db i f keeps h. record {
    user_ids = h.user_ids;
    emails = h.emails;
    session_ids = h.session_ids;
    role_ids = AreUnique-modify (λ (q : Role). q.id) _ f keeps db.roles h.role_ids;
  };
  audit_added = λ db a h. record {
    user_ids = h.user_ids;
    emails = h.emails;
    session_ids = h.session_ids;
    role_ids = h.role_ids;
  };
  others_changed = λ db db' roles users sessions logs h. record {
    user_ids = subst (AreUnique (λ (u : User). u.id)) (sym users) h.user_ids;
    emails = subst (AreUnique (λ (u : User). u.email)) (sym users) h.emails;
    session_ids = subst (AreUnique (λ (x : UserSession). x.id)) (sym sessions) h.session_ids;
    role_ids = subst (AreUnique (λ (r : Role). r.id)) (sym roles) h.role_ids;
  };
}

-- `scalar_one_or_none()` on the rows with a key does not raise.
abbrev pub AnswersOnce : {A : Type 0} → Result (Option A) → Type 0
AnswersOnce {A = A} r = (o : Option A) × (r ≡ ok o)

module _ {A : Type 0} (key : A → String) where
  one_at_most :
      (k : String) (xs : List A)
      → AreUnique key xs
      → AnswersOnce (at_most_one (select (λ y. key y == k) xs))
  one_at_most k xs h = elim (select-AreUnique key k xs h) [
    | inl none_there ↦ (none, rw none_there refl)
    | inr (x, found) ↦ (some x, rw found refl)
  ]

module _ {T : Type 0} (w : World T) where
  -- Where the ids and emails of users, the ids of sessions and the ids of roles are unique in what
  -- is committed, they are so after any run of requests and jobs, and the look-up of a user, a
  -- session or a role by any id never meets more than one row.
  pub lookups_stay_unambiguous :
      (s t : Tx)
      → HasKeys s.committed
      → Reach w s t
      → HasKeys t.committed
        × ((id : String)
            → AnswersOnce (find_user id (begin w t)).0
              × AnswersOnce (find_session id (begin w t)).0
              × AnswersOnce (find_role id (begin w t)).0)
  lookups_stay_unambiguous s t keys reach =
      let after = reach-keeps w HasKeys HasKeys-IsStable s t reach keys in
      (
        after,
        λ id. (
          one_at_most (λ (u : User). u.id) id t.committed.users after.user_ids,
          one_at_most (λ (x : UserSession). x.id) id t.committed.sessions after.session_ids,
          one_at_most (λ (r : Role). r.id) id t.committed.roles after.role_ids,
        ),
      )
