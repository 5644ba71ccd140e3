-- ===== src/System/Lifecycle.antt =====
-- The life of a session over the runs of the service: an abstract machine of three phases that the
-- rows of `sessions` implement.
use ra_backend.Base.{
  ◌≡◌, refl, sym, subst, ◌⊎◌, inl, inr, String, Bool, true, false, Option, none, some, List, [],
  ◌∷◌, ◌++◌, select, modify, select-append, select-modify, if◌then◌else◌,
}
use ra_backend.Models.{Db, UserSession}
use ra_backend.Models.Common.{Timestamp}
use ra_backend.Core.World.{World}
use ra_backend.Core.Exec.{Tx}
use ra_backend.Identity.Rows.{session_is}
use ra_backend.System.Stable.{IsStable, Outlives}
use ra_backend.System.Runs.{Reach}
use ra_backend.System.Runs.Kept.{reach-keeps}

pub data Phase : Type 0 where
  absent live revoked : Phase

-- A session is opened, and revoked; it is never live again, and never removed.
pub data Advances : Phase → Phase → Type 0 where
  stays : (p : Phase) → Advances p p
  opens : Advances absent live
  ends : Advances live revoked
  passes : Advances absent revoked

Advances-trans : (p q r : Phase) → Advances p q → Advances q r → Advances p r
Advances-trans _ _ _ (stays p) h = h
Advances-trans _ _ _ opens (stays _) = opens
Advances-trans _ _ _ opens ends = passes
Advances-trans _ _ _ ends (stays _) = ends
Advances-trans _ _ _ passes (stays _) = passes

abbrev pub row_phase : Option Timestamp → Phase
row_phase none = live
row_phase (some t) = revoked

abbrev pub rows_phase : List UserSession → Phase
rows_phase [] = absent
rows_phase (x ∷ r) = row_phase x.revoked_at

-- The phase of the session with an id.
abbrev pub phase : String → Db → Phase
phase id db = rows_phase (select (session_is id) db.sessions)

row-Advances :
    (old new : Option Timestamp)
    → (new ≡ old) ⊎ ((t : Timestamp) × (new ≡ some t))
    → Advances (row_phase old) (row_phase new)
row-Advances old new (inl e) = rw e (stays (row_phase old))
row-Advances none new (inr (t, e)) = rw e ends
row-Advances (some u) new (inr (t, e)) = rw e (stays revoked)

absent-Advances : (p : Phase) → Advances absent p
absent-Advances absent = stays absent
absent-Advances live = opens
absent-Advances revoked = passes

append-Advances : (xs ys : List UserSession) → Advances (rows_phase xs) (rows_phase (xs ++ ys))
append-Advances [] ys = absent-Advances (rows_phase ys)
append-Advances (x ∷ xs) ys = stays (row_phase x.revoked_at)

if_Advances :
    (b : Bool) (x y : UserSession)
    → Outlives x y
    → Advances (row_phase x.revoked_at) (row_phase (if b then y else x).revoked_at)
if_Advances true x y h = row-Advances x.revoked_at y.revoked_at h.1
if_Advances false x y h = stays (row_phase x.revoked_at)

modify-Advances :
    (q : UserSession → Bool) (f : UserSession → UserSession)
    → ((x : UserSession) → Outlives x (f x))
    → (xs : List UserSession) → Advances (rows_phase xs) (rows_phase (modify q f xs))
modify-Advances q f outlives [] = stays absent
modify-Advances q f outlives (x ∷ xs) = if_Advances (q x) x (f x) (outlives x)

module _ (id : String) (from : Phase) where
  HasAdvanced : Db → Type 0
  HasAdvanced db = Advances from (phase id db)

  HasAdvanced-IsStable : IsStable HasAdvanced
  unfolding HasAdvanced
  HasAdvanced-IsStable = record {
    users_added = λ db u fresh p. p;
    users_changed = λ db i f keeps p. p;
    users_renamed = λ db i email f keeps fresh p. p;
    sessions_added = λ db x fresh p. Advances-trans from (phase id db) _ p (
        rw (select-append (session_is id) db.sessions (x ∷ []))
          (append-Advances (select (session_is id) db.sessions) _));
    sessions_changed = λ db i f outlives p. Advances-trans from (phase id db) _ p (
        rw
          (select-modify (session_is id) (session_is i) f (λ x. rw (outlives x).0 refl) db.sessions)
          (modify-Advances (session_is i) f outlives (select (session_is id) db.sessions)));
    roles_added = λ db r fresh p. p;
    roles_changed = λ db i f keeps p. p;
    audit_added = λ db a p. p;
    others_changed = λ db db' roles users sessions logs p.
        subst (λ (xs : List UserSession). Advances from (rows_phase (select (session_is id) xs)))
          (sym sessions) p;
  }

module _ {T : Type 0} (w : World T) where
  -- Over any run of requests and jobs the rows of a session id implement a machine of three phases,
  -- absent, live and revoked: the committed session goes from absent to live or revoked and from
  -- live to revoked, and never back, whoever calls.
  pub sessions_refine_lifecycle :
      (id : String) (s t : Tx)
      → Reach w s t
      → Advances (phase id s.committed) (phase id t.committed)
  unfolding HasAdvanced
  sessions_refine_lifecycle id s t reach =
      reach-keeps w (HasAdvanced id (phase id s.committed))
        (HasAdvanced-IsStable id (phase id s.committed)) s t reach (stays (phase id s.committed))
