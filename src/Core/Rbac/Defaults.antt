-- ===== src/Core/Rbac/Defaults.antt =====
-- What the default matrices allow.
use ra_backend.Base.{
  ℕ, ◌≤◌, String, true, ◌≡◌, refl, ◌⊎◌, inl, inr, arith, eq_iff, ◌==◌, Bool-cases,
}
use ra_backend.Core.Rbac.{
  PermAction, view, edit, RoleSlug, admin, ra_lead, analyst, viewer, PermKey, dashboard, reports,
  workbench, case_management, pipelines, user_management, role_management, settings, slug_text,
  full, default_permissions_for, has_permission,
}

pub has_permission-full : (k : PermKey) (a : PermAction) → has_permission full k a ≡ true
unfolding has_permission full
has_permission-full dashboard view = refl
has_permission-full dashboard edit = refl
has_permission-full reports view = refl
has_permission-full reports edit = refl
has_permission-full workbench view = refl
has_permission-full workbench edit = refl
has_permission-full case_management view = refl
has_permission-full case_management edit = refl
has_permission-full pipelines view = refl
has_permission-full pipelines edit = refl
has_permission-full user_management view = refl
has_permission-full user_management edit = refl
has_permission-full role_management view = refl
has_permission-full role_management edit = refl
has_permission-full settings view = refl
has_permission-full settings edit = refl

-- A role id is one of the four slugs, or it is not among the defaults.
pub known_or_unknown :
    (role : String)
    → ((s : RoleSlug) × (role ≡ slug_text s)) ⊎ (default_permissions_for role ≡ full)
unfolding default_permissions_for
known_or_unknown role = elim (Bool-cases ("admin" == role)) [
  | inl e ↦ inl (admin, ground (arith, eq_iff "admin" role))
  | inr n₁ ↦ elim (Bool-cases ("ra_lead" == role)) [
    | inl e ↦ inl (ra_lead, ground (arith, eq_iff "ra_lead" role))
    | inr n₂ ↦ elim (Bool-cases ("analyst" == role)) [
      | inl e ↦ inl (analyst, ground (arith, eq_iff "analyst" role))
      | inr n₃ ↦ elim (Bool-cases ("viewer" == role)) [
        | inl e ↦ inl (viewer, ground (arith, eq_iff "viewer" role))
        | inr n₄ ↦ inr (rw (n₁, n₂, n₃, n₄))
      ]
    ]
  ]
]

-- The order of the roles, from the reader to the administrator.
abbrev pub rank : RoleSlug → ℕ
rank viewer = 0
rank analyst = 1
rank ra_lead = 2
rank admin = 3

slug_edit_view :
    (s : RoleSlug) (k : PermKey)
    → has_permission (default_permissions_for (slug_text s)) k edit ≡ true
    → has_permission (default_permissions_for (slug_text s)) k view ≡ true
unfolding has_permission default_permissions_for
slug_edit_view admin dashboard h = refl
slug_edit_view _ _ h = ground arith

-- In the default matrix of every role id, known or not, a key that may be edited may be viewed.
default_edit_view :
    (role : String) (k : PermKey)
    → has_permission (default_permissions_for role) k edit ≡ true
    → has_permission (default_permissions_for role) k view ≡ true
default_edit_view role k h = elim (known_or_unknown role) [
  | inl (s, e) ↦ rw e (slug_edit_view s k (rw e at h))
  | inr e ↦ rw e (has_permission-full k view)
]

analyst_of_viewer :
    (k : PermKey) (a : PermAction)
    → has_permission (default_permissions_for (slug_text viewer)) k a ≡ true
    → has_permission (default_permissions_for (slug_text analyst)) k a ≡ true
unfolding has_permission default_permissions_for
analyst_of_viewer dashboard view h = refl
analyst_of_viewer _ view h = ground arith
analyst_of_viewer _ edit h = ground arith

ra_lead_of_analyst :
    (k : PermKey) (a : PermAction)
    → has_permission (default_permissions_for (slug_text analyst)) k a ≡ true
    → has_permission (default_permissions_for (slug_text ra_lead)) k a ≡ true
unfolding has_permission default_permissions_for
ra_lead_of_analyst dashboard view h = refl
ra_lead_of_analyst _ view h = ground arith
ra_lead_of_analyst _ edit h = ground arith

admin_of_ra_lead :
    (k : PermKey) (a : PermAction)
    → has_permission (default_permissions_for (slug_text ra_lead)) k a ≡ true
    → has_permission (default_permissions_for (slug_text admin)) k a ≡ true
unfolding has_permission default_permissions_for
admin_of_ra_lead dashboard view h = refl
admin_of_ra_lead _ view h = ground arith
admin_of_ra_lead _ edit h = ground arith

-- Among viewer, analyst, lead and administrator, in this order, whatever the default matrix of one
-- allows is allowed by the default matrix of every later one.
default_rank_mono :
    (s t : RoleSlug) (k : PermKey) (a : PermAction)
    → rank s ≤ rank t
    → has_permission (default_permissions_for (slug_text s)) k a ≡ true
    → has_permission (default_permissions_for (slug_text t)) k a ≡ true
default_rank_mono viewer viewer k a r h = h
default_rank_mono viewer analyst k a r h = analyst_of_viewer k a h
default_rank_mono viewer ra_lead k a r h = ra_lead_of_analyst k a (analyst_of_viewer k a h)
default_rank_mono viewer admin k a r h =
    admin_of_ra_lead k a (ra_lead_of_analyst k a (analyst_of_viewer k a h))
default_rank_mono analyst analyst k a r h = h
default_rank_mono analyst ra_lead k a r h = ra_lead_of_analyst k a h
default_rank_mono analyst admin k a r h = admin_of_ra_lead k a (ra_lead_of_analyst k a h)
default_rank_mono ra_lead ra_lead k a r h = h
default_rank_mono ra_lead admin k a r h = admin_of_ra_lead k a h
default_rank_mono admin admin k a r h = h
default_rank_mono _ _ k a r h = absurd (omega arith)

slug_manages_users :
    (s : RoleSlug) (a : PermAction)
    → (has_permission (default_permissions_for (slug_text s)) user_management a ≡ true)
      ⊎ (has_permission (default_permissions_for (slug_text s)) role_management a ≡ true)
    → default_permissions_for (slug_text s) ≡ full
unfolding has_permission default_permissions_for
slug_manages_users admin view h = refl
slug_manages_users _ _ h = ground arith

-- A role id whose default matrix grants viewing or editing of users or of roles has the full
-- default matrix.
manages_users_full :
    (role : String) (a : PermAction)
    → (has_permission (default_permissions_for role) user_management a ≡ true)
      ⊎ (has_permission (default_permissions_for role) role_management a ≡ true)
    → default_permissions_for role ≡ full
manages_users_full role a h = elim (known_or_unknown role) [
  | inl (s, e) ↦ rw e (slug_manages_users s a (rw e at h))
  | inr e ↦ e
]
