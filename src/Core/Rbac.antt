-- ===== src/Core/Rbac.antt =====
-- app/core/rbac.py: permission keys, the default matrices of the roles, and the permission test.
pub mod Defaults
use ra_backend.Base.{String, Bool, true, false, Option, none, some, List, [], ◌∷◌, map}
use ra_backend.Base.Dict
use ra_backend.Base.Dict.{Dict}
use ra_backend.Models.{PermissionMap}

pub data PermAction : Type 0 where
  view edit : PermAction

pub data RoleSlug : Type 0 where
  admin ra_lead analyst viewer : RoleSlug

pub data PermKey : Type 0 where
  dashboard reports workbench case_management pipelines : PermKey
  user_management role_management settings : PermKey

abbrev pub action_text : PermAction → String
action_text view = "view"
action_text edit = "edit"

abbrev pub slug_text : RoleSlug → String
slug_text admin = "admin"
slug_text ra_lead = "ra_lead"
slug_text analyst = "analyst"
slug_text viewer = "viewer"

abbrev pub key_text : PermKey → String
key_text dashboard = "dashboard"
key_text reports = "reports"
key_text workbench = "workbench"
key_text case_management = "caseManagement"
key_text pipelines = "pipelines"
key_text user_management = "userManagement"
key_text role_management = "roleManagement"
key_text settings = "settings"

abbrev pub perm_keys : List PermKey
perm_keys =
    dashboard ∷ reports ∷ workbench ∷ case_management ∷ pipelines ∷ user_management
    ∷ role_management ∷ settings ∷ []

abbrev pub role_labels : Dict String
role_labels =
    (slug_text admin, "Administrator")
    ∷ (slug_text ra_lead, "RA Manager")
    ∷ (slug_text analyst, "RA Analyst")
    ∷ (slug_text viewer, "Report Viewer")
    ∷ []

-- `key: {"view": v, "edit": e}`
abbrev entry : Bool → Bool → PermKey → String × Dict Bool
entry v e k = (key_text k, ("view", v) ∷ ("edit", e) ∷ [])

-- `_full`
unfoldable pub full : PermissionMap
full = map (entry true true) perm_keys

ra_lead_permissions : PermissionMap
ra_lead_permissions =
    entry true true dashboard
    ∷ entry true true reports
    ∷ entry true true workbench
    ∷ entry true true case_management
    ∷ entry true true pipelines
    ∷ entry false false user_management
    ∷ entry false false role_management
    ∷ entry true false settings
    ∷ []

analyst_permissions : PermissionMap
analyst_permissions =
    entry true false dashboard
    ∷ entry true false reports
    ∷ entry true true workbench
    ∷ entry true true case_management
    ∷ entry true false pipelines
    ∷ entry false false user_management
    ∷ entry false false role_management
    ∷ entry false false settings
    ∷ []

viewer_permissions : PermissionMap
viewer_permissions =
    entry true false dashboard
    ∷ entry true false reports
    ∷ entry false false workbench
    ∷ entry false false case_management
    ∷ entry true false pipelines
    ∷ entry false false user_management
    ∷ entry false false role_management
    ∷ entry false false settings
    ∷ []

unfoldable pub default_role_permissions : Dict PermissionMap
unfolding full ra_lead_permissions analyst_permissions viewer_permissions
default_role_permissions =
    (slug_text admin, full)
    ∷ (slug_text ra_lead, ra_lead_permissions)
    ∷ (slug_text analyst, analyst_permissions)
    ∷ (slug_text viewer, viewer_permissions)
    ∷ []

-- `d.get(k, default)`
or_default : Option PermissionMap → PermissionMap → PermissionMap
or_default none d = d
or_default (some p) d = p

unfoldable pub default_permissions_for : String → PermissionMap
unfolding default_role_permissions Dict.get or_default
default_permissions_for role = or_default (Dict.get default_role_permissions role) full

allowed : Option Bool → Bool
allowed none = false
allowed (some b) = b

entry_allows : Option (Dict Bool) → PermAction → Bool
unfolding Dict.get allowed
entry_allows none a = false
entry_allows (some e) a = allowed (Dict.get e (action_text a))

-- An empty entry is falsy in Python, and allows nothing here either.
unfoldable pub has_permission : PermissionMap → PermKey → PermAction → Bool
unfolding Dict.get entry_allows
has_permission perms key action = entry_allows (Dict.get perms (key_text key)) action
