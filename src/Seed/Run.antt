-- ===== src/Seed/Run.antt =====
-- app/seed.py: `seed`.
use ra_backend.Base.{
  String, Bool, false, true, Option, none, some, List, [], ◌∷◌, ◌++◌, ◌==◌, select,
}
use ra_backend.Models.{User, Decoder, PipelineAlert}
use ra_backend.Core.World.{World}
use ra_backend.Core.Exec.{
  Exec, pure, query, draw, write, commit, started_at, scalar_one_or_none, ◌>>=◌, ◌>>◌,
}
use ra_backend.Core.Rbac.{
  RoleSlug, admin, ra_lead, analyst, viewer, slug_text, default_permissions_for,
}
use ra_backend.Core.Passwords.{hash_password}
use ra_backend.Identity.Profile.{initials, role_label}
use ra_backend.Identity.Rows.{role_is, add_role, add_user}
use ra_backend.Operations.Service.{decoder_is, config_is, alert_is}
use ra_backend.Seed.Rows.{SeedUser, seed_roles, seed_users, seed_decoders, seed_alerts, seed_config}

abbrev pub email_is : String → User → Bool
email_is email u = u.email == email

-- `for … in …`
unfoldable pub each : {A : Type 0} → (A → Exec (Unit {0})) → List A → Exec (Unit {0})
each f [] = pure tt
each f (a ∷ r) = do f a; each f r

-- `if exists is None`
unfoldable pub if_none : {A : Type 0} → Exec (Unit {0}) → Option A → Exec (Unit {0})
if_none add none = add
if_none add (some a) = pure tt

-- Rows that wait for the flush are not seen by the look-ups; no two of them have a key in common.
module _ {T : Type 0} (w : World T) (demo_password : String) where
  unfoldable pub seed_role : RoleSlug × String × String → Exec (Unit {0})
  unfolding if_none add_role
  seed_role (slug, description, status) = do
    rows ← query (λ db. select (role_is (slug_text slug)) db.roles)
    found ← scalar_one_or_none rows
    created ← started_at
    if_none
        (add_role w (record {
          id = slug_text slug;
          name = role_label none (slug_text slug);
          description = description;
          status = status;
          permissions = default_permissions_for (slug_text slug);
          is_system = true;
          created_at = created;
        }))
        found

  -- `settings.bootstrap_admin_password if role == RoleSlug.ADMIN else DEMO_PASSWORD`
  abbrev password_for : RoleSlug → String
  password_for admin = w.settings.bootstrap_admin_password
  password_for ra_lead = demo_password
  password_for analyst = demo_password
  password_for viewer = demo_password

  unfoldable pub store_user : SeedUser → Exec (Unit {0})
  unfolding hash_password add_user
  store_user u = do
    hash ← hash_password w (password_for u.role)
    id ← draw w.uuid_str
    created ← started_at
    add_user w (record {
      id = id;
      full_name = u.full_name;
      email = u.email;
      phone = some u.phone;
      department = some u.department;
      hashed_password = hash;
      role_id = slug_text u.role;
      status = u.status;
      avatar = some (initials u.full_name);
      last_login = none;
      failed_login_count = 0;
      locked_until = none;
      must_reset_password = false;
      password_changed_at = none;
      created_at = created;
    })

  unfoldable pub seed_user : SeedUser → Exec (Unit {0})
  unfolding if_none store_user
  seed_user u = do
    rows ← query (λ db. select (email_is u.email) db.users)
    found ← scalar_one_or_none rows
    if_none (store_user u) found

  unfoldable pub seed_decoder : Decoder → Exec (Unit {0})
  unfolding if_none
  seed_decoder d = do
    rows ← query (λ db. select (decoder_is d.id) db.decoders)
    found ← scalar_one_or_none rows
    if_none (write (λ db. record db { decoders = db.decoders ++ d ∷ [] })) found

  unfoldable pub seed_system : Exec (Unit {0})
  unfolding if_none
  seed_system = do
    rows ← query (λ db. select (config_is "system") db.configs)
    found ← scalar_one_or_none rows
    if_none (write (λ db. record db { configs = db.configs ++ seed_config ∷ [] })) found

  unfoldable pub store_alert : PipelineAlert → Exec (Unit {0})
  store_alert a = do
    now ← draw w.clock
    write (λ db. record db { alerts = db.alerts ++ (record a { created_at = now }) ∷ [] })

  unfoldable pub seed_alert : PipelineAlert → Exec (Unit {0})
  unfolding if_none store_alert
  seed_alert a = do
    rows ← query (λ db. select (alert_is a.id) db.alerts)
    found ← scalar_one_or_none rows
    if_none (store_alert a) found

  unfoldable pub seed : Exec (Unit {0})
  unfolding each seed_role seed_user seed_decoder seed_system seed_alert
  seed = do
    each seed_role seed_roles
    each seed_user seed_users
    each seed_decoder seed_decoders
    seed_system
    each seed_alert seed_alerts
    commit
