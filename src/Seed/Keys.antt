-- ===== src/Seed/Keys.antt =====
-- Rows by their keys, and tables that grow by a row with a new key.
use ra_backend.Base.{
  ◌≡◌, refl, subst, ◌∙◌, inl, inr, String, List, [], ◌∷◌, ◌++◌, ◌==◌, select, select-append,
  Bool-cases, eq_refl, eq_iff,
}
use ra_backend.Models.{Db, Role, User, Decoder, SystemConfig, PipelineAlert}
use ra_backend.Identity.Rows.{role_is}
use ra_backend.Operations.Service.{decoder_is, config_is, alert_is}
use ra_backend.Seed.Run.{email_is}

-- A row by its key
pub data Key : Type 0 where
  role_key user_key decoder_key config_key alert_key : String → Key

-- One row has the key.
abbrev pub Present : Key → Db → Type 0
Present (role_key k) db = (x : Role) × (select (role_is k) db.roles ≡ x ∷ [])
Present (user_key k) db = (x : User) × (select (email_is k) db.users ≡ x ∷ [])
Present (decoder_key k) db = (x : Decoder) × (select (decoder_is k) db.decoders ≡ x ∷ [])
Present (config_key k) db = (x : SystemConfig) × (select (config_is k) db.configs ≡ x ∷ [])
Present (alert_key k) db = (x : PipelineAlert) × (select (alert_is k) db.alerts ≡ x ∷ [])

-- A row with a new key is added, or nothing.
pub data Grows : Db → Db → Type 0 where
  same : (db : Db) → Grows db db
  role_added :
      (db : Db) (x : Role)
      → select (role_is x.id) db.roles ≡ []
      → Grows db (record db { roles = db.roles ++ x ∷ [] })
  user_added :
      (db : Db) (x : User)
      → select (email_is x.email) db.users ≡ []
      → Grows db (record db { users = db.users ++ x ∷ [] })
  decoder_added :
      (db : Db) (x : Decoder)
      → select (decoder_is x.id) db.decoders ≡ []
      → Grows db (record db { decoders = db.decoders ++ x ∷ [] })
  config_added :
      (db : Db) (x : SystemConfig)
      → select (config_is x.id) db.configs ≡ []
      → Grows db (record db { configs = db.configs ++ x ∷ [] })
  alert_added :
      (db : Db) (x : PipelineAlert)
      → select (alert_is x.id) db.alerts ≡ []
      → Grows db (record db { alerts = db.alerts ++ x ∷ [] })

module _ {A : Type 0} (key : A → String) where
  select-append_kept :
      (k : String) (new : A) (rows : List A)
      → select (λ x. key x == key new) rows ≡ []
      → (x : A) × (select (λ x. key x == k) rows ≡ x ∷ [])
      → (x : A) × (select (λ x. key x == k) (rows ++ new ∷ []) ≡ x ∷ [])
  select-append_kept k new rows free (x, found) = elim (Bool-cases (key new == k)) [
    | inl hit ↦
        let none_there =
          subst (λ j. select (λ x. key x == j) rows ≡ []) ((eq_iff (key new) k).0 hit) free in
        cc
    | inr other ↦ (x, select-append (λ x. key x == k) rows (new ∷ []) ∙ rw (found, other) refl)
  ]

  pub select-append_found :
      (new : A) (rows : List A)
      → select (λ x. key x == key new) rows ≡ []
      → select (λ x. key x == key new) (rows ++ new ∷ []) ≡ new ∷ []
  select-append_found new rows free =
      select-append (λ x. key x == key new) rows (new ∷ []) ∙ rw (free, eq_refl (key new)) refl

pub Grows-Present : (k : Key) (db db' : Db) → Grows db db' → Present k db → Present k db'
Grows-Present k _ _ (same db) h = h
Grows-Present (role_key k) _ _ (role_added db x free) h =
    select-append_kept (λ (x : Role). x.id) k x db.roles free h
Grows-Present (user_key k) _ _ (role_added db x free) h = h
Grows-Present (decoder_key k) _ _ (role_added db x free) h = h
Grows-Present (config_key k) _ _ (role_added db x free) h = h
Grows-Present (alert_key k) _ _ (role_added db x free) h = h
Grows-Present (role_key k) _ _ (user_added db x free) h = h
Grows-Present (user_key k) _ _ (user_added db x free) h =
    select-append_kept (λ (x : User). x.email) k x db.users free h
Grows-Present (decoder_key k) _ _ (user_added db x free) h = h
Grows-Present (config_key k) _ _ (user_added db x free) h = h
Grows-Present (alert_key k) _ _ (user_added db x free) h = h
Grows-Present (role_key k) _ _ (decoder_added db x free) h = h
Grows-Present (user_key k) _ _ (decoder_added db x free) h = h
Grows-Present (decoder_key k) _ _ (decoder_added db x free) h =
    select-append_kept (λ (x : Decoder). x.id) k x db.decoders free h
Grows-Present (config_key k) _ _ (decoder_added db x free) h = h
Grows-Present (alert_key k) _ _ (decoder_added db x free) h = h
Grows-Present (role_key k) _ _ (config_added db x free) h = h
Grows-Present (user_key k) _ _ (config_added db x free) h = h
Grows-Present (decoder_key k) _ _ (config_added db x free) h = h
Grows-Present (config_key k) _ _ (config_added db x free) h =
    select-append_kept (λ (x : SystemConfig). x.id) k x db.configs free h
Grows-Present (alert_key k) _ _ (config_added db x free) h = h
Grows-Present (role_key k) _ _ (alert_added db x free) h = h
Grows-Present (user_key k) _ _ (alert_added db x free) h = h
Grows-Present (decoder_key k) _ _ (alert_added db x free) h = h
Grows-Present (config_key k) _ _ (alert_added db x free) h = h
Grows-Present (alert_key k) _ _ (alert_added db x free) h =
    select-append_kept (λ (x : PipelineAlert). x.id) k x db.alerts free h
