-- ===== src/Seed/Steps.antt =====
-- What one step of the seed stores, and what it leaves as it is.
use ra_backend.Base.{
  ◌≡◌, refl, inl, inr, ◌+◌, ◌||◌, String, List, [], ◌∷◌, ◌==◌, select, exists, Bool-cases,
}
use ra_backend.Models.{Db, Role, User, Decoder, SystemConfig, PipelineAlert}
use ra_backend.Core.World.{World}
use ra_backend.Core.Exec.{Tx, Result, ok, err, Exec, after}
use ra_backend.Core.Rbac.{RoleSlug, slug_text}
use ra_backend.Identity.Rows.{role_is, add_role, add_user}
use ra_backend.Operations.Service.{decoder_is, config_is, alert_is}
use ra_backend.Seed.Rows.{SeedUser, seed_config}
use ra_backend.Seed.Run.{
  email_is, if_none, seed_role, store_user, seed_user, seed_decoder, seed_system, store_alert,
  seed_alert,
}
use ra_backend.Seed.Keys.{
  Key, role_key, user_key, decoder_key, config_key, alert_key, Present, role_added, user_added,
  decoder_added, config_added, alert_added, select-append_found, Grows-Present,
}

-- What holds after a computation that returns.
abbrev pub OnOk : {A : Type 0} → (Tx → Type 0) → Result A × Tx → Type 0
OnOk q (ok a, s) = q s
OnOk q (err e, s) = Unit

module _ {A B : Type 0} (q r : Tx → Type 0) where
  pub OnOk-after :
      (f : A → Exec B) (x : Result A × Tx)
      → OnOk q x
      → ((a : A) (s : Tx) → q s → OnOk r (f a s))
      → OnOk r (after f x)
  OnOk-after f (ok a, s) h k = k a s h
  OnOk-after f (err e, s) h k = tt

-- Every row that is there by its key stays there.
abbrev pub Extends : Db → Db → Type 0
Extends db db' = (k : Key) → Present k db → Present k db'

-- A step adds the row of a key where it is not there.
abbrev pub Stores : Key → Tx → Exec (Unit {0}) → Type 0
Stores k s m = OnOk (λ t. Extends s.current t.current × Present k t.current) (m s)

module _ {T : Type 0} (w : World T) where
  add_role-Stores :
      (r : Role) (s : Tx)
      → select (role_is r.id) s.current.roles ≡ []
      → Stores (role_key r.id) s (add_role w r)
  unfolding add_role
  add_role-Stores r s free = elim (Bool-cases (exists (role_is r.id) s.current.roles)) [
    | inl taken ↦ rw taken tt
    | inr fresh ↦ rw fresh (
      λ k p. Grows-Present k _ _ (role_added s.current r free) p,
      (r, select-append_found (λ (x : Role). x.id) r s.current.roles free),
    )
  ]

  add_user-Stores :
      (u : User) (s : Tx)
      → select (email_is u.email) s.current.users ≡ []
      → Stores (user_key u.email) s (add_user w u)
  unfolding add_user
  add_user-Stores u s free =
      elim (Bool-cases
        (exists (λ (v : User). v.id == u.id || v.email == u.email) s.current.users)) [
          | inl taken ↦ rw taken tt
          | inr fresh ↦ elim (Bool-cases (exists (role_is u.role_id) s.current.roles)) [
            | inr missing ↦ rw (fresh, missing) tt
            | inl joined ↦
                rw (fresh, joined)
                  (
                    λ k p. Grows-Present k _ _ (user_added s.current u free) p,
                    (u, select-append_found (λ (x : User). x.email) u s.current.users free),
                  )
          ]
        ]

  module _ (demo_password : String) where
    store_user-Stores :
        (u : SeedUser) (s : Tx)
        → select (email_is u.email) s.current.users ≡ []
        → Stores (user_key u.email) s (store_user w demo_password u)
    unfolding store_user
    store_user-Stores u s free = add_user-Stores _ (record s { draws = s.draws + 1 + 1 }) free

    pub seed_role-Stores :
        (x : RoleSlug × String × String) (s : Tx)
        → Stores (role_key (slug_text x.0)) s (seed_role w demo_password x)
    unfolding seed_role if_none
    seed_role-Stores x s = by_rows (select (role_is (slug_text x.0)) s.current.roles) refl
      where
        by_rows :
            (rows : List Role)
            → select (role_is (slug_text x.0)) s.current.roles ≡ rows
            → Stores (role_key (slug_text x.0)) s (seed_role w demo_password x)
        by_rows [] e = rw e (add_role-Stores _ s e)
        by_rows (x ∷ []) e = rw e (λ k p. p, (x, e))
        by_rows (x ∷ y ∷ r) e = rw e tt

    pub seed_user-Stores :
        (u : SeedUser) (s : Tx) → Stores (user_key u.email) s (seed_user w demo_password u)
    unfolding seed_user if_none
    seed_user-Stores u s = by_rows (select (email_is u.email) s.current.users) refl
      where
        by_rows :
            (rows : List User)
            → select (email_is u.email) s.current.users ≡ rows
            → Stores (user_key u.email) s (seed_user w demo_password u)
        by_rows [] e = rw e (store_user-Stores u s e)
        by_rows (x ∷ []) e = rw e (λ k p. p, (x, e))
        by_rows (x ∷ y ∷ r) e = rw e tt

    pub seed_decoder-Stores :
        (d : Decoder) (s : Tx) → Stores (decoder_key d.id) s (seed_decoder w demo_password d)
    unfolding seed_decoder if_none
    seed_decoder-Stores d s = by_rows (select (decoder_is d.id) s.current.decoders) refl
      where
        by_rows :
            (rows : List Decoder)
            → select (decoder_is d.id) s.current.decoders ≡ rows
            → Stores (decoder_key d.id) s (seed_decoder w demo_password d)
        by_rows [] e = rw e (
          λ k p. Grows-Present k _ _ (decoder_added s.current d e) p,
          (d, select-append_found (λ (x : Decoder). x.id) d s.current.decoders e),
        )
        by_rows (x ∷ []) e = rw e (λ k p. p, (x, e))
        by_rows (x ∷ y ∷ r) e = rw e tt

    pub seed_system-Stores : (s : Tx) → Stores (config_key "system") s (seed_system w demo_password)
    unfolding seed_system if_none
    seed_system-Stores s = by_rows (select (config_is "system") s.current.configs) refl
      where
        by_rows :
            (rows : List SystemConfig)
            → select (config_is "system") s.current.configs ≡ rows
            → Stores (config_key "system") s (seed_system w demo_password)
        by_rows [] e = rw e (
          λ k p. Grows-Present k _ _ (config_added s.current seed_config e) p,
          (
            seed_config,
            select-append_found (λ (x : SystemConfig). x.id) seed_config s.current.configs e,
          ),
        )
        by_rows (x ∷ []) e = rw e (λ k p. p, (x, e))
        by_rows (x ∷ y ∷ r) e = rw e tt

    pub seed_alert-Stores :
        (a : PipelineAlert) (s : Tx) → Stores (alert_key a.id) s (seed_alert w demo_password a)
    unfolding seed_alert if_none store_alert
    seed_alert-Stores a s = by_rows (select (alert_is a.id) s.current.alerts) refl
      where
        by_rows :
            (rows : List PipelineAlert)
            → select (alert_is a.id) s.current.alerts ≡ rows
            → Stores (alert_key a.id) s (seed_alert w demo_password a)
        by_rows [] e = rw e (
          λ k p.
              Grows-Present k _ _
                (alert_added s.current (record a { created_at = w.clock s.draws }) e) p,
          (
            (record a { created_at = w.clock s.draws }),
            select-append_found (λ (x : PipelineAlert). x.id)
                (record a { created_at = w.clock s.draws }) s.current.alerts e,
          ),
        )
        by_rows (x ∷ []) e = rw e (λ k p. p, (x, e))
        by_rows (x ∷ y ∷ r) e = rw e tt
