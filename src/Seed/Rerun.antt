-- ===== src/Seed/Rerun.antt =====
-- A second run of the seed, after a first one that ended.
use ra_backend.Base.{◌≡◌, refl, sym, subst, String, List, [], ◌∷◌}
use ra_backend.Base.Order.{All}
use ra_backend.Models.{Db, Decoder, PipelineAlert}
use ra_backend.Core.World.{World}
use ra_backend.Core.Exec.{Tx, Result, ok, err, Exec, begin}
use ra_backend.Core.Rbac.{RoleSlug, slug_text}
use ra_backend.Seed.Rows.{SeedUser, seed_roles, seed_users, seed_decoders, seed_alerts}
use ra_backend.Seed.Run.{
  each, if_none, seed_role, seed_user, seed_decoder, seed_system, seed_alert, seed,
}
use ra_backend.Seed.Keys.{Key, role_key, user_key, decoder_key, config_key, alert_key, Present}
use ra_backend.Seed.Steps.{
  Extends, Stores, OnOk, OnOk-after, seed_role-Stores, seed_user-Stores, seed_decoder-Stores,
  seed_system-Stores, seed_alert-Stores,
}

module _ {A : Type 0} (q r : Tx → Type 0) where
  OnOk-mono : (x : Result A × Tx) → ((s : Tx) → q s → r s) → OnOk q x → OnOk r x
  OnOk-mono (ok a, s) k h = k s h
  OnOk-mono (err e, s) k h = tt

module _ {A : Type 0} (key : A → Key) where
  abbrev ArePresent : List A → Db → Type 0
  ArePresent items db = All (λ a. Present (key a) db) items

  ArePresent-Extends :
      (items : List A) (db db' : Db) → Extends db db' → ArePresent items db → ArePresent items db'
  ArePresent-Extends [] db db' more h = tt
  ArePresent-Extends (a ∷ r) db db' more h =
      (more (key a) h.0, ArePresent-Extends r db db' more h.1)

  module _ (f : A → Exec (Unit {0})) where
    each-Stores :
        ((a : A) (s : Tx) → Stores (key a) s (f a))
        → (items : List A) (s : Tx)
        → OnOk (λ t. Extends s.current t.current × ArePresent items t.current) (each f items s)
    unfolding each
    each-Stores step [] s = (λ k p. p, tt)
    each-Stores step (a ∷ r) s =
        OnOk-after _ _ (λ u. each f r) (f a s) (step a s)
          (λ u t h.
            OnOk-mono _ _ (each f r t) (λ v g. (λ k p. g.0 k (h.0 k p), (g.0 (key a) h.1, g.1)))
              (each-Stores step r t))

    each_idle :
        (s : Tx)
        → ((a : A) → Present (key a) s.current → f a s ≡ (ok tt, s))
        → (items : List A) → ArePresent items s.current
        → each f items s ≡ (ok tt, s)
    unfolding each
    each_idle s idle [] h = refl
    each_idle s idle (a ∷ r) h = rw (idle a h.0, each_idle s idle r h.1) refl

abbrev key_of_role : RoleSlug × String × String → Key
key_of_role x = role_key (slug_text x.0)

abbrev key_of_user : SeedUser → Key
key_of_user u = user_key u.email

abbrev key_of_decoder : Decoder → Key
key_of_decoder d = decoder_key d.id

abbrev key_of_alert : PipelineAlert → Key
key_of_alert a = alert_key a.id

record IsSeeded (db : Db) : Type 0 where
  roles : ArePresent key_of_role seed_roles db
  users : ArePresent key_of_user seed_users db
  decoders : ArePresent key_of_decoder seed_decoders db
  config : Present (config_key "system") db
  alerts : ArePresent key_of_alert seed_alerts db

module _ {T : Type 0} (w : World T) (demo_password : String) where
  seed-IsSeeded :
      (s : Tx) → OnOk (λ t. IsSeeded t.current × (t.committed ≡ t.current)) (seed w demo_password s)
  unfolding seed
  seed-IsSeeded s =
      OnOk-after _ _ _ (each (seed_role w demo_password) seed_roles s)
        (each-Stores key_of_role (seed_role w demo_password) (seed_role-Stores w demo_password)
          seed_roles s)
        (λ u1 s1 h1.
          OnOk-after _ _ _ (each (seed_user w demo_password) seed_users s1)
            (each-Stores key_of_user (seed_user w demo_password) (seed_user-Stores w demo_password)
              seed_users s1)
            (λ u2 s2 h2.
              OnOk-after _ _ _ (each (seed_decoder w demo_password) seed_decoders s2)
                (each-Stores key_of_decoder (seed_decoder w demo_password)
                  (seed_decoder-Stores w demo_password) seed_decoders s2)
                (λ u3 s3 h3.
                  OnOk-after _ _ _ (seed_system w demo_password s3)
                    (seed_system-Stores w demo_password s3)
                    (λ u4 s4 h4.
                      OnOk-after _ _ _ (each (seed_alert w demo_password) seed_alerts s4)
                        (each-Stores key_of_alert (seed_alert w demo_password)
                          (seed_alert-Stores w demo_password) seed_alerts s4)
                        (λ u5 s5 h5. (
                          record {
                            roles =
                                ArePresent-Extends key_of_role seed_roles s1.current s5.current
                                  (λ k p. h5.0 k (h4.0 k (h3.0 k (h2.0 k p)))) h1.1;
                            users =
                                ArePresent-Extends key_of_user seed_users s2.current s5.current
                                  (λ k p. h5.0 k (h4.0 k (h3.0 k p))) h2.1;
                            decoders =
                                ArePresent-Extends key_of_decoder seed_decoders s3.current
                                  s5.current (λ k p. h5.0 k (h4.0 k p)) h3.1;
                            config = h5.0 (config_key "system") h4.1;
                            alerts = h5.1;
                          },
                          refl,
                        ))))))

  role_idle :
      (t : Tx) (x : RoleSlug × String × String)
      → Present (key_of_role x) t.current
      → seed_role w demo_password x t ≡ (ok tt, t)
  unfolding seed_role if_none
  role_idle t x p = rw p.1 refl

  user_idle :
      (t : Tx) (u : SeedUser)
      → Present (key_of_user u) t.current
      → seed_user w demo_password u t ≡ (ok tt, t)
  unfolding seed_user if_none
  user_idle t u p = rw p.1 refl

  decoder_idle :
      (t : Tx) (d : Decoder)
      → Present (key_of_decoder d) t.current
      → seed_decoder w demo_password d t ≡ (ok tt, t)
  unfolding seed_decoder if_none
  decoder_idle t d p = rw p.1 refl

  config_idle :
      (t : Tx)
      → Present (config_key "system") t.current
      → seed_system w demo_password t ≡ (ok tt, t)
  unfolding seed_system if_none
  config_idle t p = rw p.1 refl

  alert_idle :
      (t : Tx) (a : PipelineAlert)
      → Present (key_of_alert a) t.current
      → seed_alert w demo_password a t ≡ (ok tt, t)
  unfolding seed_alert if_none
  alert_idle t a p = rw p.1 refl

  seed_idle :
      (t : Tx)
      → IsSeeded t.current
      → seed w demo_password t ≡ (ok tt, record t { committed = t.current })
  unfolding seed
  seed_idle t h =
      rw
        (
          each_idle key_of_role (seed_role w demo_password) t (role_idle t) seed_roles h.roles,
          each_idle key_of_user (seed_user w demo_password) t (user_idle t) seed_users h.users,
          each_idle key_of_decoder (seed_decoder w demo_password) t (decoder_idle t) seed_decoders
              h.decoders,
          config_idle t h.config,
          each_idle key_of_alert (seed_alert w demo_password) t (alert_idle t) seed_alerts h.alerts,
        )
        refl

  after_seed :
      (x : Result (Unit {0}) × Tx) (s' : Tx)
      → x ≡ (ok tt, s')
      → OnOk (λ t. IsSeeded t.current × (t.committed ≡ t.current)) x
      → IsSeeded s'.current × (s'.committed ≡ s'.current)
  after_seed x s' e h = subst (OnOk (λ t. IsSeeded t.current × (t.committed ≡ t.current))) e h

  -- After a run of the seed that ended, on any database, a second run ends too and commits what was
  -- committed: it adds, changes and removes nothing.
  pub seed_is_idempotent :
      (s s' : Tx)
      → seed w demo_password s ≡ (ok tt, s')
      → seed w demo_password (begin w s')
        ≡ (ok tt, record (begin w s') { committed = s'.committed; current = s'.committed })
  seed_is_idempotent s s' first =
      let (seeded, stored) = after_seed (seed w demo_password s) s' first (seed-IsSeeded s) in
      seed_idle (begin w s') (subst IsSeeded (sym stored) seeded)
