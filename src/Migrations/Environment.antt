-- ===== src/Migrations/Environment.antt =====
-- migrations/env.py: how the revisions are run. What SQLAlchemy and Alembic do is a parameter, on a
-- connection of any type.
use ra_backend.Base.{
  String, Bool, true, false, not, ◌&&◌, Option, none, some, [], ◌∷◌, ◌==◌, ◌≡◌, ap, ◌∙◌, arith,
  join,
}
use ra_backend.Core.Config.{Settings, DsnParts, app_database_url_sync}
use ra_backend.Core.World.{Outcome, returned, raised}

-- `_include_object`: the table in which Alembic keeps its place is left out.
unfoldable pub include_object : (type name : String) → Bool
include_object type name = not (type == "table" && name == "alembic_version")

-- The arguments of `context.configure`, but for the connection and the metadata
pub record Configuration : Type 0 where
  pub url : Option String
  pub literal_binds : Bool
  pub paramstyle : Option String
  pub compare_type : Bool
  pub version_table_schema : Option String
  pub filtered : Bool

-- `migrate` is `context.configure`, and `context.run_migrations` inside
-- `context.begin_transaction()`.
pub record Libraries (C : Type 0) : Type 0 where
  pub connect : String → Outcome C
  pub exec_driver_sql : C → String → Outcome C
  pub commit : C → Outcome C
  pub migrate : Configuration → C → Outcome C
  pub migrate_offline : Configuration → Outcome (Unit {0})
  pub build : DsnParts → String

abbrev then_on : {A B : Type 0} → Outcome A → (A → Outcome B) → Outcome B
then_on (returned a) f = f a
then_on (raised e) f = raised e

abbrev offline_configuration : String → Configuration
offline_configuration url = record {
  url = some url;
  literal_binds = true;
  paramstyle = some "named";
  compare_type = true;
  version_table_schema = none;
  filtered = false;
}

abbrev online_configuration : String → Configuration
online_configuration schema = record {
  url = none;
  literal_binds = false;
  paramstyle = none;
  compare_type = true;
  version_table_schema = some schema;
  filtered = true;
}

module _ {C : Type 0} (st : Settings) (l : Libraries C) where
  unfoldable pub run_migrations_offline : Outcome (Unit {0})
  unfolding app_database_url_sync
  run_migrations_offline =
      l.migrate_offline (offline_configuration (app_database_url_sync l.build st))

  -- The schema exists, is the search path, and is committed.
  unfoldable pub prepared : C → Outcome C
  prepared c =
      then_on
        (l.exec_driver_sql c
          (join ("CREATE SCHEMA IF NOT EXISTS \"" ∷ st.app_db_schema ∷ "\"" ∷ [])))
        (λ d.
          then_on
            (l.exec_driver_sql d
              (join ("SET search_path TO \"" ∷ st.app_db_schema ∷ "\", public" ∷ [])))
            l.commit)

  unfoldable pub run_migrations_online : Outcome C
  unfolding app_database_url_sync prepared
  run_migrations_online =
      then_on (l.connect (app_database_url_sync l.build st))
        (λ c. then_on (prepared c) (l.migrate (online_configuration st.app_db_schema)))

-- The connection between the set-up and the revisions: no transaction is open.
module _ {C S : Type 0} (st : Settings) (l : Libraries C) (is_open : C → Bool) (stored : C → S)
    (upgrade : S → S) (commit_closes : (c d : C) → l.commit c ≡ returned d → is_open d ≡ false)
    (migrate_stores : (k : Configuration) (c : C)
      → is_open c ≡ false
      → (d : C) × (l.migrate k c ≡ returned d) × (stored d ≡ upgrade (stored c))) where
  prepared_closed : (a b : C) → prepared st l a ≡ returned b → is_open b ≡ false
  unfolding prepared
  prepared_closed a b ready = grind (arith, commit_closes)

  online_is :
      (a b : C)
      → l.connect (app_database_url_sync l.build st) ≡ returned a
      → prepared st l a ≡ returned b
      → run_migrations_online st l ≡ l.migrate (online_configuration st.app_db_schema) b
  unfolding run_migrations_online
  online_is a b connected ready =
      ap (λ o. then_on o rest) connected
      ∙ ap (λ o. then_on o (l.migrate (online_configuration st.app_db_schema))) ready
    where
      rest : C → Outcome C
      rest c = then_on (prepared st l c) (l.migrate (online_configuration st.app_db_schema))

  -- Where a commit leaves no transaction open, and Alembic stores what the revisions do to a
  -- connection without one: once the set-up has succeeded, the run succeeds and what is stored is
  -- the upgrade of what the set-up has stored.
  online_stores :
      (a b : C)
      → l.connect (app_database_url_sync l.build st) ≡ returned a
      → prepared st l a ≡ returned b
      → (d : C) × (run_migrations_online st l ≡ returned d) × (stored d ≡ upgrade (stored b))
  unfolding run_migrations_online
  online_stores a b connected ready =
      let run =
        migrate_stores (online_configuration st.app_db_schema) b (prepared_closed a b ready) in
      (run.0, online_is a b connected ready ∙ run.1, run.2)
