-- ===== src/Migrations/Schema.antt =====
-- What the operations of Alembic do to a schema: PostgreSQL refuses a name that is taken, a name
-- that is missing, a reference to a missing table, and the removal of a table that others refer to.
use ra_backend.Base.{
  ℕ, String, Bool, true, false, not, ◌&&◌, ◌||◌, Option, none, some, List, [], ◌∷◌, ◌++◌, ◌==◌,
  exists, if◌then◌else◌,
}

pub data SqlType : Type 0 where
  varchar : ℕ → SqlType
  text jsonb boolean integer big_integer double timestamptz inet : SqlType

pub record Column : Type 0 where
  pub name : String
  pub type : SqlType
  pub nullable : Bool
  pub primary_key : Bool
  pub server_default : Option String

-- `sa.Column(…)`: a primary key, NOT NULL without and with a default, and NULL
abbrev pub key_column : String → SqlType → Column
key_column n t = record {
  name = n;
  type = t;
  nullable = false;
  primary_key = true;
  server_default = none;
}

abbrev pub column : String → SqlType → Column
column n t = record (key_column n t) { primary_key = false }

abbrev pub default_column : String → SqlType → String → Column
default_column n t d = record (column n t) { server_default = some d }

abbrev pub nullable_column : String → SqlType → Column
nullable_column n t = record (column n t) { nullable = true }

pub data Constraint : Type 0 where
  -- name, column, table and column that it refers to, ON DELETE
  foreign_key : (name column table target : String) → Option String → Constraint
  check : (name condition : String) → Constraint

pub record Index : Type 0 where
  pub name : String
  pub columns : List String
  pub unique : Bool

pub record Table : Type 0 where
  pub name : String
  pub columns : List Column
  pub constraints : List Constraint
  pub indexes : List Index

abbrev pub Schema : Type 0
Schema = List Table

pub data Op : Type 0 where
  create_table : String → List Column → List Constraint → Op
  drop_table : String → Op
  create_index : (name table : String) → List String → Bool → Op
  drop_index : (name table : String) → Op
  add_column : String → Column → Op
  drop_column : (table name : String) → Op
  add_constraint : String → Constraint → Op
  drop_constraint : (name table : String) → Op

abbrev pub named : String → Table → Bool
named n t = t.name == n

-- The name is taken: in a schema, tables and indexes share their names.
unfoldable pub takes : String → Table → Bool
takes n t = named n t || exists (λ (i : Index). i.name == n) t.indexes

abbrev pub constraint_name : Constraint → String
constraint_name (foreign_key name column table target d) = name
constraint_name (check name condition) = name

abbrev pub points_to : String → Constraint → Bool
points_to n (foreign_key name column table target d) = table == n
points_to n (check name condition) = false

-- A table other than `n` that refers to `n`
unfoldable pub refers_to : String → Table → Bool
refers_to n t = not (t.name == n) && exists (points_to n) t.constraints

abbrev pub opt_map : {A B : Type 0} → (A → B) → Option A → Option B
opt_map f none = none
opt_map f (some a) = some (f a)

-- One entry is taken out.
unfoldable pub remove : {A : Type 0} → (A → Bool) → List A → Option (List A)
remove p [] = none
remove p (x ∷ r) = let rest = remove p r in if p x then some r else opt_map (λ l. x ∷ l) rest

-- The table with a name is altered.
unfoldable pub alter : String → (Table → Option Table) → Schema → Option Schema
alter n f [] = none
alter n f (t ∷ r) =
    let rest = alter n f r in
    if named n t then opt_map (λ u. u ∷ r) (f t) else opt_map (λ l. t ∷ l) rest

-- Every table that the constraints refer to is there.
unfoldable pub targets_exist : List Constraint → Schema → Bool
targets_exist [] s = true
targets_exist (foreign_key name column table target d ∷ r) s =
    let rest = targets_exist r s in if exists (named table) s then rest else false
targets_exist (check name condition ∷ r) s = targets_exist r s

unfoldable pub with_index : Index → Table → Option Table
with_index i t = some (record t { indexes = t.indexes ++ i ∷ [] })

unfoldable pub without_index : String → Table → Option Table
unfolding remove
without_index n t =
    opt_map (λ l. record t { indexes = l }) (remove (λ (j : Index). j.name == n) t.indexes)

unfoldable pub with_column : Column → Table → Option Table
with_column c t =
    if exists (λ (d : Column). d.name == c.name) t.columns
    then none
    else some (record t { columns = t.columns ++ c ∷ [] })

unfoldable pub without_column : String → Table → Option Table
unfolding remove
without_column n t =
    opt_map (λ l. record t { columns = l }) (remove (λ (d : Column). d.name == n) t.columns)

unfoldable pub with_constraint : Constraint → Table → Option Table
with_constraint c t =
    if exists (λ d. constraint_name d == constraint_name c) t.constraints
    then none
    else some (record t { constraints = t.constraints ++ c ∷ [] })

unfoldable pub without_constraint : String → Table → Option Table
unfolding remove
without_constraint n t =
    opt_map (λ l. record t { constraints = l }) (remove (λ d. constraint_name d == n) t.constraints)

unfoldable pub apply : Op → Schema → Option Schema
unfolding takes remove alter targets_exist refers_to with_index without_index with_column
    without_column with_constraint without_constraint
apply (create_table n columns constraints) s =
    if exists (takes n) s
    then none
    else if targets_exist constraints s
    then some (
        s ++ (record { name = n; columns = columns; constraints = constraints; indexes = [] }) ∷ [])
    else none
apply (drop_table n) s = if exists (refers_to n) s then none else remove (named n) s
apply (create_index n table columns unique) s =
    if exists (takes n) s
    then none
    else alter table (with_index (record { name = n; columns = columns; unique = unique })) s
apply (drop_index n table) s = alter table (without_index n) s
apply (add_column table c) s = alter table (with_column c) s
apply (drop_column table n) s = alter table (without_column n) s
apply (add_constraint table c) s =
    if targets_exist (c ∷ []) s then alter table (with_constraint c) s else none
apply (drop_constraint n table) s = alter table (without_constraint n) s

abbrev pub opt_bind : {A B : Type 0} → Option A → (A → Option B) → Option B
opt_bind none f = none
opt_bind (some a) f = f a

-- The operations of a revision, one after the other.
unfoldable pub run : List Op → Schema → Option Schema
unfolding apply
run [] s = some s
run (o ∷ r) s = opt_bind (apply o s) (run r)
