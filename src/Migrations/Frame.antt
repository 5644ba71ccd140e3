-- ===== src/Migrations/Frame.antt =====
-- Operations leave the tables alone that they do not name.
use mathlib.Core.List.{append_assoc}
use ra_backend.Base.{
  ◌≡◌, refl, ap, ◌∙◌, arith, inl, inr, Bool-cases, String, Bool, true, false, Option, none, some,
  List, [], ◌∷◌, ◌++◌, exists, exists-append, if◌then◌else◌,
}
use ra_backend.Base.Order.{All}
use ra_backend.Migrations.Schema.{
  Table, Schema, Constraint, foreign_key, check, Op, create_table, drop_table, create_index,
  drop_index, add_column, drop_column, add_constraint, drop_constraint, named, takes, refers_to,
  opt_map, opt_bind, remove, alter, targets_exist, apply, run, with_constraint, with_index,
}

-- No table and no index has the name, and no table refers to it.
abbrev pub IsFree : Schema → String → Type 0
IsFree s n = (exists (takes n) s ≡ false) × (exists (refers_to n) s ≡ false)

abbrev targets : List Constraint → List String
targets [] = []
targets (foreign_key name column table target d ∷ r) = table ∷ targets r
targets (check name condition ∷ r) = targets r

-- The tables that an operation names, and the names that it gives
abbrev pub names_of : Op → List String
names_of (create_table n columns constraints) = n ∷ targets constraints
names_of (drop_table n) = n ∷ []
names_of (create_index n table columns unique) = n ∷ table ∷ []
names_of (drop_index n table) = table ∷ []
names_of (add_column table c) = table ∷ []
names_of (drop_column table n) = table ∷ []
names_of (add_constraint table c) = table ∷ targets (c ∷ [])
names_of (drop_constraint n table) = table ∷ []

untaken_table : (n : String) (s : Schema) → exists (takes n) s ≡ false → exists (named n) s ≡ false
unfolding takes
untaken_table n [] free = refl
untaken_table n (t ∷ r) free = ground (arith, untaken_table n r)

module _ {A : Type 0} where
  opt_map-id : (o : Option A) → o ≡ opt_map (λ a. a) o
  opt_map-id none = refl
  opt_map-id (some a) = refl

  opt_map-cons :
      (x : A) (xs : List A) (o : Option (List A))
      → opt_map (λ l. x ∷ l) (opt_map (λ l. xs ++ l) o) ≡ opt_map (λ l. x ∷ xs ++ l) o
  opt_map-cons x xs none = refl
  opt_map-cons x xs (some l) = refl

module _ {A : Type 0} (p : A → Bool) where
  exists-append_free : (xs ys : List A) → exists p xs ≡ false → exists p (xs ++ ys) ≡ exists p ys
  exists-append_free xs ys free = exists-append p xs ys ∙ rw free refl

  remove-append :
      (xs ys : List A)
      → exists p xs ≡ false
      → remove p (xs ++ ys) ≡ opt_map (λ l. xs ++ l) (remove p ys)
  unfolding remove
  remove-append [] ys free = opt_map-id (remove p ys)
  remove-append (x ∷ xs) ys free = elim (Bool-cases (p x)) [
    | inl hit ↦ ground arith
    | inr other ↦ rw (other, remove-append xs ys (ground arith)) (opt_map-cons x xs (remove p ys))
  ]

alter-append :
    (n : String) (f : Table → Option Table) (xs ys : Schema)
    → exists (named n) xs ≡ false
    → alter n f (xs ++ ys) ≡ opt_map (λ l. xs ++ l) (alter n f ys)
unfolding alter
alter-append n f [] ys free = opt_map-id (alter n f ys)
alter-append n f (x ∷ xs) ys free = elim (Bool-cases (named n x)) [
  | inl hit ↦ ground arith
  | inr other ↦ rw (other, alter-append n f xs ys (ground arith)) (opt_map-cons x xs (alter n f ys))
]

targets_exist-append :
    (cs : List Constraint) (xs ys : Schema)
    → All (IsFree xs) (targets cs)
    → targets_exist cs (xs ++ ys) ≡ targets_exist cs ys
unfolding targets_exist
targets_exist-append [] xs ys free = refl
targets_exist-append (foreign_key name column table target d ∷ r) xs ys free =
    rw
      (
        exists-append_free (named table) xs ys (untaken_table table xs free.0.0),
        targets_exist-append r xs ys free.1,
      )
      refl
targets_exist-append (check name condition ∷ r) xs ys free = targets_exist-append r xs ys free

created_after :
    (xs ys : Schema) (t : Table) (a b : Bool)
    → (if a then none else if b then some ((xs ++ ys) ++ t ∷ []) else none)
      ≡ opt_map (λ l. xs ++ l) (if a then none else if b then some (ys ++ t ∷ []) else none)
created_after xs ys t true b = refl
created_after xs ys t false true = ap some (append_assoc xs ys (t ∷ []))
created_after xs ys t false false = refl

guarded_after :
    (xs : Schema) (b : Bool) (o : Option Schema)
    → (if b then opt_map (λ l. xs ++ l) o else none)
      ≡ opt_map (λ l. xs ++ l) (if b then o else none)
guarded_after xs true o = refl
guarded_after xs false o = refl

refused_after :
    (xs : Schema) (b : Bool) (o : Option Schema)
    → (if b then none else opt_map (λ l. xs ++ l) o)
      ≡ opt_map (λ l. xs ++ l) (if b then none else o)
refused_after xs true o = refl
refused_after xs false o = refl

-- An operation does not touch tables that it does not name.
apply-append :
    (o : Op) (xs ys : Schema)
    → All (IsFree xs) (names_of o)
    → apply o (xs ++ ys) ≡ opt_map (λ l. xs ++ l) (apply o ys)
unfolding apply
apply-append (create_table n columns constraints) xs ys free =
    rw (exists-append_free (takes n) xs ys free.0.0, targets_exist-append constraints xs ys free.1)
      (created_after xs ys _ (exists (takes n) ys) (targets_exist constraints ys))
apply-append (drop_table n) xs ys free =
    rw
      (
        exists-append_free (refers_to n) xs ys free.0.1,
        remove-append (named n) xs ys (untaken_table n xs free.0.0),
      )
      (refused_after xs (exists (refers_to n) ys) (remove (named n) ys))
apply-append (create_index n table columns unique) xs ys free =
    rw
      (
        exists-append_free (takes n) xs ys free.0.0,
        alter-append table (with_index (record { name = n; columns = columns; unique = unique })) xs
            ys (untaken_table table xs free.1.0.0),
      )
      (refused_after xs (exists (takes n) ys)
        (alter table (with_index (record { name = n; columns = columns; unique = unique })) ys))
apply-append (drop_index n table) xs ys free =
    alter-append table _ xs ys (untaken_table table xs free.0.0)
apply-append (add_column table c) xs ys free =
    alter-append table _ xs ys (untaken_table table xs free.0.0)
apply-append (drop_column table n) xs ys free =
    alter-append table _ xs ys (untaken_table table xs free.0.0)
apply-append (add_constraint table c) xs ys free =
    rw
      (
        targets_exist-append (c ∷ []) xs ys free.1,
        alter-append table (with_constraint c) xs ys (untaken_table table xs free.0.0),
      )
      (guarded_after xs (targets_exist (c ∷ []) ys) (alter table (with_constraint c) ys))
apply-append (drop_constraint n table) xs ys free =
    alter-append table _ xs ys (untaken_table table xs free.0.0)

-- All the names that operations use are free.
abbrev pub AreFree : Schema → List Op → Type 0
AreFree s [] = Unit
AreFree s (o ∷ r) = All (IsFree s) (names_of o) × AreFree s r

onwards :
    (xs : Schema) (f : Schema → Option Schema)
    → ((ys : Schema) → f (xs ++ ys) ≡ opt_map (λ l. xs ++ l) (f ys))
    → (o : Option Schema)
    → opt_bind (opt_map (λ l. xs ++ l) o) f ≡ opt_map (λ l. xs ++ l) (opt_bind o f)
onwards xs f k none = refl
onwards xs f k (some ys) = k ys

pub run-append :
    (ops : List Op) (xs ys : Schema)
    → AreFree xs ops
    → run ops (xs ++ ys) ≡ opt_map (λ l. xs ++ l) (run ops ys)
unfolding run
run-append [] xs ys free = refl
run-append (o ∷ r) xs ys free =
    rw (apply-append o xs ys free.0)
      (onwards xs (run r) (λ zs. run-append r xs zs free.1) (apply o ys))
