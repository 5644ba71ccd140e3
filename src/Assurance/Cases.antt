-- ===== src/Assurance/Cases.antt =====
-- What holds of the cases through creation, update and comment.
use ra_backend.Base.{
  ◌+◌, String, Bool, true, false, not, List, [], ◌∷◌, ◌++◌, ◌≡◌, refl, ap, arith, length, select,
  modify, exists, select-modify_found, select-modify_apart, eq_refl, eq_iff, ne→not_eq, sym, ◌∙◌,
  ◌≢◌, ◌==◌, Option, none, some,
}
use ra_backend.Base.Numbered.{
  reference_at, IsNumbered, IsNumbered-append, IsNumbered-modify, reference_is_free,
}
use ra_backend.Models.Common.{Timestamp, Float}
use ra_backend.Models.{Case, case_severities, case_statuses}
use ra_backend.Core.Errors.{integrity}
use ra_backend.Core.World.{World, not_null_violation}
use ra_backend.Core.Exec.{Tx, ok, err}
use ra_backend.Assurance.Payloads.{
  CaseSeverity, low, medium, high, critical, CaseStatus, opened, in_progress, resolved, closed,
  cancelled, severity_text, status_text, CaseCreate, CaseUpdate, Patch, unset, null, given,
  patch_text, patch_optional, is_in, checks, case_is, nulls_required, patch_case, flush_case,
  new_case,
}
use ra_backend.Assurance.Service.{add_case, create_case, update_case}

-- The n-th case, from 0, has the reference "CASE-<2001 + n>", and the CHECK constraints hold.
pub record IsSound (cases : List Case) : Type 0 where
  pub numbered : IsNumbered (λ (c : Case). c.reference) "CASE-" 2000 0 cases
  pub checked : exists (λ c. not (checks c)) cases ≡ false

severity_is_in : (s : CaseSeverity) → is_in case_severities (severity_text s) ≡ true
unfolding is_in
severity_is_in low = refl
severity_is_in medium = refl
severity_is_in high = refl
severity_is_in critical = refl

status_is_in : (s : CaseStatus) → is_in case_statuses (status_text s) ≡ true
unfolding is_in
status_is_in opened = refl
status_is_in in_progress = refl
status_is_in resolved = refl
status_is_in closed = refl
status_is_in cancelled = refl

new_case-checks :
    (payload : CaseCreate) (id reference owner : String) (created : Timestamp)
    → checks (new_case payload id reference owner created) ≡ true
unfolding checks
new_case-checks payload id reference owner created =
    rw (severity_is_in payload.severity, status_is_in payload.status) refl

patched_severity :
    (p : Patch CaseSeverity) (old : String)
    → is_in case_severities old ≡ true
    → is_in case_severities (patch_text severity_text p old) ≡ true
patched_severity unset old h = h
patched_severity null old h = h
patched_severity (given s) old h = severity_is_in s

patched_status :
    (p : Patch CaseStatus) (old : String)
    → is_in case_statuses old ≡ true
    → is_in case_statuses (patch_text status_text p old) ≡ true
patched_status unset old h = h
patched_status null old h = h
patched_status (given s) old h = status_is_in s

patch_case-checks : (p : CaseUpdate) (c : Case) → checks c ≡ true → checks (patch_case p c) ≡ true
unfolding checks
patch_case-checks p c h =
    ground (arith, patched_severity p.severity c.severity, patched_status p.status c.status)

flush_case-checks :
    (eq : Float → Float → Bool) (now : Timestamp) (p : CaseUpdate) (c : Case)
    → checks c ≡ true
    → checks (flush_case eq now p c) ≡ true
unfolding checks flush_case
flush_case-checks eq now p c h = patch_case-checks p c h

all_checked :
    (cases : List Case) (q : Case → Bool) (c : Case) (r : List Case)
    → exists (λ d. not (checks d)) cases ≡ false
    → select q cases ≡ c ∷ r
    → checks c ≡ true
all_checked [] q c r h found = cc
all_checked (d ∷ ds) q c r h found = ground (arith, all_checked ds q c r)

modified_checked :
    (eq : Float → Float → Bool) (now : Timestamp) (p : CaseUpdate) (q : Case → Bool)
    (cases : List Case)
    → exists (λ d. not (checks d)) cases ≡ false
    → exists (λ d. not (checks d)) (modify q (flush_case eq now p) cases) ≡ false
modified_checked eq now p q [] h = refl
modified_checked eq now p q (c ∷ cs) h =
    ground (arith, flush_case-checks eq now p c, modified_checked eq now p q cs)

appended_checked :
    (c : Case) (cases : List Case)
    → exists (λ d. not (checks d)) cases ≡ false
    → checks c ≡ true
    → exists (λ d. not (checks d)) (cases ++ c ∷ []) ≡ false
appended_checked c [] h own = rw own refl
appended_checked c (d ∷ cs) h own = ground (arith, appended_checked c cs)

case_apart : (id other key : String) → (id == other) ≡ true → other ≢ key → (id == key) ≡ false
case_apart id other key own apart = ne→not_eq _ _ (λ e. apart (sym ((eq_iff id other).0 own) ∙ e))

-- What a PATCH field asks of a column: a value is stored, an absent field leaves what was there,
-- and a null empties a column that takes NULL.
module _ {A : Type 0} where
  abbrev pub Stores : (A → String) → Patch A → String → String → Type 0
  Stores show p old new = (p ≡ unset → new ≡ old) × ((a : A) → p ≡ given a → new ≡ show a)

  abbrev pub StoresOptional : Patch A → Option A → Option A → Type 0
  StoresOptional p old new =
      (p ≡ unset → new ≡ old) × (p ≡ null → new ≡ none) × ((a : A) → p ≡ given a → new ≡ some a)

  patch_text-Stores :
      (show : A → String) (p : Patch A) (old : String) → Stores show p old (patch_text show p old)
  patch_text-Stores show p old = (λ e. rw e refl, λ a e. rw e refl)

  patch_optional-StoresOptional :
      (p : Patch A) (old : Option A) → StoresOptional p old (patch_optional p old)
  patch_optional-StoresOptional p old = (λ e. rw e refl, λ e. rw e refl, λ a e. rw e refl)

-- The row that a PATCH leaves of a case.
pub record IsPatched (p : CaseUpdate) (before after : Case) : Type 0 where
  pub id : after.id ≡ before.id
  pub reference : after.reference ≡ before.reference
  pub title : Stores (λ t. t) p.title before.title after.title
  pub description : Stores (λ t. t) p.description before.description after.description
  pub severity : Stores severity_text p.severity before.severity after.severity
  pub status : Stores status_text p.status before.status after.status
  pub owner : StoresOptional p.owner before.owner after.owner
  pub owner_id : after.owner_id ≡ before.owner_id
  pub linked_txn_id : after.linked_txn_id ≡ before.linked_txn_id
  pub estimated_impact :
      StoresOptional p.estimated_impact before.estimated_impact after.estimated_impact

-- The case of a request.
abbrev pub created_case : {T : Type 0} → World T → Tx → CaseCreate → String → Case
created_case w s payload owner_id =
    new_case payload (w.uuid_str s.draws) (reference_at "CASE-" 2000 (length s.current.cases))
      owner_id s.started

module _ {T : Type 0} (w : World T) (s : Tx) (sound : IsSound s.current.cases) where
  module _ (payload : CaseCreate) (owner_id : String)
      (fresh : exists (case_is (w.uuid_str s.draws)) s.current.cases ≡ false) where
    -- Where the cases are numbered and within the CHECK constraints, and the drawn id is new: no
    -- constraint refuses a new case, it is added as the last row with the next reference, and the
    -- cases stay numbered and within the constraints.
    pub create_case_succeeds :
        (create_case w payload owner_id s ≡ (
          ok (created_case w s payload owner_id),
          record s {
            current = record s.current {
              cases = s.current.cases ++ (created_case w s payload owner_id) ∷ [];
            };
            draws = s.draws + 1;
          },
        ))
        × IsSound (s.current.cases ++ (created_case w s payload owner_id) ∷ [])
    unfolding create_case add_case
    create_case_succeeds = (
      rw
          (
            new_case-checks payload (w.uuid_str s.draws)
                (reference_at "CASE-" 2000 (length s.current.cases)) owner_id s.started,
            fresh,
            reference_is_free (λ (c : Case). c.reference) "CASE-" 2000 0 (length s.current.cases)
                s.current.cases sound.numbered (omega arith),
          )
          refl,
      record {
        numbered =
            IsNumbered-append (λ (c : Case). c.reference) "CASE-" 2000 0 s.current.cases
              (created_case w s payload owner_id) sound.numbered
              (ap (reference_at "CASE-" 2000) (omega arith));
        checked =
            appended_checked (created_case w s payload owner_id) s.current.cases sound.checked (
              new_case-checks payload (w.uuid_str s.draws)
                (reference_at "CASE-" 2000 (length s.current.cases)) owner_id s.started);
      },
    )

  module _ (payload : CaseUpdate) (case : Case)
      (found : select (case_is case.id) s.current.cases ≡ case ∷ []) where
    -- The row that a PATCH leaves.
    abbrev updated : Case → Case
    updated = flush_case w.float_eq s.started payload

    -- Where the cases are numbered and within the CHECK constraints, a PATCH of a case that is
    -- there, with no null in a required column, succeeds and answers with the row that a query of
    -- its id then finds: in it a given field has its value, an absent one is as before, a null has
    -- emptied an optional one, and id, reference, owner id and linked transaction are as before;
    -- the cases of other ids are as before, and the cases stay numbered and within the constraints.
    pub update_case_writes :
        nulls_required payload ≡ false
        → let rows = modify (case_is case.id) updated s.current.cases in
          (after : Case) × IsPatched payload case after
          × (update_case w case.id payload s
              ≡ (ok after, record s { current = record s.current { cases = rows } }))
          × (select (case_is case.id) rows ≡ after ∷ [])
          × ((other : String)
              → other ≢ case.id
              → select (case_is other) rows ≡ select (case_is other) s.current.cases)
          × IsSound rows
    unfolding update_case flush_case
    update_case_writes nulls = (
      updated case,
      record {
        id = refl;
        reference = refl;
        title = patch_text-Stores (λ t. t) payload.title case.title;
        description = patch_text-Stores (λ t. t) payload.description case.description;
        severity = patch_text-Stores severity_text payload.severity case.severity;
        status = patch_text-Stores status_text payload.status case.status;
        owner = patch_optional-StoresOptional payload.owner case.owner;
        owner_id = refl;
        linked_txn_id = refl;
        estimated_impact =
            patch_optional-StoresOptional payload.estimated_impact case.estimated_impact;
      },
      rw
          (
            found,
            nulls,
            flush_case-checks w.float_eq s.started payload case
                (all_checked s.current.cases (case_is case.id) case [] sound.checked found),
          )
          refl,
      select-modify_found (case_is case.id) (case_is case.id) updated case s.current.cases
          (λ c. refl) (eq_refl case.id) found,
      λ other apart.
          select-modify_apart (case_is other) (case_is case.id) updated (λ c. refl)
            (λ c own. case_apart c.id other case.id own apart) s.current.cases,
      record {
        numbered =
            IsNumbered-modify (λ (c : Case). c.reference) "CASE-" 2000 (case_is case.id) updated
              (λ c. refl) 0 s.current.cases sound.numbered;
        checked =
            modified_checked w.float_eq s.started payload (case_is case.id) s.current.cases
              sound.checked;
      },
    )

    -- A null for a required column is refused by the database, and nothing is written.
    pub update_case_refuses_null :
        nulls_required payload ≡ true
        → update_case w case.id payload s ≡ (err (integrity (w.origin_name not_null_violation)), s)
    unfolding update_case
    update_case_refuses_null nulls = rw (found, nulls) refl
