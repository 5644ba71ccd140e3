-- ===== src/Assurance/Payloads.antt =====
-- app/modules/assurance/schemas.py: the bodies of the requests on cases, and what they make of a
-- row (service.py).
use ra_backend.Base.{
  String, Bool, true, false, not, ◌&&◌, ◌||◌, Option, none, some, List, ◌==◌, exists, if◌then◌else◌,
}
use ra_backend.Models.{Case, case_severities, case_statuses}
use ra_backend.Models.Common.{Timestamp, Float}

-- The `Literal` types of the schemas
pub data CaseSeverity : Type 0 where
  low medium high critical : CaseSeverity

pub data CaseStatus : Type 0 where
  opened in_progress resolved closed cancelled : CaseStatus

abbrev pub severity_text : CaseSeverity → String
severity_text low = "low"
severity_text medium = "medium"
severity_text high = "high"
severity_text critical = "critical"

abbrev pub status_text : CaseStatus → String
status_text opened = "Open"
status_text in_progress = "In Progress"
status_text resolved = "Resolved"
status_text closed = "Closed"
status_text cancelled = "Cancelled"

pub record CaseCreate : Type 0 where
  pub title : String
  pub description : String
  pub severity : CaseSeverity
  pub status : CaseStatus
  pub owner : Option String
  pub linked_txn_id : Option String
  pub estimated_impact : Option Float

-- A field of a PATCH body: absent, null, or a value.
pub data Patch (A : Type 0) : Type 0 where
  unset null : Patch A
  given : A → Patch A

pub record CaseUpdate : Type 0 where
  pub title : Patch String
  pub description : Patch String
  pub severity : Patch CaseSeverity
  pub status : Patch CaseStatus
  pub owner : Patch String
  pub estimated_impact : Patch Float

abbrev pub is_null : {A : Type 0} → Patch A → Bool
is_null unset = false
is_null null = true
is_null (given a) = false

-- `setattr` of a column that takes no NULL; a null never gets past the flush.
abbrev pub patch_text : {A : Type 0} → (A → String) → Patch A → String → String
patch_text show unset old = old
patch_text show null old = old
patch_text show (given a) old = show a

abbrev pub patch_optional : {A : Type 0} → Patch A → Option A → Option A
patch_optional unset old = old
patch_optional null old = none
patch_optional (given a) old = some a

unfoldable pub is_in : List String → String → Bool
is_in texts t = exists (λ u. u == t) texts

-- The CHECK constraints of `cases`.
unfoldable pub checks : Case → Bool
unfolding is_in
checks c = is_in case_severities c.severity && is_in case_statuses c.status

abbrev pub case_is : String → Case → Bool
case_is id c = c.id == id

-- A PATCH that sets a column to NULL that takes none.
abbrev pub nulls_required : CaseUpdate → Bool
nulls_required p =
    is_null p.title || is_null p.description || is_null p.severity || is_null p.status

-- The attributes that the fields of a PATCH set.
abbrev pub patch_case : CaseUpdate → Case → Case
patch_case p c = record c {
  title = patch_text (λ t. t) p.title c.title;
  description = patch_text (λ t. t) p.description c.description;
  severity = patch_text severity_text p.severity c.severity;
  status = patch_text status_text p.status c.status;
  owner = patch_optional p.owner c.owner;
  estimated_impact = patch_optional p.estimated_impact c.estimated_impact;
}

abbrev pub same_value : {A : Type 0} → (A → A → Bool) → Option A → Option A → Bool
same_value eq none none = true
same_value eq (some a) (some b) = eq a b
same_value eq _ _ = false

-- A field that is set to another value than the row's.
abbrev pub text_changes : {A : Type 0} → (A → String) → Patch A → String → Bool
text_changes show p old = not (patch_text show p old == old)

abbrev pub optional_changes : {A : Type 0} → (A → A → Bool) → Patch A → Option A → Bool
optional_changes eq p old = not (same_value eq (patch_optional p old) old)

-- Whether a PATCH sets an attribute to another value than the row has.
unfoldable pub changes : (Float → Float → Bool) → CaseUpdate → Case → Bool
changes eq p c =
    text_changes (λ t. t) p.title c.title
    || text_changes (λ t. t) p.description c.description
    || text_changes severity_text p.severity c.severity
    || text_changes status_text p.status c.status
    || optional_changes (λ a b. a == b) p.owner c.owner
    || optional_changes eq p.estimated_impact c.estimated_impact

-- The row after the flush: an UPDATE, with `onupdate`, is sent only where an attribute changed.
unfoldable pub flush_case : (Float → Float → Bool) → Timestamp → CaseUpdate → Case → Case
unfolding changes
flush_case eq now p c = record (patch_case p c) {
  updated_at = if changes eq p c then now else c.updated_at;
}

-- The `Case(...)` of `create_case`
abbrev pub new_case : CaseCreate → String → String → String → Timestamp → Case
new_case payload id reference owner_id created = record {
  id = id;
  reference = reference;
  title = payload.title;
  description = payload.description;
  severity = severity_text payload.severity;
  status = status_text payload.status;
  owner = payload.owner;
  owner_id = some owner_id;
  linked_txn_id = payload.linked_txn_id;
  estimated_impact = payload.estimated_impact;
  updated_at = created;
}
