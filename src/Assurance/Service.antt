-- ===== src/Assurance/Service.antt =====
-- app/modules/assurance/service.py and schemas.py: the operations that write.
use ra_backend.Base.{String, not, some, [], ◌∷◌, ◌++◌, ◌==◌, length, select, exists, modify}
use ra_backend.Base.Numbered.{reference_at}
use ra_backend.Models.{Case, CaseComment, SavedQuery}
use ra_backend.Models.Common.{Json}
use ra_backend.Core.Errors.{app, not_found}
use ra_backend.Core.World.{
  World, unique_violation, foreign_key_violation, check_violation, not_null_violation,
}
use ra_backend.Core.Exec.{
  Exec, pure, or_raise, query, draw, write, violation, scalar_one_or_none, started_at, ◌>>=◌, ◌>>◌,
}
use ra_backend.Assurance.Payloads.{
  CaseCreate, CaseUpdate, checks, case_is, nulls_required, flush_case, new_case,
}

-- `_next_case_reference`
unfoldable pub next_case_reference : Exec String
next_case_reference = query (λ db. reference_at "CASE-" 2000 (length db.cases))

abbrev pub find_case : String → Exec Case
find_case case_id = do
  rows ← query (λ db. select (case_is case_id) db.cases)
  found ← scalar_one_or_none rows
  or_raise found (app not_found "Case not found." [])

pub record SavedQueryCreate : Type 0 where
  pub name : String
  pub definition : Json

module _ {T : Type 0} (w : World T) where
  -- `db.add(case)` and its flush: unique id and reference, and the checks.
  unfoldable pub add_case : Case → Exec (Unit {0})
  unfolding checks
  add_case c = do
    violation w (not (checks c)) check_violation
    same_id ← query (λ db. exists (case_is c.id) db.cases)
    violation w same_id unique_violation
    same_reference ← query (λ db. exists (λ (d : Case). d.reference == c.reference) db.cases)
    violation w same_reference unique_violation
    write (λ db. record db { cases = db.cases ++ c ∷ [] })

  unfoldable pub create_case : CaseCreate → String → Exec Case
  unfolding next_case_reference add_case
  create_case payload owner_id = do
    reference ← next_case_reference
    id ← draw w.uuid_str
    created ← started_at
    let case = new_case payload id reference owner_id created
    add_case case
    pure case

  unfoldable pub update_case : String → CaseUpdate → Exec Case
  unfolding checks flush_case
  update_case case_id payload = do
    case ← find_case case_id
    now ← started_at
    let flush = flush_case w.float_eq now payload
    violation w (nulls_required payload) not_null_violation
    violation w (not (checks (flush case))) check_violation
    write (λ db. record db { cases = modify (case_is case.id) flush db.cases })
    pure (flush case)

  unfoldable pub add_comment : String → String → String → Exec CaseComment
  add_comment case_id body author = do
    find_case case_id
    at ← draw w.clock
    id ← draw w.uuid_str
    let comment : CaseComment = record {
      id = id;
      case_id = case_id;
      author = author;
      body = body;
      created_at = at;
    }
    same_id ← query (λ db. exists (λ (c : CaseComment). c.id == id) db.comments)
    violation w same_id unique_violation
    has_case ← query (λ db. exists (case_is case_id) db.cases)
    violation w (not has_case) foreign_key_violation
    write (λ db. record db { comments = db.comments ++ comment ∷ [] })
    pure comment

  unfoldable pub create_saved_query : SavedQueryCreate → String → Exec SavedQuery
  create_saved_query payload owner = do
    count ← query (λ db. length db.saved_queries)
    created ← started_at
    id ← draw w.uuid_str
    let saved : SavedQuery = record {
      id = id;
      reference = reference_at "Q-" 500 count;
      name = payload.name;
      owner = some owner;
      definition = payload.definition;
      last_count = 0;
      created_at = created;
    }
    same_id ← query (λ db. exists (λ (q : SavedQuery). q.id == id) db.saved_queries)
    violation w same_id unique_violation
    same_reference ←
        query (λ db. exists (λ (q : SavedQuery). q.reference == saved.reference) db.saved_queries)
    violation w same_reference unique_violation
    write (λ db. record db { saved_queries = db.saved_queries ++ saved ∷ [] })
    pure saved
