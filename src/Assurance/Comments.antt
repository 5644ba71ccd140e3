-- ===== src/Assurance/Comments.antt =====
-- What a comment on a case stores.
use ra_backend.Base.{
  ◌+◌, String, false, [], ◌∷◌, ◌++◌, ◌≡◌, refl, ◌==◌, select, exists, exists_of_found,
  test_of_select,
}
use ra_backend.Models.{Case, CaseComment}
use ra_backend.Core.Errors.{app, not_found}
use ra_backend.Core.World.{World}
use ra_backend.Core.Exec.{Tx, ok, err}
use ra_backend.Assurance.Payloads.{case_is}
use ra_backend.Assurance.Service.{add_comment}

module _ {T : Type 0} (w : World T) (s : Tx) (case_id body author : String) where
  -- The comment of a request.
  abbrev pub added_comment : CaseComment
  added_comment = record {
    id = w.uuid_str (s.draws + 1);
    case_id = case_id;
    author = author;
    body = body;
    created_at = w.clock s.draws;
  }

  -- Where the drawn id of the comment is new: a comment on a case that is not there is refused and
  -- changes nothing, and one on a case that is there once is added as the last row, with its
  -- author, text and time.
  pub add_comment_needs_case :
      exists (λ (c : CaseComment). c.id == w.uuid_str (s.draws + 1)) s.current.comments ≡ false
      → ((select (case_is case_id) s.current.cases ≡ [])
          → add_comment w case_id body author s ≡ (err (app not_found "Case not found." []), s))
        × ((case : Case)
            → select (case_is case_id) s.current.cases ≡ case ∷ []
            → add_comment w case_id body author s ≡ (
              ok added_comment,
              record s {
                current = record s.current { comments = s.current.comments ++ added_comment ∷ [] };
                draws = s.draws + 1 + 1;
              },
            ))
  unfolding add_comment
  add_comment_needs_case fresh = (
    λ absent. rw absent refl,
    λ case found.
        rw
          (
            found,
            fresh,
            exists_of_found (case_is case_id) (case_is case_id) s.current.cases case [] found
                (test_of_select (case_is case_id) s.current.cases case [] found),
          )
          refl,
  )
