-- ===== src/Models/Assurance.antt =====
-- app/modules/assurance/models.py
use ra_backend.Base.{String, ℕ, Option, List, [], ◌∷◌}
use ra_backend.Models.Common.{Timestamp, Json, Float}

abbrev pub case_severities : List String
case_severities = "low" ∷ "medium" ∷ "high" ∷ "critical" ∷ []

abbrev pub case_statuses : List String
case_statuses = "Open" ∷ "In Progress" ∷ "Resolved" ∷ "Closed" ∷ "Cancelled" ∷ []

pub record Case : Type 0 where
  pub id : String
  pub reference : String
  pub title : String
  pub description : String
  pub severity : String
  pub status : String
  pub owner : Option String
  pub owner_id : Option String
  pub linked_txn_id : Option String
  pub estimated_impact : Option Float
  pub updated_at : Timestamp

pub record CaseComment : Type 0 where
  pub id : String
  pub case_id : String
  pub author : String
  pub body : String
  pub created_at : Timestamp

pub record SavedQuery : Type 0 where
  pub id : String
  pub reference : String
  pub name : String
  pub owner : Option String
  pub definition : Json
  pub last_count : ℕ
  pub created_at : Timestamp
