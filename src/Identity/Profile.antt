-- ===== src/Identity/Profile.antt =====
-- app/modules/identity/service.py, the mappers to the response shapes, and the initials.
use ra_backend.Base.{
  ◌≡◌, refl, String, Bool, Option, none, some, List, [], ◌∷◌, select, non_empty, or_text, join,
  if◌then◌else◌,
}
use ra_backend.Base.Dict
use ra_backend.Base.Text.{is_blank, pieces, take, upper}
use ra_backend.Models.{Role, User}
use ra_backend.Models.Common.{Timestamp}
use ra_backend.Core.Rbac.{role_labels}

last : String → List String → String
last p [] = p
last p (q ∷ r) = last q r

-- `name.split()`
words : String → List String
unfolding is_blank pieces
words name = select non_empty (pieces is_blank name)

abbrev of_parts : List String → String
of_parts [] = "?"
of_parts (p ∷ []) = upper (take 2 p)
of_parts (p ∷ q ∷ r) = upper (join (take 1 p ∷ take 1 (last q r) ∷ []))

-- `_initials`
unfoldable pub initials : String → String
unfolding words take upper last
initials name = of_parts (words name)

label_or : Option String → String → String
label_or none d = d
label_or (some l) d = l

-- `_role_label`
unfoldable pub role_label : Option Role → String → String
unfolding Dict.get label_or
role_label none role_id = label_or (Dict.get role_labels role_id) role_id
role_label (some role) role_id =
    if non_empty role.name then role.name else label_or (Dict.get role_labels role_id) role_id

pub record AuthUser : Type 0 where
  pub id : String
  pub name : String
  pub email : String
  pub role : String
  pub label : String
  pub department : Option String
  pub avatar : String
  pub status : String
  pub last_login : Option Timestamp
  pub must_reset_password : Bool

-- `to_auth_user`, with the user's joined role
unfoldable pub to_auth_user : Option Role → User → AuthUser
unfolding role_label initials
to_auth_user role user = record {
  id = user.id;
  name = user.full_name;
  email = user.email;
  role = user.role_id;
  label = role_label role user.role_id;
  department = user.department;
  avatar = or_text user.avatar (initials user.full_name);
  status = user.status;
  last_login = user.last_login;
  must_reset_password = user.must_reset_password;
}

pub record UserRow : Type 0 where
  pub id : String
  pub full_name : String
  pub email : String
  pub phone : Option String
  pub department : Option String
  pub role : String
  pub status : String
  pub last_login : Option Timestamp
  pub created_at : Timestamp

unfoldable pub to_user_row : User → UserRow
to_user_row user = record {
  id = user.id;
  full_name = user.full_name;
  email = user.email;
  phone = user.phone;
  department = user.department;
  role = user.role_id;
  status = user.status;
  last_login = user.last_login;
  created_at = user.created_at;
}

test_initials : initials "Liam  O'Connor" ≡ "LO"
unfolding initials
test_initials = refl
