-- ===== src/Examples.antt =====
-- A concrete world and concrete rows, on which the theorems are applied.
pub mod Login
pub mod Runs
pub mod Sessions
pub mod Accounts
pub mod Records
pub mod Schemas
pub mod Stores
pub mod Reads
pub mod Clients
use package.text.Mathlib.Text.{starts_with}
use package.text.Mathlib.TextPositions.{starts_with-append}
use ra_backend.Base.{
  ℕ, ◌+◌, ◌*◌, ◌≤◌, ◌<◌, String, Bool, true, false, Option, none, some, List, [], ◌∷◌, ◌≡◌, refl,
  ◌==◌, ltb, lt→ltb, le→not_ltb, sym, ap, ◌∙◌, ◌≢◌, ne→not_eq, beq, join, if◌then◌else◌, eq_refl,
}
use ra_backend.Base.Decimal.{str}
use ra_backend.Base.Dict
use ra_backend.Base.Text.{lower}
use ra_backend.Models.{Db, Role, User, UserSession}
use ra_backend.Models.Common.{Timestamp, Float}
use ra_backend.Core.Errors.{PyError}
use ra_backend.Core.Config.{default_settings}
use ra_backend.Core.World.{
  World, Value, text, num, Claims, Outcome, returned, raised, second, Constraint,
}
use ra_backend.Core.Exec.{Tx}
use ra_backend.Core.Passwords.Laws.{ArgonLaws}
use ra_backend.Core.Tokens.Laws.{IsMinted, JwtLaws}
use ra_backend.Core.Rbac.{full, default_permissions_for}
use ra_backend.Identity.Audit.{Context}

-- An encoded token: its claims and the key that signed it.
abbrev pub Signed : Type 0
Signed = Claims × String

abbrev in_time : Timestamp → Claims → Option Value → Outcome Claims
in_time now c none = returned c
in_time now c (some (text s)) = raised PyError.py_jwt_error
in_time now c (some (num exp)) =
    if ltb now (exp * second) then returned c else raised PyError.expired_signature

unfoldable pub decode_signed : Timestamp → Signed → String → String → Outcome Claims
unfolding Dict.get
decode_signed now (c, key) secret algorithm =
    if key == secret then in_time now c (Dict.get c "exp") else raised PyError.py_jwt_error

-- A text behind the tag of an Argon2 hash
abbrev pub tagged_hash : String → String
tagged_hash p = join ("$argon2" ∷ "id$" ∷ p ∷ [])

tagged_starts : (p : String) → starts_with (tagged_hash p) "$argon2" ≡ true
tagged_starts p = starts_with-append "$argon2" (join ("id$" ∷ p ∷ []))

tagged_filled : (p : String) → tagged_hash p ≢ ""
tagged_filled p e = let no = ap (λ h. starts_with h "$argon2") e in let yes = tagged_starts p in cc

-- Equality of the bit patterns
abbrev pub float_bits : Float → Float → Bool
float_bits = beq

abbrev pub a_world : World Signed
a_world = record {
  settings = record default_settings {
    jwt_secret = "secret";
    jwt_algorithm = "HS256";
    access_token_expire_minutes = 15;
    refresh_token_expire_minutes = 1440;
    max_failed_logins = 3;
    lockout_minutes = 15;
    clickhouse_enabled = true;
    airflow_enabled = false;
    reports_dir = "/var/reports";
    bootstrap_admin_password = "pw";
  };
  clock = λ n. 1_000_000_000 + n * 1000;
  uuid_str = λ n. join ("id-" ∷ str n ∷ []);
  uuid_hex = λ n. join ("hex-" ∷ str n ∷ []);
  argon_hash = λ n p. tagged_hash p;
  argon_verify =
      λ h p. if h == tagged_hash p then returned true else raised PyError.verify_mismatch;
  argon_check_needs_rehash = λ h. returned false;
  bcrypt_checkpw = λ p h. returned (h == join ("$2b$" ∷ p ∷ []));
  jwt_encode = λ c secret algorithm. (c, secret);
  jwt_decode = decode_signed;
  token_text = λ t. "token";
  sql_lower = lower;
  sql_before = λ s t. true;
  float_eq = float_bits;
  origin_name = λ c. "IntegrityError";
}

pub a_world_argon : ArgonLaws a_world
a_world_argon = record {
  tagged = λ n p. tagged_starts p;
  tag_not_empty = λ n p. rw (ne→not_eq _ _ (tagged_filled p)) refl;
  verifies = λ n p. rw (eq_refl (tagged_hash p)) refl;
  current = λ n p. refl;
}

pub a_world_jwt : JwtLaws a_world
unfolding decode_signed
a_world_jwt = record {
  decode-encode =
      λ c subject iat exp now minted from until. rw (minted.exp_claim, lt→ltb _ _ until) refl;
  decode_expired =
      λ c subject iat exp now minted from over. rw (minted.exp_claim, le→not_ltb _ _ over) refl;
}

abbrev pub a_context : Context
a_context = record { client_ip = some "10.0.0.7"; user_agent = none; request_id = none }

abbrev pub a_role : Role
a_role = record {
  id = "viewer";
  name = "Viewer";
  description = "";
  status = "Active";
  permissions = default_permissions_for "viewer";
  is_system = true;
  created_at = 0;
}

-- A user with a current hash, and one with a hash of an older scheme.
abbrev pub user_of : String → String → String → User
user_of id email hash = record {
  id = id;
  full_name = "Ann Lee";
  email = email;
  phone = none;
  department = none;
  hashed_password = hash;
  role_id = "viewer";
  status = "Active";
  avatar = none;
  last_login = none;
  failed_login_count = 0;
  locked_until = none;
  must_reset_password = true;
  password_changed_at = none;
  created_at = 0;
}

abbrev pub ann : User
ann = user_of "ann" "ann@x.org" "$argon2id$pw"

abbrev pub bob : User
bob = user_of "bob" "bob@x.org" "$2b$pw"

abbrev pub a_session : UserSession
a_session = record {
  id = "s1";
  user_id = "ann";
  refresh_jti = "j1";
  user_agent = none;
  ip_address = none;
  issued_at = 0;
  expires_at = 2_000_000_000;
  revoked_at = none;
  last_seen_at = none;
}

abbrev pub revoked_session : UserSession
revoked_session = record a_session { revoked_at = some 5 }

abbrev pub db_with : List UserSession → Db
db_with sessions = record {
  roles = a_role ∷ [];
  users = ann ∷ bob ∷ [];
  sessions = sessions;
  audit_logs = [];
  cases = [];
  comments = [];
  saved_queries = [];
  decoders = [];
  configs = [];
  alerts = [];
  reports = [];
}

abbrev pub state_of : Db → Tx
state_of db = record { committed = db; current = db; started = 0; draws = 0 }

abbrev pub a_state : Tx
a_state = state_of (db_with (a_session ∷ []))

abbrev pub revoked_state : Tx
revoked_state = state_of (db_with (revoked_session ∷ []))
