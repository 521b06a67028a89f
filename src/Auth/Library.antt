-- ===== src/Auth/Library.antt =====
-- What authentication takes from jose, argon2, hashlib, hmac, secrets and uuid, and what it relies on.
use backend_project.Prelude.{
  ℕ, Uuid, String, Time, Bool, true, false, ◌&&◌, ◌<◌, ◌≡◌, Option, some, str_eq, if◌then◌else◌,
}
use backend_project.Errors.{Result, ok, raised, failure}
use backend_project.Access.{Claims, TokenLibrary}

-- What `PasswordHasher.verify` does: it returns True, or raises VerifyMismatchError, or another error.
pub data Verdict : Type 0 where
  matches mismatch broken : Verdict

pub record Library : Type 0 where
  -- `jwt.encode` and `jwt.decode` with the key for access tokens and with that for refresh tokens
  pub encode_access : Claims → String
  pub encode_refresh : Claims → String
  pub decode_access : Time → String → Option Claims
  pub decode_refresh : Time → String → Option Claims
  -- `str(uuid)` and `uuid.UUID(text)`
  pub show_uuid : Uuid → String
  pub parse_uuid : String → Option Uuid
  -- `PasswordHasher.hash`, with a salt, and `PasswordHasher.verify`
  pub hash : String → String → String
  pub verify : String → String → Verdict
  -- `sha256(…).hexdigest()`
  pub sha256 : String → String
  -- `compare_digest` refuses text that is not ASCII
  pub is_ascii : String → Bool

-- The library for access tokens at a point in time
abbrev pub access_library : Library → Time → TokenLibrary
access_library library now = record {
  decode = library.decode_access now;
  parse_uuid = library.parse_uuid;
}

-- Tokens and ids are read back, until the token expires; a password matches its hash.
pub record IsFaithful (library : Library) : Type 0 where
  pub access_back :
      (c : Claims) (now : Time)
      → now < c.exp
      → library.decode_access now (library.encode_access c) ≡ some c
  pub refresh_back :
      (c : Claims) (now : Time)
      → now < c.exp
      → library.decode_refresh now (library.encode_refresh c) ≡ some c
  -- The payload lies in the text.
  pub refresh_stable :
      (c d : Claims) (now later : Time) (token : String)
      → library.decode_refresh now token ≡ some c
      → library.decode_refresh later token ≡ some d
      → c ≡ d
  pub uuid_back : (id : Uuid) → library.parse_uuid (library.show_uuid id) ≡ some id
  pub uuid_shown : (id : Uuid) → str_eq (library.show_uuid id) "" ≡ false
  pub password_back : (salt p : String) → library.verify p (library.hash salt p) ≡ matches

-- `verify_password`
abbrev pub verdict : Verdict → Result Bool
verdict matches = ok true
verdict mismatch = ok false
verdict broken = raised failure

abbrev pub verify_password : Library → String → String → Result Bool
verify_password library password hashed_password = verdict (library.verify password hashed_password)

abbrev pub compare_digest : Library → String → String → Result Bool
compare_digest library a b =
    if library.is_ascii a && library.is_ascii b then ok (str_eq a b) else raised failure

-- The settings that authentication and reservations read.
pub record Settings : Type 0 where
  pub access_token_expire_minutes : ℕ
  pub refresh_token_expire_days : ℕ
  pub email_verification_token_expire_hours : ℕ
  pub password_reset_token_expire_minutes : ℕ
  pub email_verification_master_token : Option String
  pub reservation_ttl_seconds : ℕ
  pub auth_rate_limit_per_minute : ℕ
