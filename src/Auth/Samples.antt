-- ===== src/Auth/Samples.antt =====
-- A token library on which the tests run: the payload is written out in the token, so that it is
-- read back, and a hashed password is the password.
use Prim.Native.Char.{Char, char}
use Prim.Native.String.{[], ◌∷◌}
use backend_project.Prelude.{
  ℕ, zero, suc, String, Time, true, false, ltb, str_eq, str_eq_iff, Bool-cases, inl, inr,
  if◌then◌else◌, Option, none, some, ◌≡◌, ◌≢◌, refl, arith, ◌<◌,
}
use backend_project.Models.Enums.{UserRole, super_admin, tenant_admin, warehouse_manager, analyst}
use backend_project.Access.{Claims}
use backend_project.Auth.Library.{Library, Settings, IsFaithful, matches, mismatch}

abbrev stop : Char
stop = char 0 tt

abbrev more : Char
more = char 1 tt

unfoldable write_number : ℕ → String → String
write_number zero rest = stop ∷ rest
write_number (suc n) rest = more ∷ write_number n rest

abbrev next : Option (ℕ × String) → Option (ℕ × String)
next none = none
next (some (n, rest)) = some (suc n, rest)

unfoldable read_number : String → Option (ℕ × String)
read_number [] = none
read_number (char zero _ ∷ rest) = some (0, rest)
read_number (char (suc _) _ ∷ rest) = next (read_number rest)

number_back : (n : ℕ) (rest : String) → read_number (write_number n rest) ≡ some (n, rest)
unfolding write_number read_number
number_back zero rest = refl
number_back (suc n) rest = rw (number_back n rest) refl

unfoldable write_text : String → String → String
write_text [] rest = stop ∷ rest
write_text (c ∷ s) rest = more ∷ c ∷ write_text s rest

abbrev prepend : Char → Option (String × String) → Option (String × String)
prepend c none = none
prepend c (some (s, rest)) = some (c ∷ s, rest)

unfoldable read_text : String → Option (String × String)
read_text [] = none
read_text (char zero _ ∷ rest) = some ([], rest)
read_text (char (suc _) _ ∷ []) = none
read_text (char (suc _) _ ∷ c ∷ rest) = prepend c (read_text rest)

text_back : (s rest : String) → read_text (write_text s rest) ≡ some (s, rest)
unfolding write_text read_text
text_back [] rest = refl
text_back (c ∷ s) rest = rw (text_back s rest) refl

abbrev write_jti : Option String → String → String
write_jti none rest = stop ∷ rest
write_jti (some s) rest = more ∷ write_text s rest

abbrev with_text : Option (String × String) → Option (Option String × String)
with_text none = none
with_text (some (s, rest)) = some (some s, rest)

abbrev read_jti : String → Option (Option String × String)
read_jti [] = none
read_jti (char zero _ ∷ rest) = some (none, rest)
read_jti (char (suc _) _ ∷ rest) = with_text (read_text rest)

jti_back : (o : Option String) (rest : String) → read_jti (write_jti o rest) ≡ some (o, rest)
jti_back none rest = refl
jti_back (some s) rest = rw (text_back s rest) refl

abbrev role_number : Option UserRole → ℕ
role_number none = 0
role_number (some super_admin) = 1
role_number (some tenant_admin) = 2
role_number (some warehouse_manager) = 3
role_number (some analyst) = 4

abbrev role_of : ℕ → Option UserRole
role_of zero = none
role_of (suc zero) = some super_admin
role_of (suc (suc zero)) = some tenant_admin
role_of (suc (suc (suc zero))) = some warehouse_manager
role_of (suc (suc (suc (suc n)))) = some analyst

role_back : (o : Option UserRole) → role_of (role_number o) ≡ o
role_back none = refl
role_back (some super_admin) = refl
role_back (some tenant_admin) = refl
role_back (some warehouse_manager) = refl
role_back (some analyst) = refl

abbrev write : Claims → String
write c = write_text c.typ (
    write_text c.sub (
      write_text c.tenant_id
        (write_jti c.jti (write_number c.exp (write_number (role_number c.role) [])))))

abbrev then_read : {A B : Type 0} → Option (A × String) → (A → String → Option B) → Option B
then_read none f = none
then_read (some (a, rest)) f = f a rest

abbrev read : String → Option Claims
read token = then_read (read_text token) λ typ s1. then_read (read_text s1) λ sub s2.
    then_read (read_text s2) λ tenant_id s3. then_read (read_jti s3) λ jti s4.
      then_read (read_number s4) λ exp s5. then_read (read_number s5) λ role s6. some (record {
        typ = typ;
        sub = sub;
        tenant_id = tenant_id;
        role = role_of role;
        jti = jti;
        exp = exp;
      })

read-write : (c : Claims) → read (write c) ≡ some c
read-write c = rw (text_back c.typ _) (
    rw (text_back c.sub _) (
      rw (text_back c.tenant_id _) (
        rw (jti_back c.jti _) (
          rw (number_back c.exp _)
            (rw (number_back (role_number c.role) _) (rw (role_back c.role) refl))))))

abbrev valid : Time → Option Claims → Option Claims
valid now none = none
valid now (some c) = if ltb now c.exp then some c else none

abbrev number_of : Option (ℕ × String) → Option ℕ
number_of none = none
number_of (some (n, rest)) = some n

unfoldable pub plain : Library
unfolding write_number read_number write_text read_text
plain = record {
  encode_access = write;
  encode_refresh = write;
  decode_access = λ now token. valid now (read token);
  decode_refresh = λ now token. valid now (read token);
  show_uuid = λ id. write_number id [];
  parse_uuid = λ text. number_of (read_number text);
  hash = λ salt password. password;
  verify = λ password hashed. if str_eq password hashed then matches else mismatch;
  sha256 = λ text. text;
  is_ascii = λ text. true;
}

valid-some : (now : Time) (c : Claims) → now < c.exp → valid now (some c) ≡ some c
valid-some now c h = let live : ltb now c.exp ≡ true = ground arith in rw live refl

valid_same :
    (now later : Time) (o : Option Claims) (c d : Claims)
    → valid now o ≡ some c
    → valid later o ≡ some d
    → c ≡ d
valid_same now later o c d e f = ground arith

marked : (id : ℕ) → write_number id [] ≢ ""
unfolding write_number
marked zero e = cc
marked (suc n) e = cc

shown : (id : ℕ) → str_eq (write_number id []) "" ≡ false
shown id = elim (Bool-cases (str_eq (write_number id []) "")) [
  | inl e ↦ absurd (marked id ((str_eq_iff _ _).0 e))
  | inr e ↦ e
]

pub plain-IsFaithful : IsFaithful plain
unfolding plain
plain-IsFaithful = record {
  access_back = λ c now h. rw (read-write c) (valid-some now c h);
  refresh_back = λ c now h. rw (read-write c) (valid-some now c h);
  refresh_stable = λ c d now later token e f. valid_same now later (read token) c d e f;
  uuid_back = λ id. rw (number_back id []) refl;
  uuid_shown = shown;
  password_back = λ k p. rw ((str_eq_iff p p).1 refl) refl;
}

abbrev pub settings : Settings
settings = record {
  access_token_expire_minutes = 30;
  refresh_token_expire_days = 7;
  email_verification_token_expire_hours = 24;
  password_reset_token_expire_minutes = 30;
  email_verification_master_token = none;
  reservation_ttl_seconds = 900;
  auth_rate_limit_per_minute = 5;
}
