-- ===== src/Broker/Auth.antt =====
-- Authentication in mqtt-broker/src/auth.rs.
pub mod Access
pub mod Users
use atom_mqtt.Prelude.{
  ℕ, ◌≡◌, ◌↔◌, Bool, true, false, ◌&&◌, Option, none, some, List, [], ◌∷◌, if◌then◌else◌, any,
  Bytes, codes, str_eq, arith,
}
use atom_mqtt.Common.Split.{splitn, lines, trim}

-- `AuthMethod` of config.rs
pub data AuthMethod : Type 0 where
  open_to_all : AuthMethod
  file : Bytes → AuthMethod

pub data AuthErrorKind : Type 0 where
  bad_username_or_password anonymous_disallowed not_authorized : AuthErrorKind

pub data AuthResult : Type 0 where
  success : Bytes → AuthResult
  denied : AuthErrorKind → AuthResult

pub record Authenticator : Type 0 where
  pub method : AuthMethod
  pub users : List (Bytes × Bytes)

-- A line of the credentials file: text without a colon is skipped.
unfoldable pub user_of : List Bytes → List (Bytes × Bytes)
user_of (name ∷ password ∷ []) = (trim name, trim password) ∷ []
user_of _ = []

unfoldable pub users_of : List Bytes → List (Bytes × Bytes)
unfolding user_of
users_of [] = []
users_of (line ∷ rest) = elim (user_of (splitn 2 b':' line)) [
  | [] ↦ users_of rest
  | u ∷ _ ↦ u ∷ users_of rest
]

-- `Authenticator::new`; `read_to_string` is the file system, and a file that cannot be read counts
-- as empty.
unfoldable pub new : (Bytes → Option Bytes) → AuthMethod → Authenticator
unfolding users_of
new read_to_string open_to_all = record { method = open_to_all; users = [] }
new read_to_string (file path) = record {
  method = file path;
  users = users_of (lines (elim (read_to_string path) [ none ↦ [] | some content ↦ content ]));
}

abbrev pub or_else {ℓ} : {A : Type ℓ} → Option A → A → A
or_else none d = d
or_else (some a) d = a

unfoldable pub has_user : List (Bytes × Bytes) → Bytes → Bytes → Bool
has_user users user pass = any (λ e. str_eq e.0 user && str_eq e.1 pass) users

unfoldable pub by_file : List (Bytes × Bytes) → Bool → Option Bytes → Option Bytes → AuthResult
by_file users allow_anonymous (some user) password =
    if has_user users user (or_else password [])
    then success user
    else denied bad_username_or_password
by_file users allow_anonymous none password =
    if allow_anonymous then success (codes "anonymous") else denied anonymous_disallowed

unfoldable pub by_none : Bool → Option Bytes → AuthResult
by_none true username = success (or_else username (codes "anonymous"))
by_none false (some user) = success user
by_none false none = denied anonymous_disallowed

unfoldable pub by_method :
    AuthMethod → List (Bytes × Bytes) → Bool → Option Bytes → Option Bytes → AuthResult
by_method open_to_all users allow_anonymous username password = by_none allow_anonymous username
by_method (file path) users allow_anonymous username password =
    by_file users allow_anonymous username password

unfoldable pub authenticate : Authenticator → Bool → Option Bytes → Option Bytes → AuthResult
authenticate self allow_anonymous username password =
    by_method self.method self.users allow_anonymous username password
