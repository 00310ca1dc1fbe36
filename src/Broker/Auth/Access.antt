-- ===== src/Broker/Auth/Access.antt =====
-- Who gets in, by mqtt-broker/src/auth.rs.
use atom_mqtt.Prelude.{
  ◌≡◌, ◌↔◌, refl, Bool, true, false, ◌&&◌, Option, none, some, List, Any, any_iff, Bytes, str_eq,
  str_eq_iff, arith, inl, inr, Bool-cases, [],
}
use atom_mqtt.Broker.Auth.{
  AuthMethod, open_to_all, file, AuthResult, success, denied, or_else, has_user, by_file, by_none,
  by_method, authenticate,
}

-- The name and the password stand in the list.
abbrev pub Registered : List (Bytes × Bytes) → Bytes → Bytes → Type 0
Registered users user pass = Any (λ e. (e.0 ≡ user) × (e.1 ≡ pass)) users

has_user_iff :
    (users : List (Bytes × Bytes)) (user pass : Bytes)
    → (has_user users user pass ≡ true) ↔ Registered users user pass
unfolding has_user
has_user_iff users user pass =
    any_iff (λ e. str_eq e.0 user && str_eq e.1 pass) (λ e. (e.0 ≡ user) × (e.1 ≡ pass))
      (λ e. ground (arith, str_eq_iff e.0 user, str_eq_iff e.1 pass)) users

-- The answer is one that lets the client in.
abbrev pub Admitted : AuthResult → Type 0
Admitted (success username) = Unit
Admitted (denied kind) = ⊥

-- Under a credentials file, a client that gives a name gets in exactly when the name stands in the
-- file with the password it gave, an absent password being the empty one; whether anonymous clients
-- are allowed plays no part.
pub authenticate-file_iff :
    (path : Bytes) (users : List (Bytes × Bytes)) (allow_anonymous : Bool) (user : Bytes)
    (password : Option Bytes)
    → Admitted (
        authenticate
          (record { method = file path; users = users })
          allow_anonymous
          (some user)
          password)
      ↔ Registered users user (or_else password [])
unfolding authenticate by_method by_file
authenticate-file_iff path users allow_anonymous user password =
    elim (Bool-cases (has_user users user (or_else password []))) [
      | inl e ↦ rw e (λ u. (has_user_iff users user (or_else password [])).0 e, λ r. tt)
      | inr e ↦ rw e (
        λ u. absurd u,
        λ r. false_true (rw e at (has_user_iff users user (or_else password [])).1 r),
      )
    ]
  where
    false_true : false ≡ true → ⊥
    false_true e = cc

-- A client that gives no name gets in exactly when anonymous clients are allowed, by either method.
pub authenticate-anonymous_iff :
    (method : AuthMethod) (users : List (Bytes × Bytes)) (allow_anonymous : Bool)
    (password : Option Bytes)
    → Admitted
        (authenticate (record { method = method; users = users }) allow_anonymous none password)
      ↔ (allow_anonymous ≡ true)
unfolding authenticate by_method by_file by_none
authenticate-anonymous_iff open_to_all users true password = (λ u. refl, λ e. tt)
authenticate-anonymous_iff open_to_all users false password =
    (λ u. absurd u, λ e. ground (arith, e))
authenticate-anonymous_iff (file path) users true password = (λ u. refl, λ e. tt)
authenticate-anonymous_iff (file path) users false password =
    (λ u. absurd u, λ e. ground (arith, e))
