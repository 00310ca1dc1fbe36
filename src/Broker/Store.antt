-- ===== src/Broker/Store.antt =====
-- What the broker relies on of the `dashmap` crate: a map with text keys. The order of iteration is
-- the crate's.
use atom_mqtt.Prelude.{◌≡◌, ◌↔◌, Option, none, some, List, Any, if◌then◌else◌, Bytes, str_eq}

pub record DashMap : Type 1 where
  pub Map : Type 0 → Type 0
  pub new : (V : Type 0) → Map V
  pub get : {V : Type 0} → Map V → Bytes → Option V
  pub insert : {V : Type 0} → Map V → Bytes → V → Map V
  pub remove : {V : Type 0} → Map V → Bytes → Map V
  pub iter : {V : Type 0} → Map V → List (Bytes × V)
  pub get-new : (V : Type 0) (k : Bytes) → get (new V) k ≡ none
  pub get-insert :
      {V : Type 0} (m : Map V) (k j : Bytes) (v : V)
      → get (insert m k v) j ≡ (if str_eq k j then some v else get m j)
  pub get-remove :
      {V : Type 0} (m : Map V) (k j : Bytes)
      → get (remove m k) j ≡ (if str_eq k j then none else get m j)
  pub iter_iff :
      {V : Type 0} (m : Map V) (k : Bytes) (v : V)
      → Any (λ e. e ≡ (k, v)) (iter m) ↔ (get m k ≡ some v)
