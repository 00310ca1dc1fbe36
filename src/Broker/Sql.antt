-- ===== src/Broker/Sql.antt =====
-- What mqtt-broker/src/persistence.rs relies on of SQLite: a table whose rows are known by the
-- columns of their primary key.
use atom_mqtt.Prelude.{
  ◌≡◌, ◌↔◌, Bool, true, false, ◌&&◌, Option, none, some, List, [], ◌∷◌, Any, if◌then◌else◌, Bytes,
  str_eq,
}

-- Two keys have the same columns.
abbrev pub keys_eq : List Bytes → List Bytes → Bool
keys_eq [] [] = true
keys_eq (a ∷ k) (b ∷ j) = str_eq a b && keys_eq k j
keys_eq _ _ = false

-- `upsert` is `INSERT … ON CONFLICT(…) DO UPDATE`, `delete_where` is `DELETE … WHERE` with a test of
-- the key, and `rows` is a `SELECT` of all rows, in an order of the database.
pub record Sql : Type 1 where
  pub Table : Type 0 → Type 0
  pub row : {V : Type 0} → Table V → List Bytes → Option V
  pub rows : {V : Type 0} → Table V → List (List Bytes × V)
  pub upsert : {V : Type 0} → Table V → List Bytes → V → Table V
  pub delete_where : {V : Type 0} → Table V → (List Bytes → Bool) → Table V
  pub row-upsert :
      {V : Type 0} (t : Table V) (k j : List Bytes) (v : V)
      → row (upsert t k v) j ≡ (if keys_eq k j then some v else row t j)
  pub row-delete_where :
      {V : Type 0} (t : Table V) (p : List Bytes → Bool) (j : List Bytes)
      → row (delete_where t p) j ≡ (if p j then none else row t j)
  pub rows_iff :
      {V : Type 0} (t : Table V) (k : List Bytes) (v : V)
      → Any (λ e. e ≡ (k, v)) (rows t) ↔ (row t k ≡ some v)
