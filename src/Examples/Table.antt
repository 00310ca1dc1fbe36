-- ===== src/Examples/Table.antt =====
-- A map with text keys as an association list, for the `dashmap` crate: the newest entry of a key
-- counts, and the iteration visits that one.
use atom_mqtt.Prelude.{
  ◌≡◌, ◌↔◌, inl, inr, refl, ap, sym, ◌∙◌, Bool, true, false, not, Option, none, some, List, ◌∷◌,
  Any, retain, if◌then◌else◌, Bytes, str_eq, str_eq_iff, arith, Bool-cases, [],
}
use mathlib.Core.Option.{some-injective}
use atom_mqtt.Broker.Store.{DashMap}
use atom_mqtt.Broker.Sql.{Sql, keys_eq}

same_test :
    {K : Type 0} (same : K → K → Bool) (same_iff : (a b : K) → (same a b ≡ true) ↔ (a ≡ b))
    (p : K → Bool) (a b : K)
    → same a b ≡ true
    → p a ≡ p b
same_test same same_iff p a b h = ap p ((same_iff a b).0 h)

module _ {K V : Type 0} (same : K → K → Bool)
    (same_iff : (a b : K) → (same a b ≡ true) ↔ (a ≡ b)) where
  abbrev get : List (K × V) → K → Option V
  get [] k = none
  get (e ∷ m) k = if same e.0 k then some e.1 else get m k

  abbrev delete_where : List (K × V) → (K → Bool) → List (K × V)
  delete_where m p = retain (λ e. not (p e.0)) m

  abbrev remove : List (K × V) → K → List (K × V)
  remove m k = delete_where m (λ j. same k j)

  abbrev iter : List (K × V) → List (K × V)
  iter [] = []
  iter (e ∷ m) = e ∷ remove (iter m) e.0

  pub get-delete_where :
      (m : List (K × V)) (p : K → Bool) (j : K)
      → get (delete_where m p) j ≡ (if p j then none else get m j)
  get-delete_where [] p j = ground arith
  get-delete_where (e ∷ m) p j =
      ground (arith, get-delete_where m p j, same_test same same_iff p e.0 j)

  -- An entry is in the iteration of `m`.
  abbrev Holds : List (K × V) → K → V → Type 0
  Holds m k v = Any (λ e. e ≡ (k, v)) m

  Holds-remove :
      (m : List (K × V)) (j k : K) (v : V)
      → Holds (remove m j) k v ↔ ((same j k ≡ false) × Holds m k v)
  Holds-remove [] j k v = (λ a. absurd a, λ p. p.1)
  Holds-remove (e ∷ m) j k v = elim (Bool-cases (same j e.0)) [
    | inl h ↦ rw h (
      λ a. (((Holds-remove m j k v).0 a).0, inr ((Holds-remove m j k v).0 a).1),
      λ p. elim p.1 [
        | inl here ↦ absurd (true_false (sym h ∙ ap (λ (x : K × V). same j x.0) here ∙ p.0))
        | inr there ↦ (Holds-remove m j k v).1 (p.0, there)
      ],
    )
    | inr h ↦ rw h (
      λ a. elim a [
        | inl here ↦ (sym (ap (λ (x : K × V). same j x.0) here) ∙ h, inl here)
        | inr there ↦ (((Holds-remove m j k v).0 there).0, inr ((Holds-remove m j k v).0 there).1)
      ],
      λ p. elim p.1 [
        | inl here ↦ inl here
        | inr there ↦ inr ((Holds-remove m j k v).1 (p.0, there))
      ],
    )
  ]
    where
      true_false : true ≡ false → ⊥
      true_false e = cc

  pub iter_iff : (m : List (K × V)) (k : K) (v : V) → Holds (iter m) k v ↔ (get m k ≡ some v)
  iter_iff [] k v = (λ a. absurd a, λ e. none_some e)
    where
      none_some : ◌≡◌ {A = Option V} none (some v) → ⊥
      none_some e = cc
  iter_iff (e ∷ m) k v = elim (Bool-cases (same e.0 k)) [
    | inl h ↦ rw h (
      λ a. elim a [
        | inl here ↦ ap (λ (x : K × V). some x.1) here
        | inr there ↦ absurd (true_false (sym h ∙ ((Holds-remove (iter m) e.0 k v).0 there).0))
      ],
      λ s. inl (pair_eq ((same_iff e.0 k).0 h) (some-injective e.1 v s)),
    )
    | inr h ↦ rw h (
      λ a. elim a [
        | inl here ↦
            absurd (true_false (sym ((same_iff e.0 k).1 (ap (λ (x : K × V). x.0) here)) ∙ h))
        | inr there ↦ (iter_iff m k v).0 ((Holds-remove (iter m) e.0 k v).0 there).1
      ],
      λ s. inr ((Holds-remove (iter m) e.0 k v).1 (h, (iter_iff m k v).1 s)),
    )
  ]
    where
      true_false : true ≡ false → ⊥
      true_false e = cc

      pair_eq : e.0 ≡ k → e.1 ≡ v → e ≡ (k, v)
      pair_eq p q = cc

abbrev pub table : DashMap
table = record {
  Map = λ V. List (Bytes × V);
  new = λ V. [];
  get = λ {V} m k. get str_eq str_eq_iff m k;
  insert = λ {V} m k v. (k, v) ∷ m;
  remove = λ {V} m k. remove str_eq str_eq_iff m k;
  iter = λ {V} m. iter str_eq str_eq_iff m;
  get-new = λ V k. refl;
  get-insert = λ {V} m k j v. refl;
  get-remove = λ {V} m k j. get-delete_where str_eq str_eq_iff m (λ i. str_eq k i) j;
  iter_iff = λ {V} m k v. iter_iff str_eq str_eq_iff m k v;
}

pub keys_eq_iff : (k j : List Bytes) → (keys_eq k j ≡ true) ↔ (k ≡ j)
keys_eq_iff [] [] = ground arith
keys_eq_iff [] (b ∷ j) = ground arith
keys_eq_iff (a ∷ k) [] = ground arith
keys_eq_iff (a ∷ k) (b ∷ j) = ground (arith, keys_eq_iff k j, str_eq_iff a b)

-- And the tables of a database.
abbrev pub sql : Sql
sql = record {
  Table = λ V. List (List Bytes × V);
  row = λ {V} t k. get keys_eq keys_eq_iff t k;
  rows = λ {V} t. iter keys_eq keys_eq_iff t;
  upsert = λ {V} t k v. (k, v) ∷ t;
  delete_where = λ {V} t p. delete_where keys_eq keys_eq_iff t p;
  row-upsert = λ {V} t k j v. refl;
  row-delete_where = λ {V} t p j. get-delete_where keys_eq keys_eq_iff t p j;
  rows_iff = λ {V} t k v. iter_iff keys_eq keys_eq_iff t k v;
}
