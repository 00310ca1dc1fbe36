-- ===== src/Broker/Subscription/Keys.antt =====
-- Which keys, pairs of a client and a filter, a list of subscriptions holds.
use atom_mqtt.Prelude.{
  ◌≡◌, refl, ap, sym, ◌∙◌, Bool, true, false, not, ◌&&◌, ◌||◌, List, [], ◌∷◌, ◌++◌, any, any-append,
  or_assoc, or_false, Bool-cases, inl, inr, Bytes, str_eq, str_eq_iff, arith,
}
use mathlib.Core.Path.{subst₂}
use atom_mqtt.Broker.Subscription.{
  Subscription, same_key, upsert, without_client, Found, nothing, has_seen, push_one, push_new,
}

abbrev pub has_key : Bytes → Bytes → List Subscription → Bool
has_key client filter subs = any (same_key client filter) subs

pub has_key-upsert :
    (c f : Bytes) (sub : Subscription) (subs : List Subscription)
    → has_key c f (upsert sub subs) ≡ (same_key c f sub || has_key c f subs)
unfolding upsert
has_key-upsert c f sub [] = refl
has_key-upsert c f sub (e ∷ subs) = ground (
  arith,
  has_key-upsert c f sub subs,
  str_eq_iff e.client_id sub.client_id,
  str_eq_iff e.filter sub.filter,
  str_eq_iff e.client_id c,
  str_eq_iff e.filter f,
  str_eq_iff sub.client_id c,
  str_eq_iff sub.filter f,
)

pub has_key-without_client :
    (c f client : Bytes) (subs : List Subscription)
    → has_key c f (without_client client subs) ≡ (not (str_eq c client) && has_key c f subs)
has_key-without_client c f client [] = ground arith
has_key-without_client c f client (e ∷ subs) = ground (
  arith,
  has_key-without_client c f client subs,
  str_eq_iff e.client_id client,
  str_eq_iff e.client_id c,
  str_eq_iff c client,
)

-- No key stands twice.
abbrev pub Distinct : List Subscription → Type 0
Distinct [] = Unit
Distinct (s ∷ subs) = (has_key s.client_id s.filter subs ≡ false) × Distinct subs

-- What `collect_matching` keeps true of its two collections.
pub record IsFound (found : Found) : Type 0 where
  pub agree : (c f : Bytes) → has_seen c f found.seen ≡ has_key c f found.results
  pub distinct : Distinct found.results

pub IsFound-nothing : IsFound nothing
unfolding has_seen
IsFound-nothing = record { agree = λ c f. refl; distinct = tt }

Distinct-push :
    (subs : List Subscription) (s : Subscription)
    → Distinct subs
    → has_key s.client_id s.filter subs ≡ false
    → Distinct (subs ++ s ∷ [])
Distinct-push [] s d h = (refl, tt)
Distinct-push (e ∷ subs) s d h = (
  ground (
    arith,
    h,
    d.0,
    any-append (same_key e.client_id e.filter) subs (s ∷ []),
    str_eq_iff e.client_id s.client_id,
    str_eq_iff e.filter s.filter,
    str_eq_iff s.client_id e.client_id,
    str_eq_iff s.filter e.filter,
  ),
  Distinct-push subs s d.1 (ground (arith, h)),
)

-- A step that adds the keys that `R` tells, and keeps the invariant.
pub record Adds (F : Found → Found) (R : Bytes → Bytes → Bool) : Type 0 where
  pub keeps : (found : Found) → IsFound found → IsFound (F found)
  pub keys :
      (found : Found)
      → IsFound found
      → (c f : Bytes) → has_key c f (F found).results ≡ (has_key c f found.results || R c f)

same_key_eq :
    (s : Subscription) (c f : Bytes) → same_key c f s ≡ true → (s.client_id ≡ c) × (s.filter ≡ f)
same_key_eq s c f h = ground (arith, str_eq_iff s.client_id c, str_eq_iff s.filter f)

-- A key that is there already adds nothing.
old_key :
    (s : Subscription) (c f : Bytes) (subs : List Subscription)
    → has_key s.client_id s.filter subs ≡ true
    → has_key c f subs ≡ (has_key c f subs || same_key c f s)
old_key s c f subs h = elim (Bool-cases (same_key c f s)) [
  | inl e ↦
      let (ec, ef) = same_key_eq s c f e in
      let there : has_key c f subs ≡ true = subst₂ (λ x y. has_key x y subs ≡ true) ec ef h in
      rw there
  | inr e ↦ rw e (sym (or_false (has_key c f subs)))
]

push_one-keys :
    (s : Subscription) (found : Found)
    → IsFound found
    → (c f : Bytes)
    → has_key c f (push_one s found).results ≡ (has_key c f found.results || same_key c f s)
unfolding push_one
push_one-keys s found h c f = elim (Bool-cases (has_seen s.client_id s.filter found.seen)) [
  | inl old ↦ rw old (old_key s c f found.results (sym (h.agree s.client_id s.filter) ∙ old))
  | inr new ↦ rw new (rw (any-append (same_key c f)) (ground arith))
]

push_one-IsFound : (s : Subscription) (found : Found) → IsFound found → IsFound (push_one s found)
unfolding push_one has_seen
push_one-IsFound s found h = elim (Bool-cases (has_seen s.client_id s.filter found.seen)) [
  | inl old ↦ rw old h
  | inr new ↦ rw new (record {
    agree = λ c f. rw (any-append (same_key c f)) (ground (arith, h.agree c f));
    distinct = Distinct-push found.results s h.distinct (sym (h.agree s.client_id s.filter) ∙ new);
  })
]

pub Adds-push_one : (s : Subscription) → Adds (push_one s) (λ c f. same_key c f s)
Adds-push_one s = record { keeps = push_one-IsFound s; keys = push_one-keys s }

pub Adds-nothing : Adds (λ found. found) (λ c f. false)
Adds-nothing = record {
  keeps = λ found h. h;
  keys = λ found h c f. sym (or_false (has_key c f found.results));
}

-- Two steps in a row.
pub Adds-then :
    {F G : Found → Found} {R S : Bytes → Bytes → Bool}
    → Adds F R
    → Adds G S
    → Adds (λ found. G (F found)) (λ c f. R c f || S c f)
Adds-then {F} {R} {S} first second = record {
  keeps = λ found h. second.keeps (F found) (first.keeps found h);
  keys = λ found h c f.
      second.keys (F found) (first.keeps found h) c f
      ∙ ap (λ b. b || S c f) (first.keys found h c f)
      ∙ or_assoc (has_key c f found.results) (R c f) (S c f);
}

pub Adds-push_new : (subs : List Subscription) → Adds (push_new subs) (λ c f. has_key c f subs)
unfolding push_new
Adds-push_new [] = Adds-nothing
Adds-push_new (s ∷ subs) = Adds-then (Adds-push_one s) (Adds-push_new subs)
