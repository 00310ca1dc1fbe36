-- ===== src/Broker/Acl/Escalation.antt =====
-- Subscriptions with wildcards against the access rules of mqtt-broker/src/auth.rs.
use atom_mqtt.Prelude.{
  ℕ, suc, ◌≡◌, ◌≢◌, inl, inr, ap, refl, true, List, [], ◌∷◌, ◌++◌, Any, All, length, length-append,
  Bytes, arith,
}
use atom_mqtt.Common.Levels.{hash, plus, Matches, done, rest, one, same}
use atom_mqtt.Common.Split.{levels}
use atom_mqtt.Broker.Acl.{AclEntry, AclChecker, may_subscribe, authorize_subscribe}
use atom_mqtt.Broker.Acl.Access.{Grants, authorize_subscribe_iff}

abbrev pub NoHash : List Bytes → Type 0
NoHash fs = All (λ f. f ≢ hash) fs

length_of_Matches : {fs ts : List Bytes} → NoHash fs → Matches fs ts → length fs ≡ length ts
length_of_Matches h done = refl
length_of_Matches h (rest e) = absurd (h.0 e)
length_of_Matches h (one e m) = ap suc (length_of_Matches h.1 m)
length_of_Matches h (same e m) = ap suc (length_of_Matches h.1 m)

Matches-prefix : (pre fs ts : List Bytes) → Matches fs ts → Matches (pre ++ fs) (pre ++ ts)
Matches-prefix [] fs ts m = m
Matches-prefix (p ∷ pre) fs ts m = same refl (Matches-prefix pre fs ts m)

first_byte : Bytes → ℕ
first_byte [] = 0
first_byte (b ∷ s) = b

plus-ne-hash : plus ≢ hash
unfolding first_byte
plus-ne-hash e = absurd (omega (arith, ap first_byte e))

NoHash-plus : (pre : List Bytes) → NoHash pre → NoHash (pre ++ plus ∷ [])
NoHash-plus [] h = (plus-ne-hash, tt)
NoHash-plus (p ∷ pre) h = (h.0, NoHash-plus pre h.1)

-- A rule that lets a user subscribe to one level under some levels.
pub record OneLevelRule (username : Bytes) (pre : List Bytes) (e : AclEntry) : Type 0 where
  pub user : e.username ≡ username
  pub access : may_subscribe e.access ≡ true
  pub filter : levels e.filter ≡ pre ++ plus ∷ []

Any-map :
    {P Q : AclEntry → Type 0}
    → ((e : AclEntry) → P e → Q e)
    → (es : List AclEntry) → Any P es
    → Any Q es
Any-map f [] a = a
Any-map f (e ∷ es) (inl a) = inl (f e a)
Any-map f (e ∷ es) (inr a) = inr (Any-map f es a)

-- A user whose only rule covers one level below `pre` is let subscribe to everything below `pre`:
-- the wildcard asked for passes as a level, and the subscription matches topics that the rule does
-- not cover.
pub authorize_subscribe-hash :
    (self : AclChecker) (username filter : Bytes) (pre : List Bytes) (a b : Bytes)
    → self.enabled ≡ true
    → NoHash pre
    → Any (OneLevelRule username pre) self.entries
    → levels filter ≡ pre ++ hash ∷ []
    → (authorize_subscribe self username filter ≡ true)
      × Matches (levels filter) (pre ++ a ∷ b ∷ [])
      × ¬ Matches (pre ++ plus ∷ []) (pre ++ a ∷ b ∷ [])
authorize_subscribe-hash self username filter pre a b on plain rule asked = (
  (authorize_subscribe_iff self username filter on).1 (Any-map grant self.entries rule),
  rw asked (Matches-prefix pre (hash ∷ []) (a ∷ b ∷ []) (rest refl)),
  λ m. absurd (
      omega (
        arith,
        length_of_Matches (NoHash-plus pre plain) m,
        length-append pre (plus ∷ []),
        length-append pre (a ∷ b ∷ []),
      )),
)
  where
    grant : (e : AclEntry) → OneLevelRule username pre e → Grants may_subscribe username filter e
    grant e r = record {
      user = r.user;
      access = r.access;
      covers = rw (r.filter, asked) (Matches-prefix pre (plus ∷ []) (hash ∷ []) (one refl done));
    }
