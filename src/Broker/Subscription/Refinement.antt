-- ===== src/Broker/Subscription/Refinement.antt =====
-- The subscription tree of mqtt-broker/src/subscription.rs against a plain table of who has
-- subscribed to what.
use atom_mqtt.Prelude.{
  ◌≡◌, ◌↔◌, refl, ap, sym, ◌∙◌, Bool, true, false, not, ◌&&◌, ◌||◌, List, [], ◌∷◌, Bytes, str_eq,
  arith, &&_split, fun_ext,
}
use atom_mqtt.Common.{Qos}
use atom_mqtt.Common.Levels.{hash, plus, Matches, levels_match, levels_match_iff}
use atom_mqtt.Common.Split.{levels}
use atom_mqtt.Broker.Subscription.{SubscriptionTree, new, lookup}
use atom_mqtt.Broker.Subscription
use atom_mqtt.Broker.Subscription.Stored.{stored-new}
use atom_mqtt.Broker.Subscription.Keys.{has_key}
use atom_mqtt.Broker.Subscription.Paths.{path_covers}
use atom_mqtt.Broker.Subscription.Lookup.{
  subscribed, IsFiled, IsFiled-new, IsFiled-subscribe, IsFiled-unsubscribe, IsFiled-unsubscribe_all,
  subscribed-subscribe, subscribed-unsubscribe, subscribed-unsubscribe_all, has_key-lookup,
}

-- The calls that change the tree.
pub data Request : Type 0 where
  subscribe : Bytes → Bytes → Qos → Request
  unsubscribe : Bytes → Bytes → Request
  unsubscribe_all : Bytes → Request

unfoldable pub apply : SubscriptionTree → Request → SubscriptionTree
apply t (subscribe client filter qos) = Subscription.subscribe t client filter qos
apply t (unsubscribe client filter) = Subscription.unsubscribe t client filter
apply t (unsubscribe_all client) = Subscription.unsubscribe_all t client

unfoldable pub run : SubscriptionTree → List Request → SubscriptionTree
run t [] = t
run t (r ∷ rs) = run (apply t r) rs

-- The abstract view: which client is subscribed to which filter.
abbrev pub Table : Type 0
Table = Bytes → Bytes → Bool

abbrev pub step : Table → Request → Table
step table (subscribe client filter qos) c f = (str_eq client c && str_eq filter f) || table c f
step table (unsubscribe client filter) c f = not (str_eq c client && str_eq filter f) && table c f
step table (unsubscribe_all client) c f = not (str_eq c client) && table c f

abbrev pub steps : Table → List Request → Table
steps table [] = table
steps table (r ∷ rs) = steps (step table r) rs

IsFiled-apply : (t : SubscriptionTree) (r : Request) → IsFiled t → IsFiled (apply t r)
unfolding apply
IsFiled-apply t (subscribe client filter qos) w = IsFiled-subscribe t client filter qos w
IsFiled-apply t (unsubscribe client filter) w = IsFiled-unsubscribe t client filter w
IsFiled-apply t (unsubscribe_all client) w = IsFiled-unsubscribe_all t client w

subscribed-apply :
    (t : SubscriptionTree) (r : Request) (c f : Bytes)
    → subscribed c f (apply t r) ≡ step (λ c' f'. subscribed c' f' t) r c f
unfolding apply
subscribed-apply t (subscribe client filter qos) c f = subscribed-subscribe t client filter c f qos
subscribed-apply t (unsubscribe client filter) c f = subscribed-unsubscribe t client filter c f
subscribed-apply t (unsubscribe_all client) c f = subscribed-unsubscribe_all t client c f

-- After any calls, every subscription stands at the end of its own filter's levels.
pub run-IsFiled : (t : SubscriptionTree) (rs : List Request) → IsFiled t → IsFiled (run t rs)
unfolding run
run-IsFiled t [] w = w
run-IsFiled t (r ∷ rs) w = run-IsFiled (apply t r) rs (IsFiled-apply t r w)

subscribed-run :
    (rs : List Request) (t : SubscriptionTree) (table : Table)
    → ((c f : Bytes) → subscribed c f t ≡ table c f)
    → (c f : Bytes) → subscribed c f (run t rs) ≡ steps table rs c f
unfolding run
subscribed-run [] t table h c f = h c f
subscribed-run (r ∷ rs) t table h c f =
    subscribed-run rs (apply t r) (step table r)
      (λ c' f'.
        subscribed-apply t r c' f'
        ∙ ap (λ (u : Table). step u r c' f') (fun_ext (λ x. fun_ext (λ y. h x y))))
      c f

-- `#` stands only at the end.
abbrev pub HashLast : List Bytes → Type 0
HashLast [] = Unit
HashLast (s ∷ []) = Unit
HashLast (s ∷ r ∷ path) = (str_eq s hash ≡ false) × HashLast (r ∷ path)

pub path_covers-eq-levels_match :
    (path ts : List Bytes) → HashLast path → path_covers path ts ≡ levels_match path ts
unfolding path_covers levels_match
path_covers-eq-levels_match [] [] h = refl
path_covers-eq-levels_match [] (t ∷ ts) h = refl
path_covers-eq-levels_match (s ∷ []) [] h = refl
path_covers-eq-levels_match (s ∷ []) (t ∷ ts) h =
    ground (arith, path_covers-eq-levels_match [] ts tt)
path_covers-eq-levels_match (s ∷ r ∷ path) [] h = sym h.0
path_covers-eq-levels_match (s ∷ r ∷ path) (t ∷ ts) h =
    rw h.0
      (ap (λ b. (str_eq s plus || str_eq s t) && b) (path_covers-eq-levels_match (r ∷ path) ts h.1))

abbrev pub no_one : Table
no_one c f = false

-- From the empty tree, after any calls: a lookup reports a client and a filter exactly when the
-- table of the calls has them and the filter matches the topic by `Matches`: `+` stands for
-- one level, a last `#` for the levels that are left and any other level for itself, in topics that
-- begin with `$` as in others. The filter has `#` at its last level only.
pub lookup-run_iff :
    (rs : List Request) (topic c f : Bytes)
    → HashLast (levels f)
    → (has_key c f (lookup (run new rs) topic) ≡ true)
      ↔ ((steps no_one rs c f ≡ true) × Matches (levels f) (levels topic))
lookup-run_iff rs topic c f h =
    rw (has_key-lookup (run new rs) topic c f (run-IsFiled new rs IsFiled-new)) (
      rw (subscribed-run rs new no_one (λ c' f'. unfold subscribed in rw stored-new) c f) (
        rw (path_covers-eq-levels_match (levels f) (levels topic) h) (
          λ e.
              let (held, m) =
                &&_split (steps no_one rs c f) (levels_match (levels f) (levels topic)) e in
              (held, (levels_match_iff (levels f) (levels topic)).0 m),
          λ p. rw (p.0, (levels_match_iff (levels f) (levels topic)).1 p.1),
        )))
