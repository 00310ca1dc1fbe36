-- ===== src/Broker/Persistence/Loading.antt =====
-- What a start of the broker loads of what mqtt-broker/src/persistence.rs saved.
use atom_mqtt.Prelude.{
  ℕ, ◌≡◌, refl, ap, ◌∙◌, Bool, true, false, Option, List, [], ◌∷◌, map, Any, inl, inr, Bytes,
  str_eq_refl,
}
use atom_mqtt.Common.{
  ProtocolVersion, v311, v5, level_byte, Qos, at_most_once, at_least_once, exactly_once, qos_to_u8,
}
use atom_mqtt.Broker.State.{save_session, save_subscription, save_retained, save_will}
use atom_mqtt.Broker.Sql.{Sql, keys_eq}
use atom_mqtt.Broker.Persistence.{
  Tables, qos_of_row, version_of_row, apply_event, load_sessions, load_subscriptions, load_retained,
  load_wills,
}

-- A list has this entry.
abbrev pub Has : {A : Type 0} → A → List A → Type 0
Has a items = Any (λ x. x ≡ a) items

qos_of_row-qos_to_u8 : (q : Qos) → qos_of_row (qos_to_u8 q) ≡ q
unfolding qos_of_row qos_to_u8
qos_of_row-qos_to_u8 at_most_once = refl
qos_of_row-qos_to_u8 at_least_once = refl
qos_of_row-qos_to_u8 exactly_once = refl

version_of_row-level_byte : (v : ProtocolVersion) → version_of_row (level_byte v) ≡ v
unfolding version_of_row level_byte
version_of_row-level_byte v311 = refl
version_of_row-level_byte v5 = refl

Has-map :
    {A B : Type 0} (f : A → B) (a : A) {b : B} (items : List A)
    → f a ≡ b
    → Has a items
    → Has b (map f items)
Has-map f a [] e h = absurd h
Has-map f a (x ∷ items) e (inl h) = inl (ap f h ∙ e)
Has-map f a (x ∷ items) e (inr h) = inr (Has-map f a items e h)

keys_eq_refl : (k : List Bytes) → keys_eq k k ≡ true
keys_eq_refl [] = refl
keys_eq_refl (c ∷ k) = rw (str_eq_refl c) (keys_eq_refl k)

module _ (S : Sql) where
  -- A row that was just written is among the rows.
  Has-upsert :
      {V : Type 0} (t : S.Table V) (k : List Bytes) (v : V) → Has (k, v) (S.rows (S.upsert t k v))
  Has-upsert t k v =
      (S.rows_iff (S.upsert t k v) k v).1 (S.row-upsert t k k v ∙ rw (keys_eq_refl k) refl)

  -- A session that is saved is loaded at the next start, as one that is not connected, with the time
  -- of the start; so are a subscription, a retained message and a will, each with the fields it was
  -- saved with.
  pub load-apply_event :
      (now : ℕ) (db : Tables S) (client topic payload : Bytes) (version : ProtocolVersion)
      (flag : Bool) (n : ℕ) (username : Option Bytes) (qos : Qos)
      → Has
          (record {
            client_id = client;
            protocol_version = version;
            clean_session = flag;
            keep_alive = n;
            connected = false;
            created_at = now;
            last_active = now;
            username = username;
          })
          (load_sessions S true now
            (apply_event S (save_session client (level_byte version) flag n username) db))
        × Has
            (client, topic, qos)
            (load_subscriptions S true
              (apply_event S (save_subscription client topic (qos_to_u8 qos)) db))
        × Has
            (record { topic = topic; payload = payload; qos = qos; timestamp = now })
            (load_retained S true now
              (apply_event S (save_retained topic payload (qos_to_u8 qos)) db))
        × Has
            (record {
              client_id = client;
              topic = topic;
              payload = payload;
              qos = qos;
              retain = flag;
              delay_interval = n;
              created_at = now;
            })
            (load_wills S true now
              (apply_event S (save_will client topic payload (qos_to_u8 qos) flag n) db))
  unfolding load_sessions load_subscriptions load_retained load_wills apply_event
  load-apply_event now db client topic payload version flag n username qos = (
    Has-map _ (client ∷ [], _) _ (rw (version_of_row-level_byte version) refl)
        (Has-upsert db.sessions (client ∷ []) _),
    Has-map _ (client ∷ topic ∷ [], _) _ (rw (qos_of_row-qos_to_u8 qos) refl)
        (Has-upsert db.subscriptions (client ∷ topic ∷ []) _),
    Has-map _ (topic ∷ [], _) _ (rw (qos_of_row-qos_to_u8 qos) refl)
        (Has-upsert db.retained_messages (topic ∷ []) _),
    Has-map _ (client ∷ [], _) _ (rw (qos_of_row-qos_to_u8 qos) refl)
        (Has-upsert db.will_messages (client ∷ []) _),
  )
