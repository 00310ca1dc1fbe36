-- ===== src/Broker/State.antt =====
-- `BrokerState` and the messages of mqtt-broker/src/lib.rs, with the records of session.rs,
-- will.rs, retention.rs and the events of persistence.rs. A send on a channel is the call with its
-- arguments, in the order of the calls; an `Instant` is a number.
use atom_mqtt.Prelude.{ℕ, Bool, Option, List, [], ◌∷◌, ◌++◌, Bytes}
use atom_mqtt.Common.{ProtocolVersion, Qos}
use atom_mqtt.Broker.Store.{DashMap}
use atom_mqtt.Broker.Subscription.{SubscriptionTree}
use atom_mqtt.Broker.Metrics.{BrokerMetrics}
use atom_mqtt.Broker.Auth.{Authenticator, AuthMethod}
use atom_mqtt.Broker.Auth
use atom_mqtt.Broker.Acl
use atom_mqtt.Broker.Metrics
use atom_mqtt.Broker.Subscription
use atom_mqtt.Broker.Acl.{AclChecker}

pub record SessionState : Type 0 where
  pub client_id : Bytes
  pub protocol_version : ProtocolVersion
  pub clean_session : Bool
  pub keep_alive : ℕ
  pub connected : Bool
  pub created_at : ℕ
  pub last_active : ℕ
  pub username : Option Bytes

pub record RetainedMessage : Type 0 where
  pub topic : Bytes
  pub payload : Bytes
  pub qos : Qos
  pub timestamp : ℕ

pub record WillMessage : Type 0 where
  pub client_id : Bytes
  pub topic : Bytes
  pub payload : Bytes
  pub qos : Qos
  pub retain : Bool
  pub delay_interval : ℕ
  pub created_at : ℕ

-- The fields of each event, in the order of persistence.rs.
pub data PersistEvent : Type 0 where
  save_session : Bytes → ℕ → Bool → ℕ → Option Bytes → PersistEvent
  remove_session : Bytes → PersistEvent
  save_subscription : Bytes → Bytes → ℕ → PersistEvent
  remove_subscription : Bytes → Bytes → PersistEvent
  remove_client_subscriptions : Bytes → PersistEvent
  save_retained : Bytes → Bytes → ℕ → PersistEvent
  remove_retained : Bytes → PersistEvent
  save_will : Bytes → Bytes → Bytes → ℕ → Bool → ℕ → PersistEvent
  remove_will : Bytes → PersistEvent
  shutdown : PersistEvent

pub data BrokerMessage : Type 0 where
  publish :
      (topic payload : Bytes) (qos : Qos) (retain : Bool) (source_client : Bytes) → BrokerMessage
  client_disconnected : (client_id : Bytes) (clean_session : Bool) → BrokerMessage

-- The fields of a JSON message for a web subscriber, but for its timestamp.
pub record WebMessage : Type 0 where
  pub is_will : Bool
  pub topic : Bytes
  pub payload : Bytes
  pub qos : ℕ
  pub source_client : Bytes

pub data AclMethod : Type 0 where
  open_acl : AclMethod
  acl_file : Bytes → AclMethod

-- The fields of `BrokerConfig` that the broker's own functions read.
pub record BrokerConfig : Type 0 where
  pub allow_anonymous : Bool
  pub auth_method : AuthMethod
  pub acl_method : AclMethod

-- Of `config` what is read later is `allow_anonymous`; `broker_handle` and `persistence` are the logs
-- of what is sent on them.
-- A sender is known by a number. `sent`, `web_sent`, `events` and `messages` hold the calls of
-- `send` on the connections, the web subscribers, the persistence and the router.
pub record BrokerState (M : DashMap) : Type 0 where
  pub allow_anonymous : Bool
  pub sessions : M.Map SessionState
  pub subscriptions : SubscriptionTree
  pub retained : M.Map RetainedMessage
  pub wills : M.Map WillMessage
  pub metrics : BrokerMetrics
  pub next_client_id : ℕ
  pub connections : M.Map ℕ
  pub web_subscribers : M.Map ℕ
  pub authenticator : Authenticator
  pub acl : AclChecker
  pub sent : List (ℕ × Bytes)
  pub web_sent : List (ℕ × WebMessage)
  pub events : List PersistEvent
  pub messages : List BrokerMessage

-- `match &config.acl_method { … }`
abbrev pub acl_path : AclMethod → Bytes
acl_path (acl_file path) = path
acl_path open_acl = []

module _ (M : DashMap) where
  -- `BrokerState::new`; `read_to_string` is the file system.
  unfoldable pub new : (Bytes → Option Bytes) → BrokerConfig → BrokerState M
  new read_to_string config = record {
    allow_anonymous = config.allow_anonymous;
    sessions = M.new SessionState;
    subscriptions = Subscription.new;
    retained = M.new RetainedMessage;
    wills = M.new WillMessage;
    metrics = Metrics.new;
    next_client_id = 1;
    connections = M.new ℕ;
    web_subscribers = M.new ℕ;
    authenticator = Auth.new read_to_string config.auth_method;
    acl = Acl.new read_to_string (acl_path config.acl_method);
    sent = [];
    web_sent = [];
    events = [];
    messages = [];
  }

  -- `persistence.send_event(event)`
  unfoldable pub send_event : PersistEvent → BrokerState M → BrokerState M
  send_event event s = record s { events = s.events ++ event ∷ [] }

  -- `let _ = tx.send(data);`
  unfoldable pub send_to : ℕ → Bytes → BrokerState M → BrokerState M
  send_to tx bytes s = record s { sent = s.sent ++ (tx, bytes) ∷ [] }

  -- `let _ = broker_handle.sender.send(message);`
  unfoldable pub send_message : BrokerMessage → BrokerState M → BrokerState M
  send_message message s = record s { messages = s.messages ++ message ∷ [] }

  -- `let _ = entry.send(json);`
  unfoldable pub send_web : ℕ → WebMessage → BrokerState M → BrokerState M
  send_web tx message s = record s { web_sent = s.web_sent ++ (tx, message) ∷ [] }

  -- A change to the metrics under their lock.
  unfoldable pub count : (BrokerMetrics → BrokerMetrics) → BrokerState M → BrokerState M
  count f s = record s { metrics = f s.metrics }
