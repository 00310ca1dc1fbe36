-- ===== src/Broker/Persistence.antt =====
-- mqtt-broker/src/persistence.rs: the tables, the events that write them, the background writer, and
-- the loading at a start. SQLite, through the `rusqlite` crate, is an interface with laws.
pub mod Writer
pub mod Loading
use atom_mqtt.Prelude.{
  ℕ, Bool, true, false, not, ◌&&◌, Option, none, some, List, [], ◌∷◌, ◌++◌, map, length, ltb, ◌==◌,
  if◌then◌else◌, Bytes, str_eq,
}
use atom_mqtt.Common.{ProtocolVersion, v311, v5, Qos, at_most_once, at_least_once, exactly_once}
use atom_mqtt.Broker.State.{
  SessionState, RetainedMessage, WillMessage, PersistEvent, save_session, remove_session,
  save_subscription, remove_subscription, remove_client_subscriptions, save_retained,
  remove_retained, save_will, remove_will, shutdown,
}
use atom_mqtt.Broker.Process.{retained_message}
use atom_mqtt.Broker.Sql.{Sql}

-- The columns behind the primary key, but for the times that the database fills in.
pub record SessionRow : Type 0 where
  pub protocol_version : ℕ
  pub clean_session : Bool
  pub keep_alive : ℕ
  pub username : Option Bytes

pub record RetainedRow : Type 0 where
  pub payload : Bytes
  pub qos : ℕ

pub record WillRow : Type 0 where
  pub topic : Bytes
  pub payload : Bytes
  pub qos : ℕ
  pub retain : Bool
  pub delay_interval : ℕ

-- The columns of a primary key.
abbrev pub first_column : List Bytes → Bytes
first_column [] = []
first_column (c ∷ columns) = c

abbrev pub second_column : List Bytes → Bytes
second_column [] = []
second_column (c ∷ columns) = first_column columns

-- `match q { 2 => …, 1 => …, _ => … }`
unfoldable pub qos_of_row : ℕ → Qos
qos_of_row q = if q == 2 then exactly_once else if q == 1 then at_least_once else at_most_once

-- `match pv { 5 => …, _ => … }`
unfoldable pub version_of_row : ℕ → ProtocolVersion
version_of_row pv = if pv == 5 then v5 else v311

-- What the database answers during one `flush_all`: whether its lock is sound, whether the
-- transaction begins and is committed, and whether the statement of an event succeeds.
pub record Outcome : Type 0 where
  pub locked : Bool
  pub begins : Bool
  pub executes : PersistEvent → Bool
  pub commits : Bool

module _ (S : Sql) where
  pub record Tables : Type 0 where
    pub sessions : S.Table SessionRow
    pub subscriptions : S.Table ℕ
    pub retained_messages : S.Table RetainedRow
    pub will_messages : S.Table WillRow

  -- The statement of an event.
  unfoldable pub apply_event : PersistEvent → Tables → Tables
  apply_event (save_session client_id version clean keep_alive username) db = record db {
    sessions = S.upsert db.sessions (client_id ∷ []) (record {
      protocol_version = version;
      clean_session = clean;
      keep_alive = keep_alive;
      username = username;
    });
  }
  apply_event (remove_session client_id) db = record db {
    sessions = S.delete_where db.sessions (λ key. str_eq (first_column key) client_id);
  }
  apply_event (save_subscription client_id filter qos) db = record db {
    subscriptions = S.upsert db.subscriptions (client_id ∷ filter ∷ []) qos;
  }
  apply_event (remove_subscription client_id filter) db = record db {
    subscriptions =
        S.delete_where db.subscriptions
          (λ key. str_eq (first_column key) client_id && str_eq (second_column key) filter);
  }
  apply_event (remove_client_subscriptions client_id) db = record db {
    subscriptions = S.delete_where db.subscriptions (λ key. str_eq (first_column key) client_id);
  }
  apply_event (save_retained topic payload qos) db = record db {
    retained_messages =
        S.upsert db.retained_messages (topic ∷ []) (record { payload = payload; qos = qos });
  }
  apply_event (remove_retained topic) db = record db {
    retained_messages =
        S.delete_where db.retained_messages (λ key. str_eq (first_column key) topic);
  }
  apply_event (save_will client_id topic payload qos retain delay_interval) db = record db {
    will_messages = S.upsert db.will_messages (client_id ∷ []) (record {
      topic = topic;
      payload = payload;
      qos = qos;
      retain = retain;
      delay_interval = delay_interval;
    });
  }
  apply_event (remove_will client_id) db = record db {
    will_messages = S.delete_where db.will_messages (λ key. str_eq (first_column key) client_id);
  }
  apply_event shutdown db = db

  -- The `for` loop of `flush_all`; an event whose statement fails is logged and left out.
  unfoldable pub execute_all : (PersistEvent → Bool) → List PersistEvent → Tables → Tables
  execute_all executes [] db = db
  execute_all executes (event ∷ batch) db =
      execute_all executes batch (if executes event then apply_event event db else db)

  unfoldable pub flush_all : Outcome → List PersistEvent → Tables → Tables
  unfolding execute_all
  flush_all o batch db =
      if not o.locked
      then db
      else if not o.begins
      then db
      else if o.commits
      then execute_all o.executes batch db
      else db

  -- The loading at a start; `prepared` is whether the query can be prepared, and `now` the clock.
  unfoldable pub load_sessions : Bool → ℕ → Tables → List SessionState
  unfolding version_of_row
  load_sessions prepared now db =
      if not prepared
      then []
      else map
          (λ r. record {
            client_id = first_column r.0;
            protocol_version = version_of_row r.1.protocol_version;
            clean_session = r.1.clean_session;
            keep_alive = r.1.keep_alive;
            connected = false;
            created_at = now;
            last_active = now;
            username = r.1.username;
          })
          (S.rows db.sessions)

  unfoldable pub load_subscriptions : Bool → Tables → List (Bytes × Bytes × Qos)
  unfolding qos_of_row
  load_subscriptions prepared db =
      if not prepared
      then []
      else map (λ r. (first_column r.0, second_column r.0, qos_of_row r.1))
          (S.rows db.subscriptions)

  unfoldable pub load_retained : Bool → ℕ → Tables → List RetainedMessage
  unfolding qos_of_row
  load_retained prepared now db =
      if not prepared
      then []
      else map (λ r. retained_message now (first_column r.0) r.1.payload (qos_of_row r.1.qos))
          (S.rows db.retained_messages)

  unfoldable pub load_wills : Bool → ℕ → Tables → List WillMessage
  unfolding qos_of_row
  load_wills prepared now db =
      if not prepared
      then []
      else map
          (λ r. record {
            client_id = first_column r.0;
            topic = r.1.topic;
            payload = r.1.payload;
            qos = qos_of_row r.1.qos;
            retain = r.1.retain;
            delay_interval = r.1.delay_interval;
            created_at = now;
          })
          (S.rows db.will_messages)
