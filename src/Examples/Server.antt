-- ===== src/Examples/Server.antt =====
-- A broker with one rule and one client.
mod Handler
mod Routing
mod Lifecycle
use atom_mqtt.Prelude.{none, ◌≡◌, refl, true, false, some, ◌∷◌, Bytes, codes, str_eq, []}
use atom_mqtt.Common.{at_most_once, at_least_once, exactly_once, v311}
use atom_mqtt.Common.Levels.{segment_at}
use atom_mqtt.Common.Split.{split}
use atom_mqtt.V3.Types.{PublishPacket, SubscribePacket, UnsubscribePacket, subscribe}
use atom_mqtt.V3.Types
use atom_mqtt.Broker.Acl.{
  AclChecker, read_write, authorize_publish, publish_loop, may_publish, topic_matches_filter,
  filter_loop,
}
use atom_mqtt.Broker.Auth.{open_to_all}
use atom_mqtt.Broker.Metrics
use atom_mqtt.Broker.Subscription
use atom_mqtt.Broker.Subscription.{SubscriptionTree}
use atom_mqtt.Broker.Subscription.Refinement
use atom_mqtt.Broker.State
use atom_mqtt.Broker.State.{BrokerState, SessionState, WillMessage}
use atom_mqtt.Examples.Table.{table}

abbrev pub ann : Bytes
ann = codes "ann"

abbrev pub rooms : Bytes
rooms = codes "room/+"

abbrev pub kitchen : Bytes
kitchen = codes "room/k"

-- Ann may read and write one level below `room`.
abbrev pub rules : AclChecker
rules = record {
  entries = record { username = ann; filter = rooms; access = read_write } ∷ [];
  enabled = true;
}

abbrev pub session : SessionState
session = record {
  client_id = ann;
  protocol_version = v311;
  clean_session = false;
  keep_alive = 60;
  connected = true;
  created_at = 0;
  last_active = 0;
  username = some ann;
}

abbrev pub last_words : WillMessage
last_words = record {
  client_id = ann;
  topic = kitchen;
  payload = codes "bye";
  qos = at_most_once;
  retain = false;
  delay_interval = 0;
  created_at = 0;
}

abbrev pub with_tree : SubscriptionTree → BrokerState table
with_tree t = record {
  allow_anonymous = true;
  sessions = (ann, session) ∷ [];
  subscriptions = t;
  retained = [];
  wills = (ann, last_words) ∷ [];
  metrics = Metrics.new;
  next_client_id = 1;
  connections = (ann, 7) ∷ [];
  web_subscribers = [];
  authenticator = record { method = open_to_all; users = [] };
  acl = rules;
  sent = [];
  web_sent = [];
  events = [];
  messages = [];
}

-- Ann is connected and has no subscription.
abbrev pub start : BrokerState table
start = with_tree Subscription.new

abbrev pub tree : SubscriptionTree
tree = Subscription.subscribe Subscription.new ann rooms at_most_once

-- Ann is subscribed to `room/+`.
abbrev pub listening : BrokerState table
listening = with_tree tree

abbrev pub note : PublishPacket
note = record {
  topic = kitchen;
  payload = codes "hi";
  qos = at_least_once;
  retain = true;
  packet_id = some 5;
}

abbrev pub empty_note : PublishPacket
empty_note = record {
  topic = kitchen;
  payload = [];
  qos = at_most_once;
  retain = true;
  packet_id = none;
}

abbrev pub asking : SubscribePacket
asking = record {
  packet_id = 1;
  filters =
      record { path = rooms; qos = at_least_once }
      ∷ record { path = codes "x"; qos = exactly_once }
      ∷ [];
}

abbrev pub leaving : UnsubscribePacket
leaving = record { packet_id = 2; filters = rooms ∷ [] }

pub allowed : authorize_publish rules ann kitchen ≡ true
unfolding authorize_publish publish_loop may_publish topic_matches_filter filter_loop split
    segment_at str_eq
allowed = refl
