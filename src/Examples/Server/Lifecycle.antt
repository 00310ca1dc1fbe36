-- ===== src/Examples/Server/Lifecycle.antt =====
-- Connections of mqtt-broker/src/server.rs: clients that get in, that do not, and what they send.
use atom_mqtt.Prelude.{
  ◌≡◌, ◌≤◌, refl, true, false, Option, none, some, List, ◌∷◌, ◌++◌, map, length, All, Bytes, codes,
  arith, [],
}
use atom_mqtt.Common.{at_least_once, v311}
use atom_mqtt.Common.Length.{encode_remaining_length}
use atom_mqtt.Common.Strings.{encode_string}
use atom_mqtt.Common.Utf8.{is_utf8}
use atom_mqtt.Wire.Fields.{Fits}
use atom_mqtt.Wire.Frame.{max_packet_size}
use atom_mqtt.Wire.Write.{optional_bytes}
use atom_mqtt.V3.Types.{MqttPacketV3}
use atom_mqtt.V3.Types as Types3
use atom_mqtt.V3.Encode as Encode3
use atom_mqtt.V3.RoundTrip.Packets as Packets3
use atom_mqtt.V3.RoundTrip.Connect as Connect3
use atom_mqtt.V5.Properties.{encode_properties, inner_bytes}
use atom_mqtt.V5.Types as Types5
use atom_mqtt.V5.Types.{send}
use atom_mqtt.V5.Encode as Encode5
use atom_mqtt.V5.RoundTrip.Connect as Connect5
use atom_mqtt.Broker.Auth.{
  open_to_all, file, authenticate, by_method, by_none, by_file, has_user, denied,
  bad_username_or_password,
}
use atom_mqtt.Broker.Auth as Auth
use atom_mqtt.Broker.State
use atom_mqtt.Broker.State.{BrokerState, BrokerConfig, open_acl, client_disconnected}
use atom_mqtt.Broker.Router.{route}
use atom_mqtt.Broker.ProcessV5.{process_v5_packet}
use atom_mqtt.Broker.ProcessV5.Same.{as_v3, effect, process_v5_packet-effect}
use atom_mqtt.Broker.ProcessV5.Answers.{answer_reason, process_subscribe_v5-answer}
use atom_mqtt.Broker.Request.{decode_packet_by_version}
use atom_mqtt.Broker.Connection.{
  Conn, serving, finished, failed, received, Input, count_sent, first_bytes, turn, wait, step,
}
use atom_mqtt.Broker.Connection.Refused.{connect_v3-refused, connect_v5-refused}
use atom_mqtt.Broker.Connection.Ending.{Ended, step-Ended}
use atom_mqtt.Broker.Connection.Accepted.{request_v5, request_v3}
use atom_mqtt.Broker.Connection.Start.{
  Started, accepted_v5, accepted_v3, connect_v5-abandoned, connect_v3-serving,
}
use atom_mqtt.Broker.Connection.Serving.{stream, JobFits, respond_all, run, run_served}
use atom_mqtt.Broker.Invariant.{Steps, done, also, stepped, routed, IsSound-reached}
use atom_mqtt.Broker.Invariant.Sound.{IsSound}
use atom_mqtt.Examples.Table.{table}
use atom_mqtt.Examples.Server.{ann, rooms, rules, start, asking}

-- Ann asks for `room/+` and for a filter that she may not have.
abbrev asking_v5 : Types5.SubscribePacket
asking_v5 = record {
  packet_id = 1;
  filters =
      record {
        path = rooms;
        qos = at_least_once;
        no_local = false;
        retain_as_published = false;
        retain_handling = send;
      }
      ∷ record {
        path = codes "x";
        qos = at_least_once;
        no_local = false;
        retain_as_published = false;
        retain_handling = send;
      }
      ∷ [];
  properties = [];
}

process_subscribe_v5-answer_example :
    (process_v5_packet table 0 (Types5.subscribe asking_v5) ann ann start).0
    ≡ some (
        Types5.suback (record {
          packet_id = 1;
          reason_codes = map (answer_reason rules ann) asking_v5.filters;
          properties = [];
        }))
process_subscribe_v5-answer_example = process_subscribe_v5-answer table asking_v5 0 ann ann start

process_v5_packet-effect_example :
    (process_v5_packet table 0 (Types5.subscribe asking_v5) ann ann start).1
    ≡ effect table 0 (as_v3 (Types5.subscribe asking_v5)) ann ann start start
process_v5_packet-effect_example =
    process_v5_packet-effect table 0 (Types5.subscribe asking_v5) ann ann start

ann-Fits : Fits ann
unfolding is_utf8
ann-Fits = record { short = omega arith; valid = refl }

abbrev hello_v5 : Types5.ConnectPacket
hello_v5 = record {
  client_id = ann;
  clean_start = true;
  keep_alive = 60;
  properties = [];
  will = none;
  username = some ann;
  password = none;
}

abbrev hello_v3 : Types3.ConnectPacket
hello_v3 = record {
  client_id = ann;
  clean_session = true;
  keep_alive = 60;
  will = none;
  username = some ann;
  password = none;
}

hello_v5-ConnectFits : Connect5.ConnectFits hello_v5
unfolding inner_bytes
hello_v5-ConnectFits = record {
  client = ann-Fits;
  keep = omega arith;
  properties = record { each = tt; small = omega arith };
  will = tt;
  username = ann-Fits;
  password = tt;
}

hello_v3-ConnectFits : Connect3.ConnectFits hello_v3
hello_v3-ConnectFits = record {
  client = ann-Fits;
  keep = omega arith;
  will = tt;
  username = ann-Fits;
  password = tt;
}

hello_v5_small : length (Encode5.packet_bytes (Types5.connect hello_v5)) ≤ max_packet_size
unfolding Encode5.packet_bytes Encode5.connect_remaining encode_remaining_length encode_string
    encode_properties inner_bytes optional_bytes
hello_v5_small = omega arith

hello_v3_small : length (Encode3.packet_bytes (Types3.connect hello_v3)) ≤ max_packet_size
unfolding Encode3.packet_bytes Encode3.connect_remaining encode_remaining_length encode_string
    optional_bytes
hello_v3_small = omega arith

abbrev input : Input
input = record { now = 0; tx = 9; writes = true; arrival = received [] }

ann_known :
    authenticate start.authenticator start.allow_anonymous (some ann) none ≡ Auth.success ann
unfolding authenticate by_method by_none
ann_known = refl

connect_v5-abandoned_example :
    Started table input ann ann
      (request_v5 table 0 hello_v5)
      failed
      accepted_v5
      start
      (first_bytes table input (Encode5.packet_bytes (Types5.connect hello_v5) ++ []) start)
connect_v5-abandoned_example =
    connect_v5-abandoned table input hello_v5 [] ann start hello_v5-ConnectFits hello_v5_small refl
      ann_known refl

connect_v3-serving_example :
    Started table input ann ann
      (request_v3 table 0 hello_v3)
      (serving (record {
        client_id = ann;
        username = some ann;
        version = v311;
        clean_session = true;
        buf = 0xc0 ∷ 0 ∷ [];
      }))
      accepted_v3
      start
      (first_bytes table input
        (Encode3.packet_bytes (Types3.connect hello_v3) ++ 0xc0 ∷ 0 ∷ [])
        start)
connect_v3-serving_example =
    connect_v3-serving table input hello_v3 (0xc0 ∷ 0 ∷ []) ann start hello_v3-ConnectFits
      hello_v3_small refl ann_known refl

-- A broker that reads its users from a file without any.
abbrev locked : BrokerState table
locked = record start { authenticator = record { method = file (codes "users"); users = [] } }

ann_unknown :
    authenticate locked.authenticator locked.allow_anonymous (some ann) none
    ≡ denied bad_username_or_password
unfolding authenticate by_method by_file has_user
ann_unknown = refl

connect_v3-refused_example :
    first_bytes table input (Encode3.packet_bytes (Types3.connect hello_v3) ++ []) locked
    ≡ (finished, (0x20 ∷ 2 ∷ 0 ∷ 4 ∷ []) ∷ [], count_sent table (0x20 ∷ 2 ∷ 0 ∷ 4 ∷ []) locked)
connect_v3-refused_example =
    connect_v3-refused table input hello_v3 [] bad_username_or_password locked hello_v3-ConnectFits
      hello_v3_small ann_unknown refl

connect_v5-refused_example :
    first_bytes table input (Encode5.packet_bytes (Types5.connect hello_v5) ++ []) locked ≡ (
      finished,
      (0x20 ∷ 3 ∷ 0 ∷ 0x86 ∷ 0 ∷ []) ∷ [],
      count_sent table (0x20 ∷ 3 ∷ 0 ∷ 0x86 ∷ 0 ∷ []) locked,
    )
connect_v5-refused_example =
    connect_v5-refused table input hello_v5 [] bad_username_or_password locked hello_v5-ConnectFits
      hello_v5_small ann_unknown refl

abbrev ann_conn : Bytes → Conn
ann_conn buf = record {
  client_id = ann;
  username = some ann;
  version = v311;
  clean_session = true;
  buf = buf;
}

-- The client has closed its end.
closed : (step table input (serving (ann_conn [])) start).0 ≡ finished
unfolding step turn wait decode_packet_by_version
closed = refl

step-Ended_example :
    Ended table (ann_conn []) start (step table input (serving (ann_conn [])) start).2
step-Ended_example = step-Ended table input (ann_conn []) start closed

-- A SUBSCRIBE and a PINGREQ.
abbrev jobs : List (Input × MqttPacketV3)
jobs = (input, Types3.subscribe asking) ∷ (input, Types3.pingreq) ∷ []

abbrev buffered : Bytes
buffered = stream (map (λ j. j.1) jobs)

asking-PacketFits : Packets3.PacketFits (Types3.subscribe asking)
unfolding is_utf8
asking-PacketFits = (
  omega arith,
  (
    record { short = omega arith; valid = refl },
    (record { short = omega arith; valid = refl }, tt),
  ),
)

jobs-JobFits : All JobFits jobs
unfolding Encode3.packet_bytes Encode3.filter_bytes encode_remaining_length encode_string
jobs-JobFits = (
  record { packet = asking-PacketFits; small = omega arith; writes = refl },
  (record { packet = tt; small = omega arith; writes = refl }, tt),
)

run_served_example :
    let answers = respond_all table jobs ann (some ann) start in
    run table (map (λ j. j.0) jobs) (serving (ann_conn buffered)) start
    ≡ (serving (ann_conn []), answers.0, answers.1)
run_served_example = run_served table jobs (ann_conn buffered) start refl refl jobs-JobFits

no_files : Bytes → Option Bytes
no_files path = none

abbrev config : BrokerConfig
config = record { allow_anonymous = true; auth_method = open_to_all; acl_method = open_acl }

abbrev fresh : BrokerState table
fresh = State.new table no_files config

-- Ann's connection serves her SUBSCRIBE, and then the router sees her go.
abbrev subscribed_ann : BrokerState table
subscribed_ann = (step table input (serving (ann_conn buffered)) fresh).2

abbrev ann_left : BrokerState table
ann_left = route table 1 (client_disconnected ann true) subscribed_ann

day : Steps table fresh ann_left
day =
    also (also (done fresh) (stepped input (serving (ann_conn buffered)) fresh))
      (routed 1 (client_disconnected ann true) subscribed_ann)

IsSound-reached_example : IsSound table ann_left
IsSound-reached_example = IsSound-reached table no_files config ann_left day
