-- ===== src/Examples/Database.antt =====
-- The background writer of mqtt-broker/src/persistence.rs on a few events, and what is loaded.
use atom_mqtt.Prelude.{◌≡◌, refl, true, false, some, List, ◌∷◌, Bytes, codes, []}
use atom_mqtt.Common.{v5, level_byte, at_least_once, qos_to_u8}
use atom_mqtt.Broker.State.{
  save_session, save_subscription, remove_subscription, save_retained, save_will, shutdown,
}
use atom_mqtt.Broker.Process.{retained_message}
use atom_mqtt.Broker.Persistence.{
  Outcome, Tables, apply_event, load_sessions, load_subscriptions, load_retained, load_wills,
}
use atom_mqtt.Broker.Persistence.Writer.{
  Wake, timed_out, woken, IsGood, bg_writer, all_arrived, apply_all, bg_writer_lem,
}
use atom_mqtt.Broker.Persistence.Loading.{Has, load-apply_event}
use atom_mqtt.Examples.Table.{sql}

abbrev ann : Bytes
ann = codes "ann"

abbrev rooms : Bytes
rooms = codes "room/+"

abbrev empty : Tables sql
empty = record { sessions = []; subscriptions = []; retained_messages = []; will_messages = [] }

abbrev answering : Outcome
answering = record { locked = true; begins = true; executes = λ event. true; commits = true }

answering-IsGood : IsGood answering
answering-IsGood = record { sound = refl; begun = refl; done = λ event. refl; committed = refl }

-- Two events at once, a pause, and one more before the shutdown.
abbrev bursts : List Wake
bursts =
    woken (save_subscription ann rooms 1) (save_subscription ann ann 0 ∷ [])
    ∷ timed_out
    ∷ woken (remove_subscription ann ann) (shutdown ∷ save_subscription ann ann 2 ∷ [])
    ∷ []

bg_writer_lem_example :
    bg_writer sql (λ batch db. answering) bursts empty
    ≡ apply_all sql (λ batch db. answering) (all_arrived sql (λ batch db. answering) bursts) empty
bg_writer_lem_example =
    bg_writer_lem sql (λ batch db. answering) (λ batch db. answering-IsGood) bursts empty

load-apply_event_example :
    Has
      (record {
        client_id = ann;
        protocol_version = v5;
        clean_session = true;
        keep_alive = 60;
        connected = false;
        created_at = 5;
        last_active = 5;
        username = some ann;
      })
      (load_sessions sql true 5
        (apply_event sql (save_session ann (level_byte v5) true 60 (some ann)) empty))
    × Has
        (ann, rooms, at_least_once)
        (load_subscriptions sql true
          (apply_event sql (save_subscription ann rooms (qos_to_u8 at_least_once)) empty))
    × Has (retained_message 5 rooms ann at_least_once) (
        load_retained sql true 5
          (apply_event sql (save_retained rooms ann (qos_to_u8 at_least_once)) empty))
    × Has
        (record {
          client_id = ann;
          topic = rooms;
          payload = ann;
          qos = at_least_once;
          retain = true;
          delay_interval = 60;
          created_at = 5;
        })
        (load_wills sql true 5
          (apply_event sql (save_will ann rooms ann (qos_to_u8 at_least_once) true 60) empty))
load-apply_event_example =
    load-apply_event sql 5 empty ann rooms ann v5 true 60 (some ann) at_least_once
