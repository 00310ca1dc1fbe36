-- ===== src/Examples/Server/Handler.antt =====
-- Packets given to `process_v3_packet` of mqtt-broker/src/server.rs.
use atom_mqtt.Prelude.{
  ◌≡◌, if◌then◌else◌, Bytes, not, ◌&&◌, ◌||◌, none, some, ◌∷◌, map, any, str_eq, [],
}
use atom_mqtt.V3.Types.{suback, unsuback, subscribe, unsubscribe}
use atom_mqtt.V3.Types
use atom_mqtt.Broker.Acl.{authorize_publish}
use atom_mqtt.Broker.Subscription
use atom_mqtt.Broker.Subscription.Lookup.{subscribed}
use atom_mqtt.Broker.State.{RetainedMessage}
use atom_mqtt.Broker.Process.{process_v3_packet}
use atom_mqtt.Broker.Process.Subscribe.{
  answer_code, asked, process_subscribe-answer, process_subscribe-subscribed,
  process_unsubscribe_lem,
}
use atom_mqtt.Broker.Process.Published.{
  written, received_one, retained_by, after_publish, process_publish_lem,
}
use atom_mqtt.Examples.Table.{table}
use atom_mqtt.Examples.Server.{
  ann, rooms, kitchen, rules, start, tree, listening, note, asking, leaving,
}

process_subscribe-answer_example :
    (process_v3_packet table 0 (subscribe asking) ann ann start).0
    ≡ some (
        suback
          (record { packet_id = 1; return_codes = map (answer_code rules ann) asking.filters }))
process_subscribe-answer_example = process_subscribe-answer table asking 0 ann ann start

process_subscribe-subscribed_example :
    subscribed ann rooms
      (process_v3_packet table 0 (subscribe asking) ann ann start).1.subscriptions
    ≡ (any (asked rules ann ann ann rooms) asking.filters || subscribed ann rooms Subscription.new)
process_subscribe-subscribed_example =
    process_subscribe-subscribed table asking 0 ann ann start ann rooms

process_unsubscribe_lem_example :
    let after_it = process_v3_packet table 0 (unsubscribe leaving) ann ann listening in
    (after_it.0 ≡ some (unsuback (record { packet_id = 2 })))
    × (subscribed ann rooms after_it.1.subscriptions ≡ (
        not (str_eq ann ann && any (λ g. str_eq g rooms) leaving.filters)
        && subscribed ann rooms tree))
process_unsubscribe_lem_example =
    process_unsubscribe_lem table leaving 0 ann ann listening ann rooms

process_publish_lem_example :
    let after = process_v3_packet table 0 (Types.publish note) ann ann start in
    let may = authorize_publish rules ann kitchen in
    (written after.0 ≡ (if may then some (0x40 ∷ 2 ∷ 0 ∷ 5 ∷ []) else none))
    × ((m : table.Map RetainedMessage) × (after.1 ≡ (
          if may
          then after_publish table note ann m start
          else record start { metrics = received_one note.payload start.metrics }))
        × ((topic : Bytes)
            → table.get m topic ≡ (
                if may
                then retained_by table 0 note topic (table.get start.retained topic)
                else table.get start.retained topic)))
process_publish_lem_example = process_publish_lem table 0 note ann ann start
