-- ===== src/Examples/Server/Routing.antt =====
-- Messages given to the router of mqtt-broker/src/server.rs, and the tree that it looks in.
use atom_mqtt.Prelude.{
  none, ◌≤◌, All, arith, ◌≡◌, ◌↔◌, refl, sym, ◌∙◌, true, false, not, ◌&&◌, some, List, ◌∷◌,
  if◌then◌else◌, Any, length, Bytes, codes, str_eq, str_eq_iff, or_split, &&_split, false≢true, inl,
  inr, subst, [],
}
use atom_mqtt.Common.{at_most_once}
use atom_mqtt.Common.Levels.{Matches}
use atom_mqtt.Common.Split.{levels, split}
use atom_mqtt.V3.Types.{subscribe, unsubscribe, disconnect}
use atom_mqtt.V3.Types
use atom_mqtt.Common.Length.{encode_remaining_length}
use atom_mqtt.Common.Strings.{encode_string}
use atom_mqtt.Common.Utf8.{is_utf8}
use atom_mqtt.V3.Encode.{packet_bytes, publish_header, publish_remaining}
use atom_mqtt.Wire.Frame.{max_packet_size}
use atom_mqtt.Wire.Fields.{Fits}
use atom_mqtt.Broker.Router.Delivery.{delivered, IsDelivered, decode-route_publish}
use atom_mqtt.Broker.Router.Farewell.{asks_for_will, farewell_lem}
use atom_mqtt.Broker.ProcessV5.{process_packet}
use atom_mqtt.Codec.{MqttPacket, v5}
use atom_mqtt.V5.Types as Types5
use atom_mqtt.V5.Reasons.{disconnect_with_will_message}
use atom_mqtt.Broker.Subscription
use atom_mqtt.Broker.Subscription.Keys.{has_key}
use atom_mqtt.Broker.Subscription.Stored.{stored-new}
use atom_mqtt.Broker.Subscription.Lookup.{
  subscribed, IsFiled, IsFiled-new, IsFiled-subscribe, subscribed-subscribe,
}
use atom_mqtt.Broker.Subscription.Refinement
use atom_mqtt.Broker.Subscription.Refinement.{Request, run, steps, no_one, HashLast, lookup-run_iff}
use atom_mqtt.Broker.Process.{retained_message, process_v3_packet}
use atom_mqtt.Broker.Process.Publish.{queued}
use atom_mqtt.Broker.Router.{route_publish, route_disconnected, route}
use atom_mqtt.Broker.Router.Forward.{FiltersValid, route_publish_iff}
use atom_mqtt.Broker.Router.Retained.{retained_after_route}
use atom_mqtt.Broker.Router.Disconnect.{route_disconnected_clean, route_disconnected_kept}
use atom_mqtt.Examples.Table.{table}
use atom_mqtt.Examples.Server.{
  ann, rooms, kitchen, session, start, tree, listening, empty_note, allowed,
}

tree-IsFiled : IsFiled tree
tree-IsFiled = IsFiled-subscribe Subscription.new ann rooms at_most_once IsFiled-new

rooms-HashLast : HashLast (levels rooms)
unfolding split str_eq
rooms-HashLast = (refl, tt)

nothing_before : (c f : Bytes) → subscribed c f Subscription.new ≡ false
unfolding subscribed
nothing_before c f = rw stored-new

tree-FiltersValid : FiltersValid table tree
tree-FiltersValid c f h =
    elim (or_split (str_eq ann c && str_eq rooms f) (subscribed c f Subscription.new)
      (sym (subscribed-subscribe Subscription.new ann rooms c f at_most_once) ∙ h)) [
        | inl wanted ↦
            subst (λ (g : Bytes). HashLast (levels g))
              ((str_eq_iff rooms f).0 (&&_split (str_eq ann c) (str_eq rooms f) wanted).1)
              rooms-HashLast
        | inr before ↦ absurd (false≢true (sym (nothing_before c f) ∙ before))
      ]

abbrev calls : List Request
calls = Refinement.subscribe ann rooms at_most_once ∷ Refinement.unsubscribe ann kitchen ∷ []

lookup-run_iff_example :
    (has_key ann rooms (Subscription.lookup (run Subscription.new calls) kitchen) ≡ true)
    ↔ ((steps no_one calls ann rooms ≡ true) × Matches (levels rooms) (levels kitchen))
lookup-run_iff_example = lookup-run_iff calls kitchen ann rooms rooms-HashLast

retained_after_route_example :
    let s' = (process_v3_packet table 0 (Types.publish empty_note) ann ann start).1 in
    (s'.messages ≡ queued table empty_note ann ∷ [])
    × (table.get s'.retained kitchen ≡ none)
    × (table.get (route table 1 (queued table empty_note ann) s').retained kitchen
        ≡ some (retained_message 1 kitchen [] at_most_once))
retained_after_route_example = retained_after_route table 0 1 empty_note ann ann start allowed refl

route_publish_iff_example :
    Any
      (λ e. e.0 ≡ 7)
      (route_publish table 0 kitchen (codes "hi") at_most_once false ann listening).sent
    ↔ ((c : Bytes) × (f : Bytes) × (subscribed c f tree ≡ true)
        × Matches (levels f) (levels kitchen)
        × (table.get listening.connections c ≡ some 7))
route_publish_iff_example =
    route_publish_iff table 0 kitchen (codes "hi") at_most_once false ann listening 7 refl
      tree-IsFiled tree-FiltersValid

route_disconnected_clean_example :
    let s' = route_disconnected table 0 ann true listening in
    (subscribed ann rooms s'.subscriptions ≡ (not (str_eq ann ann) && subscribed ann rooms tree))
    × (table.get s'.sessions ann ≡ none)
    × (table.get s'.wills ann ≡ none)
    × (s'.metrics.subscriptions_active ≡ Subscription.count s'.subscriptions)
route_disconnected_clean_example = route_disconnected_clean table 0 ann listening ann rooms

route_disconnected_kept_example :
    let s' = route_disconnected table 0 ann false listening in
    (s'.subscriptions ≡ tree)
    × (table.get s'.sessions ann ≡ some (record session { connected = false }))
    × (table.get s'.wills ann ≡ none)
unfolding str_eq
route_disconnected_kept_example = route_disconnected_kept table 0 ann listening session refl

kitchen-Fits : Fits kitchen
unfolding is_utf8
kitchen-Fits = record { short = omega arith; valid = refl }

small_packet : length (packet_bytes (delivered kitchen (codes "hi") false)) ≤ max_packet_size
unfolding packet_bytes publish_header publish_remaining encode_remaining_length encode_string
small_packet = omega arith

decode-route_publish_example :
    All
      (λ e. IsDelivered kitchen (codes "hi") false e.1)
      (route_publish table 0 kitchen (codes "hi") at_most_once false ann listening).sent
decode-route_publish_example =
    decode-route_publish table 0 kitchen (codes "hi") at_most_once false ann listening refl
      kitchen-Fits small_packet

abbrev with_will : MqttPacket
with_will =
    v5 (Types5.disconnect (record { reason_code = disconnect_with_will_message; properties = [] }))

farewell_lem_example :
    (route_disconnected table 0 ann true
      (process_packet table 0 with_will ann ann listening).1).sent
    ≡ (if asks_for_will with_will then (route_disconnected table 0 ann true listening).sent else [])
farewell_lem_example = farewell_lem table 0 with_will ann ann true listening tt
