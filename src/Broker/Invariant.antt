-- ===== src/Broker/Invariant.antt =====
-- What every step of a connection and every message routed in mqtt-broker/src/server.rs keeps true.
pub mod Untouched
pub mod Sound
pub mod Opening
pub mod Lifecycle
use atom_mqtt.Prelude.{ℕ, ◌≡◌, sym, Option, Bytes}
use atom_mqtt.V3.Types.{MqttPacketV3}
use atom_mqtt.Codec.{MqttPacket}
use atom_mqtt.Broker.Store.{DashMap}
use atom_mqtt.Broker.Subscription.Stored.{count-new}
use atom_mqtt.Broker.Subscription.Lookup.{IsFiled-new}
use atom_mqtt.Broker.State.{BrokerState, BrokerConfig, BrokerMessage}
use atom_mqtt.Broker.State
use atom_mqtt.Broker.Router.{route}
use atom_mqtt.Broker.Connection.{Input, Phase, step}
use atom_mqtt.Broker.Invariant.Sound.{IsSound, IsSound-route}
use atom_mqtt.Broker.Invariant.Lifecycle.{IsSound-step}

module _ (M : DashMap) where
  -- One step of some connection, in whatever phase it is, or one message routed.
  pub data Step : BrokerState M → BrokerState M → Type 0 where
    stepped : (i : Input) (phase : Phase) (s : BrokerState M) → Step s (step M i phase s).2
    routed :
        (now : ℕ) (message : BrokerMessage) (s : BrokerState M) → Step s (route M now message s)

  pub data Steps : BrokerState M → BrokerState M → Type 0 where
    done : (s : BrokerState M) → Steps s s
    also : {r s t : BrokerState M} → Steps r s → Step s t → Steps r t

  IsSound-Step : {s t : BrokerState M} → Step s t → IsSound M s → IsSound M t
  IsSound-Step (stepped i phase s) h = IsSound-step M i phase s h
  IsSound-Step (routed now message s) h = IsSound-route M now message s h

  Steps-IsSound : {r s : BrokerState M} → Steps r s → IsSound M r → IsSound M s
  Steps-IsSound (done s) h = h
  Steps-IsSound (also before step) h = IsSound-Step step (Steps-IsSound before h)

  -- However the steps of connections and router messages interleave, from a new broker only sound
  -- states are reached: each subscription stands under its own filter, and the gauge of active
  -- subscriptions is what `count` gives for the tree.
  pub IsSound-reached :
      (read_to_string : Bytes → Option Bytes) (config : BrokerConfig) (s : BrokerState M)
      → Steps (State.new M read_to_string config) s
      → IsSound M s
  unfolding State.new
  IsSound-reached read_to_string config s steps =
      Steps-IsSound steps (record { filed = IsFiled-new; gauge = sym count-new })
