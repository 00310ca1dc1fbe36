-- ===== src/Broker/Metrics.antt =====
-- `BrokerMetrics` of mqtt-broker/src/metrics.rs. The counters are `u64` and wrap.
use atom_mqtt.Prelude.{ℕ, ◌+◌, ◌-◌, ◌%◌, ◌^◌}

pub record BrokerMetrics : Type 0 where
  pub bytes_received : ℕ
  pub bytes_sent : ℕ
  pub messages_published : ℕ
  pub messages_received : ℕ
  pub subscriptions_active : ℕ
  pub clients_connected : ℕ
  pub clients_total : ℕ
  pub packets_received : ℕ
  pub packets_sent : ℕ
  pub rejected_connections : ℕ
  pub uptime_seconds : ℕ

-- `counter += n` on a `u64`
abbrev pub add64 : ℕ → ℕ → ℕ
add64 counter n = (counter + n) % 2 ^ 64

-- `BrokerMetrics::new`
abbrev pub new : BrokerMetrics
new = record {
  bytes_received = 0;
  bytes_sent = 0;
  messages_published = 0;
  messages_received = 0;
  subscriptions_active = 0;
  clients_connected = 0;
  clients_total = 0;
  packets_received = 0;
  packets_sent = 0;
  rejected_connections = 0;
  uptime_seconds = 0;
}

unfoldable pub increment_bytes_received : ℕ → BrokerMetrics → BrokerMetrics
increment_bytes_received n m = record m { bytes_received = add64 m.bytes_received n }

unfoldable pub increment_bytes_sent : ℕ → BrokerMetrics → BrokerMetrics
increment_bytes_sent n m = record m { bytes_sent = add64 m.bytes_sent n }

unfoldable pub increment_messages_published : BrokerMetrics → BrokerMetrics
increment_messages_published m = record m { messages_published = add64 m.messages_published 1 }

unfoldable pub increment_messages_received : BrokerMetrics → BrokerMetrics
increment_messages_received m = record m { messages_received = add64 m.messages_received 1 }

unfoldable pub increment_clients_connected : BrokerMetrics → BrokerMetrics
increment_clients_connected m = record m {
  clients_connected = add64 m.clients_connected 1;
  clients_total = add64 m.clients_total 1;
}

-- `saturating_sub` stops at 0.
unfoldable pub decrement_clients_connected : BrokerMetrics → BrokerMetrics
decrement_clients_connected m = record m { clients_connected = m.clients_connected - 1 }

unfoldable pub increment_packets_received : BrokerMetrics → BrokerMetrics
increment_packets_received m = record m { packets_received = add64 m.packets_received 1 }

unfoldable pub increment_packets_sent : BrokerMetrics → BrokerMetrics
increment_packets_sent m = record m { packets_sent = add64 m.packets_sent 1 }

unfoldable pub increment_rejected_connections : BrokerMetrics → BrokerMetrics
increment_rejected_connections m = record m {
  rejected_connections = add64 m.rejected_connections 1;
}
