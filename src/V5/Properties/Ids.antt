-- ===== src/V5/Properties/Ids.antt =====
-- The identifiers of mqtt-core/src/v5/properties.rs.
use atom_mqtt.Prelude.{ℕ, ◌≡◌, refl, Option, none, some, ◌==◌, if◌then◌else◌}

pub data PropertyId : Type 0 where
  payload_format_indicator message_expiry_interval content_type response_topic correlation_data
        subscription_identifier session_expiry_interval assigned_client_identifier server_keep_alive
        authentication_method authentication_data request_problem_information will_delay_interval
        request_response_information response_information server_reference reason_string
        receive_maximum topic_alias_maximum topic_alias maximum_qos retain_available user_property
        maximum_packet_size wildcard_subscription_available subscription_identifier_available
        shared_subscription_available :
      PropertyId

-- `*id as u8`: the discriminant.
unfoldable pub property_id_to_u8 : PropertyId → ℕ
property_id_to_u8 payload_format_indicator = 1
property_id_to_u8 message_expiry_interval = 2
property_id_to_u8 content_type = 3
property_id_to_u8 response_topic = 8
property_id_to_u8 correlation_data = 9
property_id_to_u8 subscription_identifier = 11
property_id_to_u8 session_expiry_interval = 17
property_id_to_u8 assigned_client_identifier = 18
property_id_to_u8 server_keep_alive = 19
property_id_to_u8 authentication_method = 21
property_id_to_u8 authentication_data = 22
property_id_to_u8 request_problem_information = 23
property_id_to_u8 will_delay_interval = 24
property_id_to_u8 request_response_information = 25
property_id_to_u8 response_information = 26
property_id_to_u8 server_reference = 28
property_id_to_u8 reason_string = 31
property_id_to_u8 receive_maximum = 33
property_id_to_u8 topic_alias_maximum = 34
property_id_to_u8 topic_alias = 35
property_id_to_u8 maximum_qos = 36
property_id_to_u8 retain_available = 37
property_id_to_u8 user_property = 38
property_id_to_u8 maximum_packet_size = 39
property_id_to_u8 wildcard_subscription_available = 40
property_id_to_u8 subscription_identifier_available = 41
property_id_to_u8 shared_subscription_available = 42

unfoldable pub property_id_from_u8 : ℕ → Option PropertyId
property_id_from_u8 v =
    if v == 1
    then some payload_format_indicator
    else if v == 2
    then some message_expiry_interval
    else if v == 3
    then some content_type
    else if v == 8
    then some response_topic
    else if v == 9
    then some correlation_data
    else if v == 11
    then some subscription_identifier
    else if v == 17
    then some session_expiry_interval
    else if v == 18
    then some assigned_client_identifier
    else if v == 19
    then some server_keep_alive
    else if v == 21
    then some authentication_method
    else if v == 22
    then some authentication_data
    else if v == 23
    then some request_problem_information
    else if v == 24
    then some will_delay_interval
    else if v == 25
    then some request_response_information
    else if v == 26
    then some response_information
    else if v == 28
    then some server_reference
    else if v == 31
    then some reason_string
    else if v == 33
    then some receive_maximum
    else if v == 34
    then some topic_alias_maximum
    else if v == 35
    then some topic_alias
    else if v == 36
    then some maximum_qos
    else if v == 37
    then some retain_available
    else if v == 38
    then some user_property
    else if v == 39
    then some maximum_packet_size
    else if v == 40
    then some wildcard_subscription_available
    else if v == 41
    then some subscription_identifier_available
    else if v == 42
    then some shared_subscription_available
    else none

-- The arms of the `match id` of `Properties::decode`, by what they read.
pub data Kind : Type 0 where
  a_byte two_bytes four_bytes a_varint a_binary a_string a_pair : Kind

unfoldable pub kind_of : PropertyId → Kind
kind_of payload_format_indicator = a_byte
kind_of message_expiry_interval = four_bytes
kind_of content_type = a_string
kind_of response_topic = a_string
kind_of correlation_data = a_binary
kind_of subscription_identifier = a_varint
kind_of session_expiry_interval = four_bytes
kind_of assigned_client_identifier = a_string
kind_of server_keep_alive = two_bytes
kind_of authentication_method = a_string
kind_of authentication_data = a_binary
kind_of request_problem_information = a_byte
kind_of will_delay_interval = four_bytes
kind_of request_response_information = a_byte
kind_of response_information = a_string
kind_of server_reference = a_string
kind_of reason_string = a_string
kind_of receive_maximum = two_bytes
kind_of topic_alias_maximum = two_bytes
kind_of topic_alias = two_bytes
kind_of maximum_qos = a_byte
kind_of retain_available = a_byte
kind_of user_property = a_pair
kind_of maximum_packet_size = four_bytes
kind_of wildcard_subscription_available = a_byte
kind_of subscription_identifier_available = a_byte
kind_of shared_subscription_available = a_byte

pub property_id_from-to : (i : PropertyId) → property_id_from_u8 (property_id_to_u8 i) ≡ some i
unfolding property_id_from_u8 property_id_to_u8
property_id_from-to payload_format_indicator = refl
property_id_from-to _ = refl
