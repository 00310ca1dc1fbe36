-- ===== src/V5/Reasons.antt =====
-- `ReasonCode` of mqtt-core/src/v5/types.rs.
use atom_mqtt.Prelude.{ℕ, ◌≡◌, refl, Bool, true, false, Option, none, some, ◌==◌, if◌then◌else◌}

pub data ReasonCode : Type 0 where
  success granted_qos1 granted_qos2 disconnect_with_will_message no_matching_subscribers
        no_subscription_existed continue_authentication re_authenticate unspecified_error
        malformed_packet protocol_error implementation_specific_error unsupported_protocol_version
        client_identifier_not_valid bad_user_name_or_password not_authorized server_unavailable
        server_busy banned server_shutting_down bad_authentication_method keep_alive_timeout
        session_taken_over topic_filter_invalid topic_name_invalid packet_identifier_in_use
        packet_identifier_not_found receive_maximum_exceeded topic_alias_invalid packet_too_large
        message_rate_too_high quota_exceeded administrative_action payload_format_invalid
        retain_not_supported qos_not_supported use_another_server server_moved
        shared_subscriptions_not_supported connection_rate_exceeded maximum_connect_time
        subscription_identifiers_not_supported wildcard_subscriptions_not_supported :
      ReasonCode

-- `*rc as u8`: the discriminant.
unfoldable pub reason_code_to_u8 : ReasonCode → ℕ
reason_code_to_u8 success = 0
reason_code_to_u8 granted_qos1 = 1
reason_code_to_u8 granted_qos2 = 2
reason_code_to_u8 disconnect_with_will_message = 4
reason_code_to_u8 no_matching_subscribers = 16
reason_code_to_u8 no_subscription_existed = 17
reason_code_to_u8 continue_authentication = 24
reason_code_to_u8 re_authenticate = 25
reason_code_to_u8 unspecified_error = 128
reason_code_to_u8 malformed_packet = 129
reason_code_to_u8 protocol_error = 130
reason_code_to_u8 implementation_specific_error = 131
reason_code_to_u8 unsupported_protocol_version = 132
reason_code_to_u8 client_identifier_not_valid = 133
reason_code_to_u8 bad_user_name_or_password = 134
reason_code_to_u8 not_authorized = 135
reason_code_to_u8 server_unavailable = 136
reason_code_to_u8 server_busy = 137
reason_code_to_u8 banned = 138
reason_code_to_u8 server_shutting_down = 139
reason_code_to_u8 bad_authentication_method = 140
reason_code_to_u8 keep_alive_timeout = 141
reason_code_to_u8 session_taken_over = 142
reason_code_to_u8 topic_filter_invalid = 143
reason_code_to_u8 topic_name_invalid = 144
reason_code_to_u8 packet_identifier_in_use = 145
reason_code_to_u8 packet_identifier_not_found = 146
reason_code_to_u8 receive_maximum_exceeded = 147
reason_code_to_u8 topic_alias_invalid = 148
reason_code_to_u8 packet_too_large = 149
reason_code_to_u8 message_rate_too_high = 150
reason_code_to_u8 quota_exceeded = 151
reason_code_to_u8 administrative_action = 152
reason_code_to_u8 payload_format_invalid = 153
reason_code_to_u8 retain_not_supported = 154
reason_code_to_u8 qos_not_supported = 155
reason_code_to_u8 use_another_server = 156
reason_code_to_u8 server_moved = 157
reason_code_to_u8 shared_subscriptions_not_supported = 158
reason_code_to_u8 connection_rate_exceeded = 159
reason_code_to_u8 maximum_connect_time = 160
reason_code_to_u8 subscription_identifiers_not_supported = 161
reason_code_to_u8 wildcard_subscriptions_not_supported = 162

unfoldable pub reason_code_from_u8 : ℕ → Option ReasonCode
reason_code_from_u8 v =
    if v == 0
    then some success
    else if v == 1
    then some granted_qos1
    else if v == 2
    then some granted_qos2
    else if v == 4
    then some disconnect_with_will_message
    else if v == 16
    then some no_matching_subscribers
    else if v == 17
    then some no_subscription_existed
    else if v == 24
    then some continue_authentication
    else if v == 25
    then some re_authenticate
    else if v == 128
    then some unspecified_error
    else if v == 129
    then some malformed_packet
    else if v == 130
    then some protocol_error
    else if v == 131
    then some implementation_specific_error
    else if v == 132
    then some unsupported_protocol_version
    else if v == 133
    then some client_identifier_not_valid
    else if v == 134
    then some bad_user_name_or_password
    else if v == 135
    then some not_authorized
    else if v == 136
    then some server_unavailable
    else if v == 137
    then some server_busy
    else if v == 138
    then some banned
    else if v == 139
    then some server_shutting_down
    else if v == 140
    then some bad_authentication_method
    else if v == 141
    then some keep_alive_timeout
    else if v == 142
    then some session_taken_over
    else if v == 143
    then some topic_filter_invalid
    else if v == 144
    then some topic_name_invalid
    else if v == 145
    then some packet_identifier_in_use
    else if v == 146
    then some packet_identifier_not_found
    else if v == 147
    then some receive_maximum_exceeded
    else if v == 148
    then some topic_alias_invalid
    else if v == 149
    then some packet_too_large
    else if v == 150
    then some message_rate_too_high
    else if v == 151
    then some quota_exceeded
    else if v == 152
    then some administrative_action
    else if v == 153
    then some payload_format_invalid
    else if v == 154
    then some retain_not_supported
    else if v == 155
    then some qos_not_supported
    else if v == 156
    then some use_another_server
    else if v == 157
    then some server_moved
    else if v == 158
    then some shared_subscriptions_not_supported
    else if v == 159
    then some connection_rate_exceeded
    else if v == 160
    then some maximum_connect_time
    else if v == 161
    then some subscription_identifiers_not_supported
    else if v == 162
    then some wildcard_subscriptions_not_supported
    else none

-- `ReasonCode::is_success`
unfoldable pub is_success : ReasonCode → Bool
is_success success = true
is_success granted_qos1 = true
is_success granted_qos2 = true
is_success _ = false

-- `!=` on reason codes
abbrev pub reason_eq : ReasonCode → ReasonCode → Bool
reason_eq a b = reason_code_to_u8 a == reason_code_to_u8 b

pub reason_code_from-to : (c : ReasonCode) → reason_code_from_u8 (reason_code_to_u8 c) ≡ some c
unfolding reason_code_from_u8 reason_code_to_u8
reason_code_from-to success = refl
reason_code_from-to _ = refl
