-- ===== src/Broker/Process/Subscribe.antt =====
-- What SUBSCRIBE and UNSUBSCRIBE do to the state of mqtt-broker/src/server.rs.
use atom_mqtt.Prelude.{
  ℕ, ◌≡◌, refl, ap, sym, ◌∙◌, Bool, true, false, not, ◌&&◌, ◌||◌, some, List, ◌∷◌, ◌++◌, map, any,
  append-nil, append_assoc, if◌then◌else◌, Bytes, str_eq, Bool-cases, inl, inr, arith, [],
}
use atom_mqtt.Common.{Qos, at_most_once, at_least_once, exactly_once, qos_to_u8}
use atom_mqtt.Common.Topic
use atom_mqtt.V3.Types.{
  SubscribeFilter, SubscribePacket, SubAckReturnCode, UnsubscribePacket, success_qos0, success_qos1,
  success_qos2, failure, suback, unsuback, subscribe, unsubscribe, suback_return_code_from_u8,
}
use atom_mqtt.V3.Decode.{known_codes}
use atom_mqtt.Broker.Store.{DashMap}
use atom_mqtt.Broker.Acl.{AclChecker, authorize_subscribe}
use atom_mqtt.Broker.Subscription
use atom_mqtt.Broker.Subscription.Lookup.{subscribed, subscribed-subscribe, subscribed-unsubscribe}
use atom_mqtt.Broker.State.{BrokerState, send_event, count}
use atom_mqtt.Broker.Process.{
  denied_code, send_retained, add_subscription, subscribe_loop, count_subscriptions,
  process_subscribe, unsubscribe_loop, process_v3_packet,
}
use atom_mqtt.Broker.Process.Sends.{quiet, quiet-send_retained}

-- The code that answers a filter: the QoS asked for where the rules allow it, else a failure.
abbrev pub granted_code : Qos → SubAckReturnCode
granted_code at_most_once = success_qos0
granted_code at_least_once = success_qos1
granted_code exactly_once = success_qos2

abbrev pub answer_code : AclChecker → Bytes → SubscribeFilter → SubAckReturnCode
answer_code acl username f =
    if authorize_subscribe acl username f.path then granted_code f.qos else failure

abbrev answer_byte : AclChecker → Bytes → SubscribeFilter → ℕ
answer_byte acl username f =
    if authorize_subscribe acl username f.path then qos_to_u8 f.qos else denied_code

known_codes_granted :
    (allowed : Bool) (q : Qos) (bytes : List ℕ) (codes : List SubAckReturnCode)
    → known_codes bytes ≡ codes
    → known_codes ((if allowed then qos_to_u8 q else denied_code) ∷ bytes)
      ≡ (if allowed then granted_code q else failure) ∷ codes
unfolding known_codes suback_return_code_from_u8 qos_to_u8
known_codes_granted true at_most_once bytes codes e = ap (λ t. success_qos0 ∷ t) e
known_codes_granted true at_least_once bytes codes e = ap (λ t. success_qos1 ∷ t) e
known_codes_granted true exactly_once bytes codes e = ap (λ t. success_qos2 ∷ t) e
known_codes_granted false q bytes codes e = ap (λ t. failure ∷ t) e

known_codes-answer :
    (acl : AclChecker) (username : Bytes) (filters : List SubscribeFilter)
    → known_codes (map (answer_byte acl username) filters) ≡ map (answer_code acl username) filters
unfolding known_codes
known_codes-answer acl username [] = refl
known_codes-answer acl username (f ∷ filters) =
    known_codes_granted (authorize_subscribe acl username f.path) f.qos
      (map (answer_byte acl username) filters) _ (known_codes-answer acl username filters)

-- The client asked for the filter, and the rules allow it.
abbrev pub asked : AclChecker → Bytes → Bytes → Bytes → Bytes → SubscribeFilter → Bool
asked acl username client c f g =
    authorize_subscribe acl username g.path && (str_eq client c && str_eq g.path f)

module _ (M : DashMap) where
  -- The state after one filter that the rules allow.
  abbrev after : Bytes → SubscribeFilter → BrokerState M → BrokerState M
  after client f s =
      send_retained M client (Topic.new f.path) (M.iter s.retained)
        (add_subscription M client f.path f.qos s)

  same_but_sends :
      (client : Bytes) (f : SubscribeFilter) (s : BrokerState M)
      → quiet M (after client f s) ≡ quiet M (add_subscription M client f.path f.qos s)
  same_but_sends client f s =
      quiet-send_retained M client (Topic.new f.path) (M.iter s.retained)
        (add_subscription M client f.path f.qos s)

  after_acl :
      (client : Bytes) (f : SubscribeFilter) (s : BrokerState M) → (after client f s).acl ≡ s.acl
  unfolding add_subscription send_event
  after_acl client f s = ap (λ (u : BrokerState M). u.acl) (same_but_sends client f s)

  after_subscriptions :
      (client : Bytes) (f : SubscribeFilter) (s : BrokerState M)
      → (after client f s).subscriptions
        ≡ Subscription.subscribe s.subscriptions client f.path f.qos
  unfolding add_subscription send_event
  after_subscriptions client f s =
      ap (λ (u : BrokerState M). u.subscriptions) (same_but_sends client f s)

  codes-subscribe_loop :
      (filters : List SubscribeFilter) (client username : Bytes) (codes : List ℕ)
      (s : BrokerState M)
      → (subscribe_loop M filters client username codes s).0
        ≡ codes ++ map (answer_byte s.acl username) filters
  unfolding subscribe_loop
  codes-subscribe_loop [] client username codes s = sym (append-nil codes)
  codes-subscribe_loop (f ∷ filters) client username codes s =
      elim (Bool-cases (authorize_subscribe s.acl username f.path)) [
        | inl e ↦ rw e (
            codes-subscribe_loop filters client username (codes ++ qos_to_u8 f.qos ∷ [])
              (after client f s)
            ∙ rw (after_acl client f s) (append_assoc codes (qos_to_u8 f.qos ∷ []) _))
        | inr e ↦ rw e (
            codes-subscribe_loop filters client username (codes ++ denied_code ∷ []) s
            ∙ append_assoc codes (denied_code ∷ []) _)
      ]

  subscribed-subscribe_loop :
      (filters : List SubscribeFilter) (client username : Bytes) (codes : List ℕ)
      (s : BrokerState M) (c f : Bytes)
      → subscribed c f (subscribe_loop M filters client username codes s).1.subscriptions
        ≡ (any (asked s.acl username client c f) filters || subscribed c f s.subscriptions)
  unfolding subscribe_loop
  subscribed-subscribe_loop [] client username codes s c f = refl
  subscribed-subscribe_loop (g ∷ filters) client username codes s c f =
      elim (Bool-cases (authorize_subscribe s.acl username g.path)) [
        | inl e ↦ rw e (
            subscribed-subscribe_loop filters client username _ (after client g s) c f
            ∙ rw (after_acl client g s) (
                rw (after_subscriptions client g s) (
                  rw (subscribed-subscribe s.subscriptions client g.path c f g.qos)
                    (ground arith))))
        | inr e ↦ rw e (subscribed-subscribe_loop filters client username _ s c f)
      ]

  -- A SUBSCRIBE is answered by a SUBACK with its identifier and one code for each filter, in order:
  -- the QoS asked for where the rules allow it, else a failure.
  pub process_subscribe-answer :
      (p : SubscribePacket) (now : ℕ) (client username : Bytes) (s : BrokerState M)
      → (process_v3_packet M now (subscribe p) client username s).0
        ≡ some (
            suback (record {
              packet_id = p.packet_id;
              return_codes = map (answer_code s.acl username) p.filters;
            }))
  unfolding process_v3_packet process_subscribe
  process_subscribe-answer p now client username s =
      rw (codes-subscribe_loop p.filters client username [] s)
        (rw (known_codes-answer s.acl username p.filters))

  -- After a SUBSCRIBE the subscriptions are those of before, and the client's to each of its filters
  -- that the rules allow.
  pub process_subscribe-subscribed :
      (p : SubscribePacket) (now : ℕ) (client username : Bytes) (s : BrokerState M) (c f : Bytes)
      → subscribed c f (process_v3_packet M now (subscribe p) client username s).1.subscriptions
        ≡ (any (asked s.acl username client c f) p.filters || subscribed c f s.subscriptions)
  unfolding process_v3_packet process_subscribe count_subscriptions count
  process_subscribe-subscribed p now client username s c f =
      subscribed-subscribe_loop p.filters client username [] s c f

  subscribed-unsubscribe_loop :
      (filters : List Bytes) (client : Bytes) (s : BrokerState M) (c f : Bytes)
      → subscribed c f (unsubscribe_loop M filters client s).subscriptions
        ≡ (not (str_eq c client && any (λ g. str_eq g f) filters) && subscribed c f s.subscriptions)
  unfolding unsubscribe_loop send_event
  subscribed-unsubscribe_loop [] client s c f = ground arith
  subscribed-unsubscribe_loop (g ∷ filters) client s c f =
      subscribed-unsubscribe_loop filters client _ c f
      ∙ rw (subscribed-unsubscribe s.subscriptions client g c f) (ground arith)

  -- An UNSUBSCRIBE is answered by an UNSUBACK with its identifier, and takes away the client's
  -- subscriptions to its filters and no other.
  pub process_unsubscribe_lem :
      (p : UnsubscribePacket) (now : ℕ) (client username : Bytes) (s : BrokerState M) (c f : Bytes)
      → let after_it = process_v3_packet M now (unsubscribe p) client username s in
        (after_it.0 ≡ some (unsuback (record { packet_id = p.packet_id })))
        × (subscribed c f after_it.1.subscriptions ≡ (
            not (str_eq c client && any (λ g. str_eq g f) p.filters)
            && subscribed c f s.subscriptions))
  unfolding process_v3_packet count_subscriptions count
  process_unsubscribe_lem p now client username s c f =
      (refl, subscribed-unsubscribe_loop p.filters client s c f)
