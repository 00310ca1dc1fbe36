-- ===== src/Examples/Access.antt =====
-- Credentials and access rules for mqtt-broker/src/auth.rs.
use atom_mqtt.Prelude.{
  ℕ, ◌≡◌, ◌↔◌, inl, refl, true, some, List, ◌∷◌, ◌++◌, Any, Bytes, codes, ap, arith, [],
}
use mathlib.Core.List.{Perm, perm_append_comm}
use atom_mqtt.Common.Levels.{hash, plus, Matches}
use atom_mqtt.Common.Split.{levels, trim, split, lines}
use atom_mqtt.Common.Topic
use atom_mqtt.Broker.Acl.{
  AclEntry, AclChecker, publish, read_write, may_subscribe, topic_matches_filter, authorize_publish,
  authorize_subscribe,
}
use atom_mqtt.Broker.Acl.Matching.{topic_matches_filter-eq-matches}
use atom_mqtt.Broker.Acl.Access.{authorize-perm}
use atom_mqtt.Broker.Acl.Escalation.{OneLevelRule, NoHash, authorize_subscribe-hash}
use atom_mqtt.Broker.Auth.{file, authenticate}
use atom_mqtt.Broker.Auth.Access.{Admitted}
use atom_mqtt.Broker.Auth.Users.{Names, authenticate-new_iff}
use atom_mqtt.Broker.Auth

abbrev ann : Bytes
ann = codes "ann"

abbrev rooms : Bytes
rooms = codes "room/+"

abbrev all_rooms : Bytes
all_rooms = codes "room/#"

abbrev rule : AclEntry
rule = record { username = ann; filter = rooms; access = read_write }

abbrev other_rule : AclEntry
other_rule = record { username = codes "bob"; filter = hash; access = publish }

abbrev rules : AclChecker
rules = record { entries = rule ∷ other_rule ∷ []; enabled = true }

topic_matches_filter-eq-matches_example :
    topic_matches_filter (codes "room/k") rooms ≡ Topic.matches (Topic.new rooms) (codes "room/k")
unfolding trim
topic_matches_filter-eq-matches_example =
    topic_matches_filter-eq-matches (codes "room/k") rooms refl

-- A file with two lines, whatever the path.
abbrev users_file : Bytes
users_file = codes "ann: pw\nbob:x:y\n"

authenticate-new_iff_example :
    Admitted (
      authenticate
        (Auth.new (λ path. some users_file) (file (codes "users")))
        true
        (some ann)
        (some (codes "pw")))
    ↔ Any (Names ann (codes "pw")) (lines users_file)
authenticate-new_iff_example =
    authenticate-new_iff (λ path. some users_file) (codes "users") users_file true ann
      (some (codes "pw")) refl

rules_swapped : Perm (rule ∷ other_rule ∷ []) (other_rule ∷ rule ∷ [])
rules_swapped = perm_append_comm (rule ∷ []) (other_rule ∷ [])

authorize-perm_example :
    (authorize_publish (record { entries = rule ∷ other_rule ∷ []; enabled = true }) ann rooms
      ≡ authorize_publish (record { entries = other_rule ∷ rule ∷ []; enabled = true }) ann rooms)
    × (authorize_subscribe (record { entries = rule ∷ other_rule ∷ []; enabled = true }) ann rooms
        ≡ authorize_subscribe
            (record { entries = other_rule ∷ rule ∷ []; enabled = true })
            ann
            rooms)
authorize-perm_example =
    authorize-perm (rule ∷ other_rule ∷ []) (other_rule ∷ rule ∷ []) true ann rooms rules_swapped

abbrev room : List Bytes
room = codes "room" ∷ []

first_byte : Bytes → ℕ
first_byte [] = 0
first_byte (b ∷ s) = b

room-NoHash : NoHash room
unfolding first_byte
room-NoHash = (λ e. absurd (omega (arith, ap first_byte e)), tt)

rule-OneLevelRule : Any (OneLevelRule ann room) (rule ∷ other_rule ∷ [])
unfolding may_subscribe split
rule-OneLevelRule = inl (record { user = refl; access = refl; filter = refl })

levels-all_rooms : levels all_rooms ≡ room ++ hash ∷ []
unfolding split
levels-all_rooms = refl

authorize_subscribe-hash_example :
    (authorize_subscribe rules ann all_rooms ≡ true)
    × Matches (levels all_rooms) (room ++ codes "k" ∷ codes "safe" ∷ [])
    × ¬ Matches (room ++ plus ∷ []) (room ++ codes "k" ∷ codes "safe" ∷ [])
authorize_subscribe-hash_example =
    authorize_subscribe-hash rules ann all_rooms room (codes "k") (codes "safe") refl room-NoHash
      rule-OneLevelRule levels-all_rooms
