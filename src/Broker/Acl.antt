-- ===== src/Broker/Acl.antt =====
-- Topic-level access control in mqtt-broker/src/auth.rs.
pub mod Matching
pub mod Access
pub mod Escalation
use atom_mqtt.Prelude.{
  ℕ, zero, suc, ◌+◌, ◌-◌, ◌≡◌, refl, Bool, true, false, not, ◌&&◌, ◌||◌, Option, none, some, List,
  [], ◌∷◌, leb, ltb, ◌==◌, if◌then◌else◌, length, Bytes, codes, str_eq, arith,
}
use atom_mqtt.Common.Levels.{hash, plus, segment_at}
use atom_mqtt.Common.Split.{levels, splitn, lines, trim}

pub data AclAccess : Type 0 where
  publish subscribe read_write : AclAccess

pub record AclEntry : Type 0 where
  pub username : Bytes
  pub filter : Bytes
  pub access : AclAccess

pub record AclChecker : Type 0 where
  pub entries : List AclEntry
  pub enabled : Bool

-- The `while` loop over `ti` and `fi`, on fuel; without fuel it answers as at its end.
unfoldable pub filter_loop : ℕ → List Bytes → List Bytes → ℕ → ℕ → Bool
filter_loop zero topic_segments filter_segments ti fi = ti == length topic_segments
filter_loop (suc fuel) topic_segments filter_segments ti fi =
    let next = filter_loop fuel topic_segments filter_segments (ti + 1) (fi + 1) in
    if not (ltb fi (length filter_segments))
    then ti == length topic_segments
    else if str_eq (segment_at filter_segments fi) hash
    then true
    else if leb (length topic_segments) ti
    then false
    else if not (str_eq (segment_at filter_segments fi) plus)
        && not (str_eq (segment_at filter_segments fi) (segment_at topic_segments ti))
    then false
    else next

-- Each round takes a segment of the filter, so their number is fuel enough.
unfoldable pub topic_matches_filter : Bytes → Bytes → Bool
topic_matches_filter topic filter =
    if str_eq filter hash
    then true
    else filter_loop (length (levels filter)) (levels topic) (levels filter) 0 0

access_of : Bytes → Option AclAccess
access_of word =
    if str_eq word (codes "publish")
    then some publish
    else if str_eq word (codes "subscribe")
    then some subscribe
    else if str_eq word (codes "readwrite")
    then some read_write
    else none

entry_of : List Bytes → Option AclEntry
entry_of (user ∷ name ∷ topic ∷ word ∷ filter ∷ []) =
    if not (str_eq user (codes "user")) || not (str_eq topic (codes "topic"))
    then none
    else elim (access_of word) [
      | none ↦ none
      | some access ↦ some (record { username = name; filter = filter; access = access })
    ]
entry_of _ = none

-- A comment starts with `#`.
is_comment : Bytes → Bool
is_comment [] = true
is_comment (c ∷ s) = c == b'#'

pub parse_acl_line : Bytes → Option AclEntry
parse_acl_line line = if is_comment (trim line) then none else entry_of (splitn 5 b' ' (trim line))

parse_lines : List Bytes → List AclEntry
parse_lines [] = []
parse_lines (line ∷ rest) = elim (parse_acl_line line) [
  | none ↦ parse_lines rest
  | some e ↦ e ∷ parse_lines rest
]

enabled_if_any : List AclEntry → AclChecker
enabled_if_any [] = record { entries = []; enabled = false }
enabled_if_any (e ∷ es) = record { entries = e ∷ es; enabled = true }

-- `AclChecker::new`; `read_to_string` is the file system.
pub new : (Bytes → Option Bytes) → Bytes → AclChecker
new read_to_string [] = record { entries = []; enabled = false }
new read_to_string (c ∷ path) = elim (read_to_string (c ∷ path)) [
  | none ↦ record { entries = []; enabled = false }
  | some content ↦ enabled_if_any (parse_lines (lines content))
]

-- The two `match entry.access` tables.
unfoldable pub may_publish : AclAccess → Bool
may_publish publish = true
may_publish read_write = true
may_publish subscribe = false

unfoldable pub may_subscribe : AclAccess → Bool
may_subscribe subscribe = true
may_subscribe read_write = true
may_subscribe publish = false

unfoldable pub publish_loop : List AclEntry → Bytes → Bytes → Bool
publish_loop [] username topic = false
publish_loop (entry ∷ entries) username topic =
    let next = publish_loop entries username topic in
    if str_eq entry.username username
    then (if may_publish entry.access && topic_matches_filter topic entry.filter
        then true
        else next)
    else next

subscribe_loop : List AclEntry → Bytes → Bytes → Bool
subscribe_loop [] username topic_filter = false
subscribe_loop (entry ∷ entries) username topic_filter =
    let next = subscribe_loop entries username topic_filter in
    if str_eq entry.username username
    then (if may_subscribe entry.access && topic_matches_filter topic_filter entry.filter
        then true
        else next)
    else next

unfoldable pub authorize_publish : AclChecker → Bytes → Bytes → Bool
authorize_publish self username topic =
    if not self.enabled then true else publish_loop self.entries username topic

pub authorize_subscribe : AclChecker → Bytes → Bytes → Bool
authorize_subscribe self username topic_filter =
    if not self.enabled then true else subscribe_loop self.entries username topic_filter
