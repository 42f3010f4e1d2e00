-- ===== src/Room/Roster.antt =====
-- Whom a `Room` knows (src/room.cpp): the participants with their publications and tracks. A
-- participant's objects are values here: the room reaches each through one entry of its maps.
pub mod Events
pub mod Keyed
pub mod Strangers
pub mod Subscriptions
use client_sdk_cpp.Prelude.{
  ℕ, Bool, true, false, List, [], ◌∷◌, Option, none, some, String, if◌then◌else◌,
}
use client_sdk_cpp.Prelude.Assoc.{◌==◌, string_eq, lookup, insert, emplace}
use client_sdk_cpp.Dispatcher.{TrackKind}

pub record Track : Type 0 where
  pub sid : String
  pub handle : ℕ
  pub kind : TrackKind
  pub muted : Bool

-- `has_source` is false for `SOURCE_UNKNOWN`.
pub record Publication : Type 0 where
  pub sid : String
  pub name : String
  pub kind : TrackKind
  pub has_source : Bool
  pub muted : Bool
  pub track : Option Track
  pub subscribed : Bool

-- `kind` and `reason` are the numbers of the enumerators.
pub record Participant : Type 0 where
  pub handle : ℕ
  pub sid : String
  pub name : String
  pub identity : String
  pub metadata : String
  pub attributes : List (String × String)
  pub kind : ℕ
  pub reason : ℕ
  pub publications : List (String × Publication)

pub record Roster : Type 0 where
  pub local_participant : Option Participant
  pub remote_participants : List (String × Participant)
  pub room_metadata : String
  pub room_sid : Option String

-- What a message tells of a participant.
pub record ParticipantInfo : Type 0 where
  pub handle : ℕ
  pub sid : String
  pub name : String
  pub identity : String
  pub metadata : String
  pub attributes : List (String × String)
  pub kind : ℕ
  pub reason : ℕ

-- What a message tells of a publication.
pub record PublicationInfo : Type 0 where
  pub sid : String
  pub name : String
  pub kind : TrackKind
  pub has_source : Bool
  pub muted : Bool

-- The loop that fills the map of attributes.
unfoldable pub fill_attributes :
    List (String × String) → List (String × String) → List (String × String)
fill_attributes [] attrs = attrs
fill_attributes ((k, v) ∷ rest) attrs = fill_attributes rest (emplace k v attrs)

unfoldable pub create_remote_participant : ParticipantInfo → Participant
create_remote_participant info = record {
  handle = info.handle;
  sid = info.sid;
  name = info.name;
  identity = info.identity;
  metadata = info.metadata;
  attributes = fill_attributes info.attributes [];
  kind = info.kind;
  reason = info.reason;
  publications = [];
}

-- `RemoteTrackPublication` of a message
unfoldable pub new_publication : PublicationInfo → Publication
new_publication info = record {
  sid = info.sid;
  name = info.name;
  kind = info.kind;
  has_source = info.has_source;
  muted = info.muted;
  track = none;
  subscribed = false;
}

-- `Track::setMuted` of the publication's track, if it has one.
abbrev pub mute_track : Bool → Option Track → Option Track
mute_track muted none = none
mute_track muted (some t) = some (record t { muted = muted })

-- The participant that an event names: the local one first.
pub data Who : Type 0 where
  local : Who
  remote : String → Who

unfoldable pub find_participant : String → Roster → Option (Who × Participant)
find_participant identity r = elim r.local_participant [
  | some p ↦
      (if p.identity == identity
        then some (local, p)
        else (elim (lookup identity r.remote_participants) [
          | some q ↦ some (remote identity, q)
          | none ↦ none
        ]))
  | none ↦ (elim (lookup identity r.remote_participants) [
    | some q ↦ some (remote identity, q)
    | none ↦ none
  ])
]

-- The room after a change of the participant that was found.
unfoldable pub put : Who → Participant → Roster → Roster
put local p r = record r { local_participant = some p }
put (remote identity) p r = record r {
  remote_participants = insert identity p r.remote_participants;
}
