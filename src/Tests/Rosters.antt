-- ===== src/Tests/Rosters.antt =====
-- Examples for the participants of a room in src/room.cpp.
use client_sdk_cpp.Prelude.{false, List, [], ◌∷◌, none, some, if◌then◌else◌, ◌≡◌, refl}
use client_sdk_cpp.Prelude.Assoc.{lookup, string_eq}
use client_sdk_cpp.Dispatcher.{Key, kind_audio}
use client_sdk_cpp.Dispatcher.DataTracks.{subscribes, unsubscribes}
use client_sdk_cpp.Room.Roster.{Track, Publication, Participant, Roster, ParticipantInfo}
use client_sdk_cpp.Room.Roster.Events.{
  RoomEvent, participant_connected, track_subscribed, track_unsubscribed, track_muted,
  participant_disconnected, remote_publication, on_room_event, on_room_events,
}
use client_sdk_cpp.Room.Roster.Keyed.{IsKeyed, events-IsKeyed}
use client_sdk_cpp.Room.Roster.Subscriptions.{calls_of, subscription_ends}
use mathlib.Core.Option.{map}

abbrev info : ParticipantInfo
info = record {
  handle = 3;
  sid = "PA_1";
  name = "Alice";
  identity = "alice";
  metadata = "";
  attributes = [];
  kind = 0;
  reason = 0;
}

abbrev microphone : Publication
microphone = record {
  sid = "TR_1";
  name = "mic";
  kind = kind_audio;
  has_source = false;
  muted = false;
  track = none;
  subscribed = false;
}

abbrev alice : Participant
alice = record {
  handle = 3;
  sid = "PA_0";
  name = "Alice";
  identity = "alice";
  metadata = "";
  attributes = [];
  kind = 0;
  reason = 0;
  publications = ("TR_1", microphone) ∷ [];
}

abbrev audio : Track
audio = record { sid = "TR_1"; handle = 11; kind = kind_audio; muted = false }

abbrev roster : Roster
roster = record {
  local_participant = none;
  remote_participants = ("alice", alice) ∷ [];
  room_metadata = "";
  room_sid = none;
}

abbrev events : List RoomEvent
events =
    track_subscribed "alice" audio
    ∷ participant_connected info
    ∷ track_muted "alice" "TR_1"
    ∷ participant_disconnected "alice" 1
    ∷ []

events-IsKeyed_example : IsKeyed (on_room_events events roster)
unfolding lookup
events-IsKeyed_example =
    events-IsKeyed events roster (((refl, ((refl, refl, tt), tt)), tt), (refl, tt))

abbrev key : Key
key = record { participant_identity = "alice"; track_name = "mic" }

subscription_ends_example :
    let (actions, r) = on_room_event (track_subscribed "alice" audio) roster in
    let (actions', r') = on_room_event (track_unsubscribed "alice" "TR_1") r in
    (calls_of actions ≡ subscribes key (some (kind_audio, some 11)) ∷ [])
    × (calls_of actions' ≡ (if false then unsubscribes key ∷ [] else []))
    × (map (λ f. f.1.track) (remote_publication "alice" "TR_1" r) ≡ some (some audio))
    × (map (λ f. f.1.track) (remote_publication "alice" "TR_1" r') ≡ some none)
unfolding lookup
subscription_ends_example = subscription_ends "alice" audio alice microphone roster refl refl
