-- ===== src/Room/Roster/Events.antt =====
-- The events of `Room::onEvent` in src/room.cpp that tell of participants and tracks. An event's result
-- is the room, and what it tells the delegate and asks of the subscriptions, in order.
use client_sdk_cpp.Prelude.{
  ℕ, Bool, true, false, List, [], ◌∷◌, Option, none, some, String, if◌then◌else◌,
}
use client_sdk_cpp.Prelude.Assoc.{string_eq, lookup, insert, emplace, erase}
use client_sdk_cpp.Dispatcher.{Key, DataTrack, TrackKind, kind_audio, kind_video}
use client_sdk_cpp.Dispatcher.DataTracks.{Call, subscribes, unsubscribes, publishes, unpublishes}
use client_sdk_cpp.Room.Roster.{
  Track, Publication, Participant, Roster, ParticipantInfo, PublicationInfo, fill_attributes,
  create_remote_participant, new_publication, mute_track, Who, find_participant, put,
}

pub data RoomEvent : Type 0 where
  participant_connected : ParticipantInfo → RoomEvent
  participant_disconnected : String → ℕ → RoomEvent
  local_track_published local_track_unpublished local_track_subscribed : String → RoomEvent
  track_published : String → PublicationInfo → RoomEvent
  track_unpublished : String → String → RoomEvent
  track_subscribed : String → Track → RoomEvent
  track_unsubscribed : String → String → RoomEvent
  track_subscription_failed : String → String → String → RoomEvent
  data_track_published : DataTrack → RoomEvent
  data_track_unpublished : String → RoomEvent
  track_muted track_unmuted : String → String → RoomEvent
  active_speakers_changed : List String → RoomEvent
  room_metadata_changed room_sid_changed : String → RoomEvent
  participant_metadata_changed participant_name_changed : String → String → RoomEvent
  participant_attributes_changed :
      String → List (String × String) → List (String × String) → RoomEvent
  participant_encryption_status_changed : String → Bool → RoomEvent
  connection_quality_changed e2ee_state_changed : String → ℕ → RoomEvent
  participants_updated : List ParticipantInfo → RoomEvent

-- The calls of the delegate.
pub data Notice : Type 0 where
  on_participant_connected : Participant → Notice
  on_participant_disconnected : Participant → ℕ → Notice
  on_local_track_published on_local_track_unpublished : Publication → Notice
  on_local_track_subscribed : Option Track → Notice
  on_track_published on_track_unpublished : String → Publication → Notice
  on_track_subscribed : String → Publication → Track → Notice
  on_track_unsubscribed : String → Publication → Option Track → Notice
  on_track_subscription_failed : String → String → String → Notice
  on_data_track_published : DataTrack → Notice
  on_data_track_unpublished : String → Notice
  on_track_muted on_track_unmuted : Who → Publication → Notice
  on_active_speakers_changed : List Who → Notice
  on_room_metadata_changed : String → String → Notice
  on_room_sid_changed : String → Notice
  on_participant_metadata_changed on_participant_name_changed : Who → String → String → Notice
  on_participant_attributes_changed : Who → List (String × String) → Notice
  on_participant_encryption_status_changed : Who → Bool → Notice
  on_connection_quality_changed on_e2ee_state_changed : Who → ℕ → Notice
  on_participants_updated : List Who → Notice

-- What an event does outside the room.
pub data Action : Type 0 where
  tells : Notice → Action
  dispatches : Call → Action

abbrev pub Result : Type 0
Result = List Action × Roster

-- `break` before the delegate is told
abbrev pub ignored : Roster → Result
ignored r = ([], r)

abbrev pub on_participant_connected_event : ParticipantInfo → Roster → Result
on_participant_connected_event info r =
    let new_participant = create_remote_participant info in
    (
      tells (on_participant_connected new_participant) ∷ [],
      record r {
        remote_participants =
            emplace new_participant.identity new_participant r.remote_participants;
      },
    )

abbrev pub on_participant_disconnected_event : String → ℕ → Roster → Result
on_participant_disconnected_event identity reason r = elim (lookup identity r.remote_participants) [
  | none ↦ ignored r
  | some removed ↦ (
    tells (on_participant_disconnected removed reason) ∷ [],
    record r { remote_participants = erase identity r.remote_participants },
  )
]

-- The publication of the local participant under an id.
abbrev pub local_publication : String → Roster → Option Publication
local_publication sid r = elim r.local_participant [
  | none ↦ none
  | some p ↦ lookup sid p.publications
]

abbrev pub on_local_event : (Publication → Notice) → String → Roster → Result
on_local_event notice sid r = elim (local_publication sid r) [
  | none ↦ ignored r
  | some pub' ↦ (tells (notice pub') ∷ [], r)
]

-- An event on a publication of a remote participant; `none` if it knows no such one.
abbrev pub remote_publication : String → String → Roster → Option (Participant × Publication)
remote_publication identity sid r = elim (lookup identity r.remote_participants) [
  | none ↦ none
  | some p ↦ (elim (lookup sid p.publications) [ none ↦ none | some q ↦ some (p, q) ])
]

-- The room after a change of a remote participant's publications.
abbrev pub put_publications : String → Participant → List (String × Publication) → Roster → Roster
put_publications identity p publications r = record r {
  remote_participants =
      insert identity (record p { publications = publications }) r.remote_participants;
}

abbrev pub on_track_published_event : String → PublicationInfo → Roster → Result
on_track_published_event identity info r = elim (lookup identity r.remote_participants) [
  | none ↦ ignored r
  | some p ↦
      let rpublication = new_publication info in
      (
        tells (on_track_published identity rpublication) ∷ [],
        put_publications identity p (emplace rpublication.sid rpublication p.publications) r,
      )
]

abbrev pub on_track_unpublished_event : String → String → Roster → Result
on_track_unpublished_event identity sid r = elim (remote_publication identity sid r) [
  | none ↦ ignored r
  | some (p, q) ↦ (
    tells (on_track_unpublished identity q) ∷ [],
    put_publications identity p (erase sid p.publications) r,
  )
]

abbrev pub is_supported : TrackKind → Bool
is_supported kind_audio = true
is_supported kind_video = true
is_supported _ = false

-- The subscriptions get the track by its handle, from which they make their stream.
abbrev pub on_track_subscribed_event : String → Track → Roster → Result
on_track_subscribed_event identity owned_track r =
    elim (remote_publication identity owned_track.sid r) [
      | none ↦ ignored r
      | some (p, q) ↦
          let q' : Publication = record q { track = some owned_track; subscribed = true } in
          let key : Key = record { participant_identity = identity; track_name = q.name } in
          (if is_supported owned_track.kind
            then (
              tells (on_track_subscribed identity q' owned_track)
                  ∷ dispatches (subscribes key (some (owned_track.kind, some owned_track.handle)))
                  ∷ [],
              put_publications identity p (insert owned_track.sid q' p.publications) r,
            )
            else ignored r)
    ]

abbrev pub on_track_unsubscribed_event : String → String → Roster → Result
on_track_unsubscribed_event identity sid r = elim (remote_publication identity sid r) [
  | none ↦ ignored r
  | some (p, q) ↦
      let q' : Publication = record q { track = none; subscribed = false } in
      let key : Key = record { participant_identity = identity; track_name = q.name } in
      (
        tells (on_track_unsubscribed identity q' q.track)
            ∷ (if q.has_source then dispatches (unsubscribes key) ∷ [] else []),
        put_publications identity p (insert sid q' p.publications) r,
      )
]

abbrev pub on_subscription_failed_event : String → String → String → Roster → Result
on_subscription_failed_event identity sid error r = elim (lookup identity r.remote_participants) [
  | none ↦ ignored r
  | some p ↦ (tells (on_track_subscription_failed identity sid error) ∷ [], r)
]

abbrev pub on_mute_event : Bool → String → String → Roster → Result
on_mute_event muted identity sid r = elim (find_participant identity r) [
  | none ↦ ignored r
  | some (who, p) ↦ (elim (lookup sid p.publications) [
    | none ↦ ignored r
    | some q ↦
        let q' : Publication = record q { muted = muted; track = mute_track muted q.track } in
        (
          tells (if muted then on_track_muted who q' else on_track_unmuted who q') ∷ [],
          put who (record p { publications = insert sid q' p.publications }) r,
        )
  ])
]

-- The loop over the speakers.
unfoldable pub speakers : List String → Roster → List Who
speakers [] r = []
speakers (identity ∷ rest) r = elim (find_participant identity r) [
  | none ↦ speakers rest r
  | some (who, p) ↦ who ∷ speakers rest r
]

-- An event that changes one thing of a participant and tells of it.
abbrev pub on_change : String → (Who → Participant → Notice × Participant) → Roster → Result
on_change identity change r = elim (find_participant identity r) [
  | none ↦ ignored r
  | some (who, p) ↦ (tells (change who p).0 ∷ [], put who (change who p).1 r)
]

-- An event that tells of a participant and changes nothing.
abbrev pub on_about : String → (Who → Notice) → Roster → Result
on_about identity notice r = elim (find_participant identity r) [
  | none ↦ ignored r
  | some (who, p) ↦ (tells (notice who) ∷ [], r)
]

abbrev pub on_e2ee_state_changed_event : String → ℕ → Roster → Result
on_e2ee_state_changed_event identity state r =
    on_about identity (λ who. on_e2ee_state_changed who state) r

abbrev pub on_data_track_published_event : DataTrack → Roster → Result
on_data_track_published_event track r =
    (dispatches (publishes (some track)) ∷ tells (on_data_track_published track) ∷ [], r)

abbrev pub on_data_track_unpublished_event : String → Roster → Result
on_data_track_unpublished_event sid r =
    (dispatches (unpublishes sid) ∷ tells (on_data_track_unpublished sid) ∷ [], r)

abbrev pub updated : ParticipantInfo → Participant → Participant
updated info p = record p {
  name = info.name;
  metadata = info.metadata;
  attributes = fill_attributes info.attributes [];
  kind = info.kind;
  reason = info.reason;
}

-- The loop over the participants that are updated, with those found so far.
unfoldable pub update_all : List ParticipantInfo → Roster → List Who × Roster
update_all [] r = ([], r)
update_all (info ∷ rest) r = elim (find_participant info.identity r) [
  | none ↦ update_all rest r
  | some (who, p) ↦
      let (found, r') = update_all rest (put who (updated info p) r) in (who ∷ found, r')
]

unfoldable pub on_room_event : RoomEvent → Roster → Result
on_room_event (participant_connected info) r = on_participant_connected_event info r
on_room_event (participant_disconnected identity reason) r =
    on_participant_disconnected_event identity reason r
on_room_event (local_track_published sid) r = on_local_event on_local_track_published sid r
on_room_event (local_track_unpublished sid) r = on_local_event on_local_track_unpublished sid r
on_room_event (local_track_subscribed sid) r =
    on_local_event (λ q. on_local_track_subscribed q.track) sid r
on_room_event (track_published identity info) r = on_track_published_event identity info r
on_room_event (track_unpublished identity sid) r = on_track_unpublished_event identity sid r
on_room_event (track_subscribed identity track) r = on_track_subscribed_event identity track r
on_room_event (track_unsubscribed identity sid) r = on_track_unsubscribed_event identity sid r
on_room_event (track_subscription_failed identity sid error) r =
    on_subscription_failed_event identity sid error r
on_room_event (data_track_published track) r = on_data_track_published_event track r
on_room_event (data_track_unpublished sid) r = on_data_track_unpublished_event sid r
on_room_event (track_muted identity sid) r = on_mute_event true identity sid r
on_room_event (track_unmuted identity sid) r = on_mute_event false identity sid r
on_room_event (active_speakers_changed identities) r =
    (tells (on_active_speakers_changed (speakers identities r)) ∷ [], r)
on_room_event (room_metadata_changed metadata) r = (
  tells (on_room_metadata_changed r.room_metadata metadata) ∷ [],
  record r { room_metadata = metadata },
)
on_room_event (room_sid_changed sid) r =
    (tells (on_room_sid_changed sid) ∷ [], record r { room_sid = some sid })
on_room_event (participant_metadata_changed identity metadata) r =
    on_change identity
      (λ who p.
        (on_participant_metadata_changed who p.metadata metadata, record p { metadata = metadata }))
      r
on_room_event (participant_name_changed identity name) r =
    on_change identity
      (λ who p. (on_participant_name_changed who p.name name, record p { name = name })) r
on_room_event (participant_attributes_changed identity attributes changed) r =
    on_change identity
      (λ who p. (
        on_participant_attributes_changed who changed,
        record p { attributes = fill_attributes attributes [] },
      ))
      r
on_room_event (participant_encryption_status_changed identity encrypted) r =
    on_about identity (λ who. on_participant_encryption_status_changed who encrypted) r
on_room_event (connection_quality_changed identity quality) r =
    on_about identity (λ who. on_connection_quality_changed who quality) r
on_room_event (e2ee_state_changed identity state) r = on_e2ee_state_changed_event identity state r
on_room_event (participants_updated infos) r =
    let (found, r') = update_all infos r in (tells (on_participants_updated found) ∷ [], r')

-- The events, the earliest first.
unfoldable pub on_room_events : List RoomEvent → Roster → Roster
on_room_events [] r = r
on_room_events (e ∷ es) r = on_room_events es (on_room_event e r).1
