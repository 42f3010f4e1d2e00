-- ===== src/Room/Roster/Strangers.antt =====
-- Events about participants that a `Room` does not know, or knows already.
use client_sdk_cpp.Prelude.{
  List, [], ◌∷◌, Option, none, some, String, ◌≡◌, ◌≢◌, refl, sym, ap, ◌∙◌, arith,
}
use client_sdk_cpp.Prelude.Assoc.{string_eq, lookup, emplace}
use client_sdk_cpp.Room.Roster.{
  Participant, Roster, ParticipantInfo, create_remote_participant, find_participant,
}
use client_sdk_cpp.Room.Roster.Events.{
  RoomEvent, participant_connected, participant_disconnected, local_track_published,
  local_track_unpublished, local_track_subscribed, track_published, track_unpublished,
  track_subscribed, track_unsubscribed, track_subscription_failed, data_track_published,
  data_track_unpublished, track_muted, track_unmuted, active_speakers_changed,
  room_metadata_changed, room_sid_changed, participant_metadata_changed, participant_name_changed,
  participant_attributes_changed, participant_encryption_status_changed, connection_quality_changed,
  e2ee_state_changed, participants_updated, on_room_event, tells, on_participant_connected,
}

-- Whom an event is about, if it names one participant and needs it to be known.
abbrev pub subject : RoomEvent → Option String
subject (participant_disconnected identity reason) = some identity
subject (track_published identity info) = some identity
subject (track_unpublished identity sid) = some identity
subject (track_subscribed identity track) = some identity
subject (track_unsubscribed identity sid) = some identity
subject (track_subscription_failed identity sid error) = some identity
subject (track_muted identity sid) = some identity
subject (track_unmuted identity sid) = some identity
subject (participant_metadata_changed identity metadata) = some identity
subject (participant_name_changed identity name) = some identity
subject (participant_attributes_changed identity attributes changed) = some identity
subject (participant_encryption_status_changed identity encrypted) = some identity
subject (connection_quality_changed identity quality) = some identity
subject (e2ee_state_changed identity state) = some identity
subject _ = none

not_remote :
    (identity : String) (r : Roster)
    → find_participant identity r ≡ none
    → lookup identity r.remote_participants ≡ none
unfolding find_participant
not_remote identity r h = ground arith

-- An event about a participant whom the room does not know, neither as the local nor as a remote one,
-- changes nothing, tells the delegate nothing and asks nothing of the subscriptions.
strangers_ignored :
    (event : RoomEvent) (identity : String) (r : Roster)
    → subject event ≡ some identity
    → find_participant identity r ≡ none
    → on_room_event event r ≡ ([], r)
unfolding on_room_event
strangers_ignored (participant_connected info) identity r s h = absurd cc
strangers_ignored (local_track_published sid) identity r s h = absurd cc
strangers_ignored (local_track_unpublished sid) identity r s h = absurd cc
strangers_ignored (local_track_subscribed sid) identity r s h = absurd cc
strangers_ignored (data_track_published track) identity r s h = absurd cc
strangers_ignored (data_track_unpublished sid) identity r s h = absurd cc
strangers_ignored (active_speakers_changed identities) identity r s h = absurd cc
strangers_ignored (room_metadata_changed metadata) identity r s h = absurd cc
strangers_ignored (room_sid_changed sid) identity r s h = absurd cc
strangers_ignored (participants_updated infos) identity r s h = absurd cc
strangers_ignored (participant_disconnected i reason) identity r s h =
    ground (arith, not_remote identity r h)
strangers_ignored (track_published i info) identity r s h = ground (arith, not_remote identity r h)
strangers_ignored (track_unpublished i sid) identity r s h = ground (arith, not_remote identity r h)
strangers_ignored (track_subscribed i track) identity r s h =
    ground (arith, not_remote identity r h)
strangers_ignored (track_unsubscribed i sid) identity r s h =
    ground (arith, not_remote identity r h)
strangers_ignored (track_subscription_failed i sid error) identity r s h =
    ground (arith, not_remote identity r h)
strangers_ignored (track_muted i sid) identity r s h = ground arith
strangers_ignored (track_unmuted i sid) identity r s h = ground arith
strangers_ignored (participant_metadata_changed i metadata) identity r s h = ground arith
strangers_ignored (participant_name_changed i name) identity r s h = ground arith
strangers_ignored (participant_attributes_changed i attributes changed) identity r s h =
    ground arith
strangers_ignored (participant_encryption_status_changed i encrypted) identity r s h = ground arith
strangers_ignored (connection_quality_changed i quality) identity r s h = ground arith
strangers_ignored (e2ee_state_changed i state) identity r s h = ground arith

emplace_present :
    (k : String) (new old : Participant) (m : List (String × Participant))
    → lookup k m ≡ some old
    → emplace k new m ≡ m
unfolding emplace
emplace_present k new old m h = ground arith

sids_equal : {p q : Participant} → some p ≡ some q → p.sid ≡ q.sid
sids_equal {p} {q} e = let same : p ≡ q = cc in ap (λ x. x.sid) same

-- When a participant connects whose identity a remote participant of the room has already, with
-- another id, the delegate is told of a participant that the room does not keep: the old one stays.
connected_again :
    (info : ParticipantInfo) (old : Participant) (r : Roster)
    → lookup info.identity r.remote_participants ≡ some old
    → old.sid ≢ info.sid
    → let (actions, r') = on_room_event (participant_connected info) r in
      (actions ≡ tells (on_participant_connected (create_remote_participant info)) ∷ [])
      × (r' ≡ r)
      × (lookup info.identity r'.remote_participants ≢ some (create_remote_participant info))
unfolding on_room_event create_remote_participant
connected_again info old r h ne =
    let kept =
      emplace_present info.identity (create_remote_participant info) old r.remote_participants h in
    (
      refl,
      ap (λ m. record r { remote_participants = m }) kept,
      λ e. ne (sids_equal (sym h ∙ ap (lookup info.identity) (sym kept) ∙ e)),
    )
