-- ===== src/Room/Roster/Keyed.antt =====
-- The maps of a `Room` stay in order, whatever events come.
use client_sdk_cpp.Prelude.{
  Bool, true, false, List, [], ◌∷◌, Option, none, some, String, is_some, ◌≡◌, refl, arith,
  option_rule, if_rule,
}
use client_sdk_cpp.Prelude.Assoc.{
  string_eq, lookup, Each, Each-lookup, Each-insert, Each-erase, Each-emplace, Distinct,
  insert-Distinct, erase-Distinct, emplace-Distinct,
}
use client_sdk_cpp.Room.Roster.{
  Track, Publication, Participant, Roster, ParticipantInfo, PublicationInfo,
  create_remote_participant, new_publication, mute_track, Who, local, remote, find_participant, put,
}
use client_sdk_cpp.Room.Roster.Events.{
  RoomEvent, participant_connected, participant_disconnected, local_track_published,
  local_track_unpublished, local_track_subscribed, track_published, track_unpublished,
  track_subscribed, track_unsubscribed, track_subscription_failed, data_track_published,
  data_track_unpublished, track_muted, track_unmuted, active_speakers_changed,
  room_metadata_changed, room_sid_changed, participant_metadata_changed, participant_name_changed,
  participant_attributes_changed, participant_encryption_status_changed, connection_quality_changed,
  e2ee_state_changed, participants_updated, Result, Notice, remote_publication, local_publication,
  put_publications, is_supported, on_mute_event, on_change, updated, update_all, on_room_event,
  on_room_events,
}

-- A track stands in a publication of its own id.
abbrev pub IsTrackOf : String → Option Track → Type 0
IsTrackOf sid none = Unit
IsTrackOf sid (some t) = t.sid ≡ sid

-- A publication stands under its id, and is subscribed to exactly if it has a track.
abbrev pub IsPublication : String → Publication → Type 0
IsPublication sid q = (q.sid ≡ sid) × (q.subscribed ≡ is_some q.track) × IsTrackOf sid q.track

abbrev pub IsParticipant : String → Participant → Type 0
IsParticipant identity p = (p.identity ≡ identity) × Each IsPublication p.publications

-- Each remote participant stands under its identity, and no identity has two.
abbrev pub IsKeyed : Roster → Type 0
IsKeyed r = Each IsParticipant r.remote_participants × Distinct r.remote_participants

mute_track-IsPublication :
    (muted : Bool) (sid : String) (q : Publication)
    → IsPublication sid q
    → IsPublication sid (record q { muted = muted; track = mute_track muted q.track })
mute_track-IsPublication muted sid q h = ground arith

-- A change that leaves a remote participant in order leaves the room so.
put-IsKeyed :
    (identity : String) (who : Who) (p q : Participant) (r : Roster)
    → IsKeyed r
    → find_participant identity r ≡ some (who, p)
    → ((i : String) → IsParticipant i p → IsParticipant i q)
    → IsKeyed (put who q r)
unfolding put find_participant
put-IsKeyed identity local p q r k e f = k
put-IsKeyed identity (remote i) p q r k e f =
    let found : lookup i r.remote_participants ≡ some p = ground arith in
    (
      Each-insert IsParticipant i q r.remote_participants
          (f i (Each-lookup IsParticipant i p r.remote_participants k.0 found)) k.0,
      insert-Distinct i q r.remote_participants k.1,
    )

change-IsKeyed :
    (identity : String) (change : Who → Participant → Notice × Participant) (r : Roster)
    → IsKeyed r
    → ((who : Who) (i : String) (p : Participant)
        → IsParticipant i p
        → IsParticipant i (change who p).1)
    → IsKeyed (on_change identity change r).1
change-IsKeyed identity change r k f =
    option_rule {B = Result} (λ o. IsKeyed o.1) (find_participant identity r) (λ _. k)
      (λ (who, p) e. put-IsKeyed identity who p (change who p).1 r k e (λ i. f who i p))

mute-IsKeyed :
    (muted : Bool) (identity sid : String) (r : Roster)
    → IsKeyed r
    → IsKeyed (on_mute_event muted identity sid r).1
mute-IsKeyed muted identity sid r k =
    option_rule {B = Result} (λ o. IsKeyed o.1) (find_participant identity r) (λ _. k)
      (λ (who, p) e.
        option_rule {B = Result} (λ o. IsKeyed o.1) (lookup sid p.publications) (λ _. k)
          (λ q found. put-IsKeyed identity who p _ r k e (λ i (same, each). (
            same,
            Each-insert IsPublication sid _ p.publications
                (mute_track-IsPublication muted sid q
                  (Each-lookup IsPublication sid q p.publications each found))
                each,
          ))))

-- A change of a remote participant's publications.
publications-IsKeyed :
    (identity : String) (p : Participant) (publications : List (String × Publication)) (r : Roster)
    → IsKeyed r
    → lookup identity r.remote_participants ≡ some p
    → (Each IsPublication p.publications → Each IsPublication publications)
    → IsKeyed (put_publications identity p publications r)
publications-IsKeyed identity p publications r k e f =
    let (same, each) = Each-lookup IsParticipant identity p r.remote_participants k.0 e in
    (
      Each-insert IsParticipant identity (record p { publications = publications })
          r.remote_participants (same, f each) k.0,
      insert-Distinct identity _ r.remote_participants k.1,
    )

-- What `remote_publication` finds.
remote_publication_lem :
    (identity sid : String) (p : Participant) (q : Publication) (r : Roster)
    → remote_publication identity sid r ≡ some (p, q)
    → (lookup identity r.remote_participants ≡ some p) × (lookup sid p.publications ≡ some q)
remote_publication_lem identity sid p q r e = ground arith

updates-IsKeyed :
    (infos : List ParticipantInfo) (r : Roster) → IsKeyed r → IsKeyed (update_all infos r).1
unfolding update_all
updates-IsKeyed [] r k = k
updates-IsKeyed (info ∷ rest) r k =
    option_rule {B = List Who × Roster} (λ o. IsKeyed o.1) (find_participant info.identity r)
      (λ _. updates-IsKeyed rest r k)
      (λ (who, p) e.
        updates-IsKeyed rest (put who (updated info p) r)
          (put-IsKeyed info.identity who p (updated info p) r k e (λ i h. h)))

new_publication-IsPublication :
    (info : PublicationInfo) → IsPublication info.sid (new_publication info)
unfolding new_publication
new_publication-IsPublication info = (refl, refl, tt)

event-IsKeyed : (event : RoomEvent) (r : Roster) → IsKeyed r → IsKeyed (on_room_event event r).1
unfolding on_room_event create_remote_participant new_publication
event-IsKeyed (participant_connected info) r k = (
  Each-emplace IsParticipant info.identity (create_remote_participant info) r.remote_participants
      (refl, tt) k.0,
  emplace-Distinct info.identity _ r.remote_participants k.1,
)
event-IsKeyed (participant_disconnected identity reason) r k =
    option_rule {B = Result} (λ o. IsKeyed o.1) (lookup identity r.remote_participants) (λ _. k)
      (λ p _. (
        Each-erase IsParticipant identity r.remote_participants k.0,
        erase-Distinct identity r.remote_participants k.1,
      ))
event-IsKeyed (local_track_published sid) r k =
    option_rule {B = Result} (λ o. IsKeyed o.1) (local_publication sid r) (λ _. k) (λ _ _. k)
event-IsKeyed (local_track_unpublished sid) r k =
    option_rule {B = Result} (λ o. IsKeyed o.1) (local_publication sid r) (λ _. k) (λ _ _. k)
event-IsKeyed (local_track_subscribed sid) r k =
    option_rule {B = Result} (λ o. IsKeyed o.1) (local_publication sid r) (λ _. k) (λ _ _. k)
event-IsKeyed (track_published identity info) r k =
    option_rule {B = Result} (λ o. IsKeyed o.1) (lookup identity r.remote_participants) (λ _. k)
      (λ p e. publications-IsKeyed identity p _ r k e (
        Each-emplace IsPublication info.sid (new_publication info) p.publications
          (new_publication-IsPublication info)))
event-IsKeyed (track_unpublished identity sid) r k =
    option_rule {B = Result} (λ o. IsKeyed o.1) (remote_publication identity sid r) (λ _. k)
      (λ (p, q) e.
        publications-IsKeyed identity p _ r k (remote_publication_lem identity sid p q r e).0
          (Each-erase IsPublication sid p.publications))
event-IsKeyed (track_subscribed identity track) r k =
    option_rule {B = Result} (λ o. IsKeyed o.1) (remote_publication identity track.sid r) (λ _. k)
      (λ (p, q) e.
        let (known, published) = remote_publication_lem identity track.sid p q r e in
        if_rule {A = Result} (λ o. IsKeyed o.1) (is_supported track.kind)
          (λ _. publications-IsKeyed identity p _ r k known (λ each.
            let h = Each-lookup IsPublication track.sid q p.publications each published in
            Each-insert IsPublication track.sid _ p.publications (h.0, refl, refl) each))
          (λ _. k))
event-IsKeyed (track_unsubscribed identity sid) r k =
    option_rule {B = Result} (λ o. IsKeyed o.1) (remote_publication identity sid r) (λ _. k)
      (λ (p, q) e.
        let (known, published) = remote_publication_lem identity sid p q r e in
        publications-IsKeyed identity p _ r k known (λ each.
          let h = Each-lookup IsPublication sid q p.publications each published in
          Each-insert IsPublication sid _ p.publications (h.0, refl, tt) each))
event-IsKeyed (track_subscription_failed identity sid error) r k =
    option_rule {B = Result} (λ o. IsKeyed o.1) (lookup identity r.remote_participants) (λ _. k)
      (λ _ _. k)
event-IsKeyed (data_track_published track) r k = k
event-IsKeyed (data_track_unpublished sid) r k = k
event-IsKeyed (track_muted identity sid) r k = mute-IsKeyed true identity sid r k
event-IsKeyed (track_unmuted identity sid) r k = mute-IsKeyed false identity sid r k
event-IsKeyed (active_speakers_changed identities) r k = k
event-IsKeyed (room_metadata_changed metadata) r k = k
event-IsKeyed (room_sid_changed sid) r k = k
event-IsKeyed (participant_metadata_changed identity metadata) r k =
    change-IsKeyed identity _ r k (λ who i p h. h)
event-IsKeyed (participant_name_changed identity name) r k =
    change-IsKeyed identity _ r k (λ who i p h. h)
event-IsKeyed (participant_attributes_changed identity attributes changed) r k =
    change-IsKeyed identity _ r k (λ who i p h. h)
event-IsKeyed (participant_encryption_status_changed identity encrypted) r k =
    option_rule {B = Result} (λ o. IsKeyed o.1) (find_participant identity r) (λ _. k) (λ _ _. k)
event-IsKeyed (connection_quality_changed identity quality) r k =
    option_rule {B = Result} (λ o. IsKeyed o.1) (find_participant identity r) (λ _. k) (λ _ _. k)
event-IsKeyed (e2ee_state_changed identity state) r k =
    option_rule {B = Result} (λ o. IsKeyed o.1) (find_participant identity r) (λ _. k) (λ _ _. k)
event-IsKeyed (participants_updated infos) r k = updates-IsKeyed infos r k

-- Whatever events come, in whatever order, to a room whose maps are in order: every remote participant
-- stands under its identity and no identity has two; every publication stands under its id, and is
-- subscribed to exactly if it has a track, which has the same id.
pub events-IsKeyed :
    (events : List RoomEvent) (r : Roster) → IsKeyed r → IsKeyed (on_room_events events r)
unfolding on_room_events
events-IsKeyed [] r k = k
events-IsKeyed (e ∷ es) r k = events-IsKeyed es (on_room_event e r).1 (event-IsKeyed e r k)
