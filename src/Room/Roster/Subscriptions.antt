-- ===== src/Room/Roster/Subscriptions.antt =====
-- The subscription to a track, from its begin to its end.
use mathlib.Core.Option.{map}
use client_sdk_cpp.Prelude.{
  true, false, List, [], ◌∷◌, none, some, String, if◌then◌else◌, ◌≡◌, refl, ap, arith,
}
use client_sdk_cpp.Prelude.Assoc.{string_eq, insert, lookup-insert_self}
use client_sdk_cpp.Dispatcher.{Key}
use client_sdk_cpp.Dispatcher.DataTracks.{Call, subscribes, unsubscribes}
use client_sdk_cpp.Room.Roster.{Track, Publication, Participant, Roster}
use client_sdk_cpp.Room.Roster.Events.{
  track_subscribed, track_unsubscribed, remote_publication, put_publications, is_supported,
  on_room_event, Action, tells, dispatches, on_track_subscribed, on_track_unsubscribed,
}

abbrev pub calls_of : List Action → List Call
calls_of [] = []
calls_of (tells notice ∷ actions) = calls_of actions
calls_of (dispatches call ∷ actions) = call ∷ calls_of actions

-- A remote participant's publications that were put are found.
put_found :
    (identity sid : String) (p : Participant) (q : Publication) (r : Roster)
    → remote_publication identity sid (put_publications identity p (insert sid q p.publications) r)
      ≡ some (record p { publications = insert sid q p.publications }, q)
put_found identity sid p q r = ground (
  arith,
  lookup-insert_self identity (record p { publications = insert sid q p.publications })
      r.remote_participants,
  lookup-insert_self sid q p.publications,
)

-- A publication that got a track, and one that lost its track.
abbrev with_track : Track → Publication → Publication
with_track track q = record q { track = some track; subscribed = true }

abbrev without_track : Publication → Publication
without_track q = record q { track = none; subscribed = false }

abbrev key_of : String → Publication → Key
key_of identity q = record { participant_identity = identity; track_name = q.name }

subscribed_result :
    (identity : String) (track : Track) (p : Participant) (q : Publication) (r : Roster)
    → remote_publication identity track.sid r ≡ some (p, q)
    → is_supported track.kind ≡ true
    → on_room_event (track_subscribed identity track) r ≡ (
      tells (on_track_subscribed identity (with_track track q) track)
          ∷ dispatches (subscribes (key_of identity q) (some (track.kind, some track.handle)))
          ∷ [],
      put_publications identity p (insert track.sid (with_track track q) p.publications) r,
    )
unfolding on_room_event
subscribed_result identity track p q r h k = ground arith

unsubscribed_result :
    (identity sid : String) (p : Participant) (q : Publication) (r : Roster)
    → remote_publication identity sid r ≡ some (p, q)
    → on_room_event (track_unsubscribed identity sid) r ≡ (
      tells (on_track_unsubscribed identity (without_track q) q.track)
          ∷ (if q.has_source then dispatches (unsubscribes (key_of identity q)) ∷ [] else []),
      put_publications identity p (insert sid (without_track q) p.publications) r,
    )
unfolding on_room_event
unsubscribed_result identity sid p q r h = ground arith

stops :
    (identity : String) (q : Publication)
    → calls_of (if q.has_source then dispatches (unsubscribes (key_of identity q)) ∷ [] else [])
      ≡ (if q.has_source then unsubscribes (key_of identity q) ∷ [] else [])
stops identity q = ground arith

-- A track of a supported kind, of a publication that the room knows, that is subscribed to and then no
-- longer: its publication has it in between and has none at the end. The subscriptions are asked to
-- start reading under the participant's identity and the publication's name; they are asked to stop
-- under the same key, but only if the publication has a source that is not unknown.
pub subscription_ends :
    (identity : String) (track : Track) (p : Participant) (q : Publication) (r : Roster)
    → remote_publication identity track.sid r ≡ some (p, q)
    → is_supported track.kind ≡ true
    → let key : Key = record { participant_identity = identity; track_name = q.name } in
      let (actions, r') = on_room_event (track_subscribed identity track) r in
      let (actions', r'') = on_room_event (track_unsubscribed identity track.sid) r' in
      (calls_of actions ≡ subscribes key (some (track.kind, some track.handle)) ∷ [])
      × (calls_of actions' ≡ (if q.has_source then unsubscribes key ∷ [] else []))
      × (map (λ f. f.1.track) (remote_publication identity track.sid r') ≡ some (some track))
      × (map (λ f. f.1.track) (remote_publication identity track.sid r'') ≡ some none)
subscription_ends identity track p q r h k =
    let begun = subscribed_result identity track p q r h k in
    let p' : Participant = record p {
      publications = insert track.sid (with_track track q) p.publications;
    } in
    let r' = put_publications identity p (insert track.sid (with_track track q) p.publications) r in
    let found = put_found identity track.sid p (with_track track q) r in
    let ended = unsubscribed_result identity track.sid p' (with_track track q) r' found in
    let lost = put_found identity track.sid p' (without_track (with_track track q)) r' in
    rw begun (
      rw ended
        (refl, stops identity q, ap (map (λ f. f.1.track)) found, ap (map (λ f. f.1.track)) lost))
